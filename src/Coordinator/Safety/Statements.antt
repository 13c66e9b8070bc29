-- ===== src/Coordinator/Safety/Statements.antt =====
-- lineagetx/coordinator.py: the statements that neither release nor remove keep the invariant, with
-- whatever else the store's calls keep.
use data_lineage_fix_agent.Prelude.{String, refl, Option, none, some, All}
use data_lineage_fix_agent.State.Tables.{Store, MigrationRecord}
use data_lineage_fix_agent.State.Calls.{IsPermitted}
use data_lineage_fix_agent.Policy.Context.{DataHubMigrationContext}
use data_lineage_fix_agent.Coordinator.World.{History, Services, Settings}
use data_lineage_fix_agent.Coordinator.Rules.{
  Keeps, keeps_rules, on_option-Keeps, pure-Keeps, bind-Keeps,
}
use data_lineage_fix_agent.Coordinator.Safety.Sound.{
  IsStable, IsSound, query-Keeps, quiet_ask-Keeps,
}
use data_lineage_fix_agent.Coordinator.Writeback.{
  write_evidence, capture, seal_evidence, record_evidence, capture_and_seal, required_context,
  writeback,
}

module _ (i : String) (R : Store → Type 0) (stable : IsStable R) (sv : Services)
    (permitted : (h : History) → All IsPermitted (sv.others h)) (cfg : Settings) where
  pub write_evidence-Keeps : (path : String) → Keeps (IsSound i R) (write_evidence sv cfg path)
  unfolding write_evidence
  write_evidence-Keeps path = quiet_ask-Keeps i R stable _ _ refl refl

  pub capture-Keeps : (stage : String) → Keeps (IsSound i R) (capture sv cfg stage)
  unfolding capture
  capture-Keeps stage = quiet_ask-Keeps i R stable _ _ refl refl

  pub seal_evidence-Keeps : Keeps (IsSound i R) (seal_evidence sv cfg)
  unfolding seal_evidence
  seal_evidence-Keeps =
      on_option-Keeps cfg.evidence_migration (pure-Keeps none)
        (λ _. bind-Keeps (quiet_ask-Keeps i R stable _ _ refl refl) (λ m. pure-Keeps (some m)))

  pub record_evidence-Keeps : (path : String) → Keeps (IsSound i R) (record_evidence sv cfg path)
  unfolding record_evidence
  record_evidence-Keeps path = search (keeps_rules, write_evidence-Keeps, seal_evidence-Keeps)

  pub capture_and_seal-Keeps :
      (stage : String) → Keeps (IsSound i R) (capture_and_seal sv cfg stage)
  unfolding capture_and_seal
  capture_and_seal-Keeps stage = search (keeps_rules, capture-Keeps, seal_evidence-Keeps)

  pub required_context-Keeps : (id : String) → Keeps (IsSound i R) (required_context sv cfg id)
  unfolding required_context
  required_context-Keeps id = search keeps_rules

  pub writeback-Keeps :
      (m : MigrationRecord) (stage : String) (refreshed : Option DataHubMigrationContext)
      → Keeps (IsSound i R) (writeback sv cfg m stage refreshed)
  unfolding writeback
  writeback-Keeps m stage refreshed =
      search
        (
          keeps_rules,
          required_context-Keeps,
          record_evidence-Keeps,
          query-Keeps i R stable sv permitted,
          quiet_ask-Keeps i R stable,
        )
        depth 12
