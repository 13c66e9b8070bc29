-- ===== src/Coordinator/Detect.antt =====
-- lineagetx/coordinator.py: `detect`, and the operations as a client asks for them.
use data_lineage_fix_agent.Prelude.{
  String, Bool, false, not, Option, none, some, List, [], ◌∷◌, value_error, guard, ◌==◌, set_entry,
}
use data_lineage_fix_agent.Models.Intent.{ChangeIntent}
use data_lineage_fix_agent.Models.Participants.{Participant}
use data_lineage_fix_agent.State.Tables.{MigrationRecord}
use data_lineage_fix_agent.State.Migrations.{create_migration}
use data_lineage_fix_agent.Policy.Discovery.{DiscoveryAttestation}
use data_lineage_fix_agent.Policy.Binding.{validate_discovery}
use data_lineage_fix_agent.Coordinator.World.{Services, Settings, World}
use data_lineage_fix_agent.Coordinator.Runs.{Run, pure, lift, on_store, remember, when, ◌>>=◌, ◌>>◌}
use data_lineage_fix_agent.Coordinator.Records.{is_there}
use data_lineage_fix_agent.Coordinator.Writeback.{write_evidence, capture_and_seal, writeback}
use data_lineage_fix_agent.Coordinator.Abort.{abort, reconcile_abort}
use data_lineage_fix_agent.Policy.Approval.{OwnerApproval}
use data_lineage_fix_agent.Coordinator.Prepare.{prepare}
use data_lineage_fix_agent.Coordinator.Approve.{approve, approve_from_github}
use data_lineage_fix_agent.Coordinator.Commit.{commit, reconcile_commit}

-- `self.evidence is not None and self.evidence.migration_id != migration_id`
abbrev is_foreign_recorder : Option String → String → Bool
is_foreign_recorder none id = false
is_foreign_recorder (some known) id = not (known == id)

pub data Operation : Type 0 where
  detect_migration : ChangeIntent → DiscoveryAttestation → List Participant → Operation
  prepare_candidates : String → List (String × String) → Operation
  approve_for_test : String → OwnerApproval → Operation
  approve_on_github : String → String → Operation
  commit_migration : String → Operation
  reconcile_committed : String → Operation
  abort_candidates : String → Operation
  reconcile_aborted : String → Operation

module _ (sv : Services) (cfg : Settings) where
  unfoldable pub detect :
      ChangeIntent → DiscoveryAttestation → List Participant → Run MigrationRecord
  detect intent attestation participants = do
    lift (guard (not (is_foreign_recorder cfg.evidence_migration intent.migration_id)) value_error)
    decision ← lift (validate_discovery sv.python cfg.safety_policy intent attestation participants)
    migration ← on_store sv (λ _. create_migration intent participants)
    remember (λ m. record m {
      contexts = set_entry intent.migration_id attestation.context m.contexts;
      discoveries = set_entry intent.migration_id decision m.discoveries;
    })
    when (is_there cfg.evidence_migration) (do
      write_evidence sv cfg "context/datahub.json"
      write_evidence sv cfg "context/discovery-decision.json")
    capture_and_seal sv cfg "01-detected"
    writeback sv cfg migration "detected" none
    pure migration

  -- The world after an operation, whether it returned or raised.
  unfoldable pub operate : Operation → World → World
  unfolding detect
  operate (detect_migration intent attestation participants) w =
      (detect intent attestation participants w).1
  operate (prepare_candidates id roots) w = (prepare sv cfg id roots w).1
  operate (approve_for_test id approval) w = (approve sv cfg id approval w).1
  operate (approve_on_github id source_api_url) w =
      (approve_from_github sv cfg id source_api_url w).1
  operate (commit_migration id) w = (commit sv cfg id w).1
  operate (reconcile_committed id) w = (reconcile_commit sv cfg id w).1
  operate (abort_candidates id) w = (abort sv cfg id w).1
  operate (reconcile_aborted id) w = (reconcile_abort sv cfg id w).1

  unfoldable pub operate_all : List Operation → World → World
  unfolding operate
  operate_all [] w = w
  operate_all (o ∷ os) w = operate_all os (operate o w)
