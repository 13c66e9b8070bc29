-- ===== src/Coordinator/Writeback.antt =====
-- lineagetx/coordinator.py: `_seal_evidence`, `_required_context`, `_writeback` and the writes of
-- evidence. What an evidence file holds is not modelled.
use Prim.Native.String.{◌++◌ as append}
use data_lineage_fix_agent.Prelude.{String, Option, none, some, coordination_error, require, lookup}
use data_lineage_fix_agent.State.Tables.{MigrationRecord}
use data_lineage_fix_agent.State.Participants.{list_participants}
use data_lineage_fix_agent.Policy.Context.{DataHubMigrationContext}
use data_lineage_fix_agent.Coordinator.World.{
  EvidenceManifest, Services, Settings, write_assets, write_json, capture_state, seal,
}
use data_lineage_fix_agent.Coordinator.Runs.{
  Run, pure, lift, ask, query, recall, on_option, when, ◌>>=◌, ◌>>◌,
}
use data_lineage_fix_agent.Coordinator.Records.{is_there, writebacks, stage_evidence_url}

module _ (sv : Services) (cfg : Settings) where
  -- self.evidence.write_json(path, ...)
  unfoldable pub write_evidence : String → Run (Unit {0})
  write_evidence path = ask (write_json path) (λ h. sv.write_evidence h path)

  -- self.evidence.capture_state(self.state, stage)
  unfoldable pub capture : String → Run (Unit {0})
  capture stage = ask (capture_state stage) (λ h. sv.capture h stage)

  -- `_seal_evidence`
  unfoldable pub seal_evidence : Run (Option EvidenceManifest)
  seal_evidence =
      on_option cfg.evidence_migration (pure none)
        (λ _. do manifest ← ask seal sv.build_and_verify_manifest; pure (some manifest))

  -- `if self.evidence is not None:` a file, and the seal
  unfoldable pub record_evidence : String → Run (Unit {0})
  unfolding write_evidence seal_evidence
  record_evidence path =
      when (is_there cfg.evidence_migration) (do write_evidence path; seal_evidence; pure tt)

  -- The same with a capture of the state; the manifest of the seal is returned.
  unfoldable pub capture_and_seal : String → Run (Option EvidenceManifest)
  unfolding capture seal_evidence
  capture_and_seal stage = do when (is_there cfg.evidence_migration) (capture stage); seal_evidence

  -- `_required_context`
  unfoldable pub required_context : String → Run DataHubMigrationContext
  required_context id = do
    known ← recall (λ m. lookup id m.contexts)
    lift (require known coordination_error)

  -- `_writeback`
  unfoldable pub writeback :
      MigrationRecord → String → Option DataHubMigrationContext → Run (Unit {0})
  unfolding required_context record_evidence
  writeback m stage refreshed = when cfg.has_writer (do
    context ← required_context m.intent.migration_id
    participants ← query sv (list_participants m.intent.migration_id)
    values ← lift (
        writebacks sv.runtime m context participants
          (stage_evidence_url cfg.evidence_base_url m.intent.migration_id stage))
    ask (write_assets m.intent.migration_id stage) (λ h. sv.write_back h values refreshed)
    record_evidence (append "writeback/" (append stage ".json")))
