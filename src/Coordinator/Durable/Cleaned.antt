-- ===== src/Coordinator/Durable/Cleaned.antt =====
-- lineagetx/coordinator.py: `abort` returns the row that the store has at ABORTED, and a receipt
-- without errors.
use data_lineage_fix_agent.Coordinator.Safety.Statements.{
  capture_and_seal-Keeps, record_evidence-Keeps, writeback-Keeps, write_evidence-Keeps,
}
use data_lineage_fix_agent.Coordinator.Rules.{
  raise-Keeps, then-Keeps, catch-Keeps, lift-Keeps, when-Keeps, recall-Keeps,
}
use data_lineage_fix_agent.Coordinator.Safety.Removal.{
  reserve-Gains, new_cleanup_receipt-Keeps, clean_sessions-Keeps, abort_migration-Keeps,
}
use data_lineage_fix_agent.Coordinator.Runs.{on_store}
use data_lineage_fix_agent.Coordinator.Durable.Rows.{aborted-IsStable, IsAt}
use data_lineage_fix_agent.Coordinator.Safety.Sound.{
  has_event-IsStable, Any-IsStable, query-Keeps, on_store-Gains, Any, IsSound, IsStable,
}
use data_lineage_fix_agent.Coordinator.Gains.{
  pure-Gains, bind-Gains, then-Gains, kept_then-Gains, kept-Gains, Gains,
}
use data_lineage_fix_agent.Coordinator.Safety.Operations.{reached-IsSound, new_world}
use data_lineage_fix_agent.Prelude.{String, ◌≡◌, true, some, ok, All, List, []}
use data_lineage_fix_agent.State.Tables.{
  Store, MigrationRecord, find_migration, abort_reserved_event,
}
use data_lineage_fix_agent.State.Calls.{IsPermitted}
use data_lineage_fix_agent.State.Migrations.{abort_migration}
use data_lineage_fix_agent.State.Terminal.{abort_migration-row}
use data_lineage_fix_agent.State.Gate.Quiet.{is_reserved}
use data_lineage_fix_agent.Models.Status.{MigrationStatus}
use data_lineage_fix_agent.Models.Receipts.{AbortCleanupReceipt}
use data_lineage_fix_agent.Coordinator.World.{World, Services, Settings, History, Memory}
use data_lineage_fix_agent.Coordinator.Abort.{AbortOutcome, clean_up, abort}
use data_lineage_fix_agent.Coordinator.Detect.{Operation, operate_all}

-- The row of the outcome is on record, at ABORTED, and the cleanup had no errors.
abbrev pub IsCleaned : String → AbortOutcome → World → Type 0
IsCleaned id out w =
    IsAt id MigrationStatus.aborted out.migration w.store × (out.cleanup.cleanup_errors ≡ [])

module _ (sv : Services) (permitted : (h : History) → All IsPermitted (sv.others h))
    (cfg : Settings) (id : String) (R : Store → Type 0) (stable : IsStable R) where
  -- The row that `abort_migration` returns is on record.
  gone-Gains :
      (receipt : AbortCleanupReceipt) (m : MigrationRecord)
      → Gains
          (IsSound id R)
          (λ gone.
            IsSound id
              (λ s. IsAt id MigrationStatus.aborted gone s × (receipt.cleanup_errors ≡ [])))
          (on_store sv (abort_migration id receipt m.status m.version))
  gone-Gains receipt m =
      on_store-Gains id R stable sv permitted
        (λ gone s. IsAt id MigrationStatus.aborted gone s × (receipt.cleanup_errors ≡ [])) _
        (abort_migration-Keeps id R stable sv permitted cfg id receipt m)
        (λ now s gone h.
          let (found, at, clean) = abort_migration-row id receipt m.status m.version now s gone h in
          ((found, at), clean))

  clean_up-Gains :
      ((s : Store) → R s → is_reserved id s ≡ true)
      → (m : MigrationRecord) → Gains (IsSound id R) (IsCleaned id) (clean_up sv cfg id m)
  unfolding clean_up
  clean_up-Gains reserved m = kept-Gains (recall-Keeps _) (λ sessions.
      kept-Gains (clean_sessions-Keeps id R stable sv permitted cfg id reserved sessions _) (λ c.
        kept-Gains (new_cleanup_receipt-Keeps id R stable sv permitted cfg id c) (λ receipt.
          kept_then-Gains (when-Keeps _ (write_evidence-Keeps id R stable sv permitted cfg _)) (
            bind-Gains (gone-Gains receipt m) (λ gone.
              kept_then-Gains
                (catch-Keeps (writeback-Keeps id _ (at receipt gone) sv permitted cfg gone _ _)
                  (λ _.
                    then-Keeps (record_evidence-Keeps id _ (at receipt gone) sv permitted cfg _)
                      (raise-Keeps _)))
                (kept-Gains (capture_and_seal-Keeps id _ (at receipt gone) sv permitted cfg _)
                  (λ manifest. pure-Gains _ (λ w h. h.also))))))))
    where
      at :
          (receipt : AbortCleanupReceipt) (gone : MigrationRecord)
          → IsStable (λ s. IsAt id MigrationStatus.aborted gone s × (receipt.cleanup_errors ≡ []))
      at receipt gone c s h = (aborted-IsStable id gone c s h.0, h.1)

module _ (sv : Services) (permitted : (h : History) → All IsPermitted (sv.others h))
    (cfg : Settings) (id : String) where
  abort-Gains : Gains (IsSound id Any) (IsCleaned id) (abort sv cfg id)
  unfolding abort
  abort-Gains = kept-Gains (query-Keeps id Any Any-IsStable sv permitted _) (λ m.
      kept_then-Gains (lift-Keeps _) (
        then-Gains (reserve-Gains id sv permitted cfg id m) (
          clean_up-Gains sv permitted cfg id _ (has_event-IsStable id abort_reserved_event)
            (λ s x. x) m)))

-- When `abort` returns, whatever operations came before it on a new store and whatever other clients
-- did in between, the store has the migration on record as the outcome says, at ABORTED, and no cleanup
-- error was audited.
pub abort_is_durable :
    (sv : Services) (cfg : Settings) (os : List Operation) (m : Memory) (id : String)
    (out : AbortOutcome)
    → ((h : History) → All IsPermitted (sv.others h))
    → (abort sv cfg id (operate_all sv cfg os (new_world m))).0 ≡ ok out
    → (find_migration id (abort sv cfg id (operate_all sv cfg os (new_world m))).1.store.migrations
        ≡ some out.migration)
      × (out.migration.status ≡ MigrationStatus.aborted)
      × (out.cleanup.cleanup_errors ≡ [])
abort_is_durable sv cfg os m id out permitted returned =
    let ((found, at), clean) =
      (abort-Gains sv permitted cfg id).gained (operate_all sv cfg os (new_world m)) out
        (reached-IsSound id sv permitted cfg os m) returned in
    (found, at, clean)
