-- ===== src/Coordinator/Abort.antt =====
-- lineagetx/coordinator.py: `abort`, `reconcile_abort` and `_abort_after_failure`.
use Prim.Native.String.{◌++◌ as append}
use data_lineage_fix_agent.Prelude.{
  String, Bool, false, not, ◌||◌, Option, none, List, [], ◌∷◌, ◌++◌, map, Exception,
  coordination_error, guard, ◌==◌, filter,
}
use data_lineage_fix_agent.Models.Status.{
  MigrationStatus, ParticipantStatus, same_status, same_participant_status,
}
use data_lineage_fix_agent.Models.Receipts.{AbortCleanupReceipt, check_cleanup_receipt}
use data_lineage_fix_agent.Models.Participants.{Participant}
use data_lineage_fix_agent.State.Tables.{MigrationRecord, plain}
use data_lineage_fix_agent.Models.Runtime.{text}
use data_lineage_fix_agent.State.Migrations.{get_migration, reserve_abort_cleanup, abort_migration}
use data_lineage_fix_agent.State.Participants.{get_participant, transition_participant, is_terminal}
use data_lineage_fix_agent.State.Participants as P
use data_lineage_fix_agent.State.Events.{list_events}
use data_lineage_fix_agent.Coordinator.World.{
  RepositorySession, EvidenceManifest, Services, Settings, Memory, remove_worktree,
}
use data_lineage_fix_agent.Coordinator.Runs.{
  Run, pure, raise, lift, catch, ask, on_store, query, recall, read_clock, when, ◌>>=◌, ◌>>◌,
}
use data_lineage_fix_agent.Coordinator.Records.{is_there}
use data_lineage_fix_agent.Coordinator.Writeback.{
  write_evidence, record_evidence, capture_and_seal, writeback,
}
use data_lineage_fix_agent.Coordinator.Recovery.{abort_cleanup_from_events}
use data_lineage_fix_agent.Coordinator.Names.{exception_name, sorted_texts}

pub record AbortOutcome : Type 0 where
  pub migration : MigrationRecord
  pub cleanup : AbortCleanupReceipt
  pub manifest : Option EvidenceManifest
  pub deployed_systems_rolled_back : Bool

-- The three lists that the cleanup loop collects.
pub record Cleanup : Type 0 where
  pub removed : List String
  pub branches : List String
  pub errors : List String

-- [session for (known_migration, _), session in self._sessions.items() if …]
unfoldable pub sessions_of : String → Memory → List RepositorySession
sessions_of id m = map (λ k. k.value) (filter (λ k. k.migration == id) m.sessions)

module _ (sv : Services) (cfg : Settings) (id : String) where
  -- One round of the loop: any exception is audited.
  unfoldable pub clean_session : RepositorySession → Cleanup → Run Cleanup
  clean_session session c =
      catch
        (do
          ask (remove_worktree id session) (λ h. sv.abort_worktree h session)
          scope ← lift (sv.relative_to_root session.worktree)
          pure (record c {
            removed = c.removed ++ scope ∷ [];
            branches = c.branches ++ session.branch ∷ [];
          }))
        (λ e. pure (record c {
          errors = c.errors ++ append session.branch (append ": " (exception_name e)) ∷ [];
        }))

  unfoldable pub clean_sessions : List RepositorySession → Cleanup → Run Cleanup
  unfolding clean_session
  clean_sessions [] c = pure c
  clean_sessions (session ∷ sessions) c = do
    c' ← clean_session session c
    clean_sessions sessions c'

  unfoldable pub cleanup_receipt_of : String → Cleanup → AbortCleanupReceipt
  cleanup_receipt_of now c = record {
    migration_id = id;
    worktrees_removed = sorted_texts c.removed;
    candidate_branches_deleted = sorted_texts c.branches;
    cleanup_errors = sorted_texts c.errors;
    recorded_at = now;
    deployed_systems_rolled_back = false;
  }

  -- `AbortCleanupReceipt(...)`, whose `recorded_at` is `utc_now()`
  unfoldable pub new_cleanup_receipt : Cleanup → Run AbortCleanupReceipt
  unfolding cleanup_receipt_of
  new_cleanup_receipt c = do
    now ← read_clock sv
    lift (check_cleanup_receipt sv.runtime (cleanup_receipt_of now c))
    pure (cleanup_receipt_of now c)

  -- From the reservation on.
  unfoldable pub clean_up : MigrationRecord → Run AbortOutcome
  unfolding sessions_of clean_sessions new_cleanup_receipt
  clean_up migration = do
    sessions ← recall (sessions_of id)
    collected ← clean_sessions sessions (record { removed = []; branches = []; errors = [] })
    receipt ← new_cleanup_receipt collected
    when (is_there cfg.evidence_migration) (write_evidence sv cfg "abort/cleanup.json")
    gone ← on_store sv (abort_migration id receipt migration.status migration.version)
    catch (writeback sv cfg gone "aborted" none)
        (λ _. do record_evidence sv cfg "writeback/aborted-error.json"; raise coordination_error)
    manifest ← capture_and_seal sv cfg "99-aborted"
    pure (record {
      migration = gone;
      cleanup = receipt;
      manifest = manifest;
      deployed_systems_rolled_back = false;
    })

  unfoldable pub abort : Run AbortOutcome
  unfolding clean_up
  abort = do
    migration ← query sv (get_migration id)
    lift (guard (not (is_terminal migration.status)) coordination_error)
    on_store sv (reserve_abort_cleanup id migration.status migration.version)
    clean_up migration

  unfoldable pub reconcile_abort : Run AbortOutcome
  reconcile_abort = do
    migration ← query sv (get_migration id)
    lift (guard (same_status migration.status MigrationStatus.aborted) coordination_error)
    events ← query sv (list_events id)
    cleanup ← lift (abort_cleanup_from_events sv.runtime events)
    catch (writeback sv cfg migration "aborted" none) (λ _. do
      record_evidence sv cfg "writeback/aborted-reconciliation-error.json"
      raise coordination_error)
    manifest ← capture_and_seal sv cfg "99-aborted-reconciled"
    pure (record {
      migration = migration;
      cleanup = cleanup;
      manifest = manifest;
      deployed_systems_rolled_back = false;
    })

  unfoldable pub failed_move : Participant → Exception → String → String → P.Move
  failed_move p error phase now = record {
    target = ParticipantStatus.failed;
    expected_status = p.status;
    expected_version = p.version;
    event_type = "PARTICIPANT_SAFETY_CHECK_FAILED";
    payload =
        ("phase", plain (text phase)) ∷ ("error_type", plain (text (exception_name error))) ∷ [];
    candidate_commit_sha = none;
    evidence_links = none;
    now = now;
  }

  -- The best-effort FAILED marker; an exception in it is passed over.
  unfoldable pub mark_failed : String → Exception → String → Run (Unit {0})
  unfolding failed_move
  mark_failed participant_id error phase = when (not (participant_id == "")) (
      catch
        (do
          p ← query sv (get_participant participant_id)
          when
              (same_participant_status p.status ParticipantStatus.preparing
                || same_participant_status p.status ParticipantStatus.needs_approval)
              (do
                on_store sv
                    (λ now. transition_participant participant_id (failed_move p error phase now))
                pure tt))
        (λ _. pure tt))

  -- `_abort_after_failure`, which always raises
  unfoldable pub abort_after_failure : {A : Type 0} → String → Exception → String → Run A
  unfolding mark_failed abort
  abort_after_failure participant_id error phase = do
    mark_failed participant_id error phase
    catch (do abort; pure tt) (λ _. raise coordination_error)
    raise coordination_error
