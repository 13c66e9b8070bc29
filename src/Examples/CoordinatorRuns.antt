-- ===== src/Examples/CoordinatorRuns.antt =====
-- Runs of the coordinator over a store in which another client has prepared the migration.
use data_lineage_fix_agent.Coordinator.Refusal.{refused_approval_changes_nothing}
use data_lineage_fix_agent.Coordinator.Approve.{not_verified, approve_from_github}
use data_lineage_fix_agent.State.Migrations.{move_payload}
use data_lineage_fix_agent.Coordinator.Durable.Cleaned.{abort_is_durable}
use data_lineage_fix_agent.Coordinator.Durable.Committed.{commit_is_durable}
use data_lineage_fix_agent.State.Tables.{
  empty, of_migration, StateEvent, find_migration, MigrationRecord,
}
use data_lineage_fix_agent.Coordinator.Commit.{
  Ready, CommitOutcome, commit_prepared, release, release_armed, reconcile_commit,
  known_publication, finish, persist, commit_move, publish, not_armed, not_ready, make_ready,
  validate_candidates, recheck_approval, revalidate_impact,
}
use data_lineage_fix_agent.Coordinator.Requests.{request_of}
use data_lineage_fix_agent.Coordinator.Abort.{
  AbortOutcome, failed_move, abort_after_failure, mark_failed, reconcile_abort, new_cleanup_receipt,
  cleanup_receipt_of, sessions_of, clean_sessions, clean_session, clean_up,
}
use data_lineage_fix_agent.State.Gate.Quiet.{IsHeld}
use data_lineage_fix_agent.Coordinator.Safety.Operations.{released_never_removed, new_world}
use data_lineage_fix_agent.State.Calls.{perform_all, IsPermitted}
use data_lineage_fix_agent.Coordinator.Safety.Sound.{has_release, has_removal}
use data_lineage_fix_agent.Coordinator.Detect.{operate_all}
use data_lineage_fix_agent.Coordinator.World.{World, Settings, History}
use data_lineage_fix_agent.Publisher.Requests.{CandidateCommit}
use data_lineage_fix_agent.Prelude.{
  coordination_error, approval_verification_error, err, String, ℕ, true, false, none, some, [], ◌∷◌,
  map, ok, ◌≡◌, refl, All,
}
use data_lineage_fix_agent.Models.Status.{MigrationStatus, ParticipantStatus, ParticipantKind}
use data_lineage_fix_agent.State.Calls.{create}
use data_lineage_fix_agent.Models.Participants.{Participant}
use data_lineage_fix_agent.Examples.{waiting, intent, consumer, sha_a, now}
use data_lineage_fix_agent.Coordinator.Abort as A
use data_lineage_fix_agent.Coordinator.Commit as C
use data_lineage_fix_agent.State.Migrations as M
use data_lineage_fix_agent.Examples.Coordinated.{
  consumers, launch, before_all, staged, released, session, services, settings, context, memory,
  launch-IsPermitted, commit_it, coordinated,
}

commit_releases :
    has_release "ltx-1"
      (operate_all (services launch) settings commit_it (new_world memory)).history
    ≡ true
unfolding coordinated
commit_releases = refl

released_never_removed_example :
    (has_removal "ltx-1"
        (operate_all (services launch) settings commit_it (new_world memory)).history
      ≡ false)
    × IsHeld "ltx-1" (operate_all (services launch) settings commit_it (new_world memory)).store
released_never_removed_example =
    released_never_removed "ltx-1" (services launch) settings commit_it memory launch-IsPermitted
      commit_releases

abbrev verified : String → Participant
verified id = record (consumer id ParticipantKind.dbt_sql) {
  status = ParticipantStatus.verified;
  version = 2;
  candidate_commit_sha = sha_a;
}

abbrev row : MigrationStatus → ℕ → MigrationRecord
row status version = record {
  intent = intent;
  status = status;
  version = version;
  created_at = now;
  updated_at = now;
}

abbrev candidate : String → CandidateCommit
candidate id = record {
  participant_id = id;
  repository = "acme/data";
  branch = "lineagetx/ltx-1";
  commit_sha = sha_a;
  changed_files = "models/orders.sql" ∷ [];
  merged = false;
}

abbrev outcome : CommitOutcome
outcome = record {
  migration = row MigrationStatus.committed 3;
  participants = verified "c1" ∷ verified "c2" ∷ verified "c3" ∷ [];
  publication = released (
      staged (
        request_of "ltx-1" intent (
          map
            (λ id. record {
              commit = candidate id;
              participant = verified id;
              session = (session id).value;
            })
            ("c1" ∷ "c2" ∷ "c3" ∷ []))));
  manifest = none;
  upstream_change_safe_to_merge = true;
  auto_merged = false;
}

commits :
    (C.commit
      (services launch)
      settings
      "ltx-1"
      (operate_all (services launch) settings [] (new_world memory))).0
    ≡ ok outcome
unfolding coordinated
commits = refl

commit_is_durable_example :
    (find_migration "ltx-1"
        (C.commit
          (services launch)
          settings
          "ltx-1"
          (operate_all (services launch) settings [] (new_world memory))).1.store.migrations
      ≡ some (row MigrationStatus.committed 3))
    × (MigrationStatus.committed ≡ MigrationStatus.committed)
commit_is_durable_example =
    commit_is_durable (services launch) settings [] memory "ltx-1" outcome launch-IsPermitted
      commits

create-IsPermitted : (h : History) → All IsPermitted (before_all (create intent consumers ∷ []) h)
create-IsPermitted [] = (tt, tt)
create-IsPermitted (_ ∷ _) = tt

abbrev cleaned : AbortOutcome
cleaned = record {
  migration = row MigrationStatus.aborted 1;
  cleanup = record {
    migration_id = "ltx-1";
    worktrees_removed = "c1" ∷ "c2" ∷ "c3" ∷ [];
    candidate_branches_deleted = "lineagetx/ltx-1" ∷ "lineagetx/ltx-1" ∷ "lineagetx/ltx-1" ∷ [];
    cleanup_errors = [];
    recorded_at = now;
    deployed_systems_rolled_back = false;
  };
  manifest = none;
  deployed_systems_rolled_back = false;
}

aborts :
    (A.abort
      (services (create intent consumers ∷ []))
      settings
      "ltx-1"
      (operate_all (services (create intent consumers ∷ [])) settings [] (new_world memory))).0
    ≡ ok cleaned
unfolding coordinated
aborts = refl

abort_is_durable_example :
    (find_migration "ltx-1"
        (A.abort (services (create intent consumers ∷ [])) settings "ltx-1" (
          operate_all
            (services (create intent consumers ∷ []))
            settings
            []
            (new_world memory))).1.store.migrations
      ≡ some (row MigrationStatus.aborted 1))
    × (MigrationStatus.aborted ≡ MigrationStatus.aborted)
    × ([] ≡ cleaned.cleanup.cleanup_errors)
abort_is_durable_example =
    abort_is_durable (services (create intent consumers ∷ [])) settings [] memory "ltx-1" cleaned
      create-IsPermitted aborts

abbrev ready : Ready
ready = record {
  refreshed = context;
  request = request_of "ltx-1" intent (
      map
        (λ id. record {
          commit = candidate id;
          participant = verified id;
          session = (session id).value;
        })
        ("c1" ∷ "c2" ∷ "c3" ∷ []));
  stage = record {
    candidate_receipts = outcome.publication.candidate_receipts;
    coordinated_pr_receipt = outcome.publication.coordinated_pr_receipt;
  };
}

abbrev final_move : M.Move
final_move =
    commit_move (services launch) settings "ltx-1" (row MigrationStatus.prepared 2) ready
      outcome.publication now

abbrev committed_event : StateEvent
committed_event = record {
  migration_id = "ltx-1";
  sequence = 12;
  participant_id = none;
  event_type = final_move.event_type;
  from_status = some (of_migration MigrationStatus.prepared);
  to_status = of_migration final_move.target;
  version = 3;
  payload = move_payload final_move;
  created_at = now;
}

-- A coordinator with a verifier, and a migration that waits for its owner.
abbrev verifying : Settings
verifying = record settings { has_verifier = true; allow_test_approvals = false }

abbrev waiting_world : World
waiting_world = record (new_world memory) { store = perform_all waiting empty }

alone : (h : History) → (services []).others h ≡ []
alone [] = refl
alone (_ ∷ _) = refl

-- The verifier is asked.
asks_github :
    (approve_from_github (services []) verifying "ltx-1" "url" waiting_world).0
    ≡ err coordination_error
unfolding coordinated approve_from_github A.clean_up not_verified
asks_github = refl

refused_approval_changes_nothing_example :
    ((approve_from_github (services []) verifying "ltx-1" "url" waiting_world).1.store
      ≡ perform_all waiting empty)
    × ((approve_from_github (services []) verifying "ltx-1" "url" waiting_world).1.memory ≡ memory)
refused_approval_changes_nothing_example =
    refused_approval_changes_nothing (services []) verifying "ltx-1" "url" waiting_world alone
      (λ _ _. (approval_verification_error, refl))
