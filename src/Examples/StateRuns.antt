-- ===== src/Examples/StateRuns.antt =====
-- Runs of the store: tests, and the theorems about it at inputs where their hypotheses hold.
use data_lineage_fix_agent.State.Growth.{log_append_only}
use data_lineage_fix_agent.State.Terminal.{terminal_row_final}
use data_lineage_fix_agent.Prelude.{
  ◌++◌, ◌≡◌, ◌≢◌, refl, true, false, some, String, arith, eq_iff, ◌==◌, All,
}
use data_lineage_fix_agent.Models.Status.{MigrationStatus}
use data_lineage_fix_agent.State.Tables.{StateEvent, empty}
use data_lineage_fix_agent.State.Calls.{IsPermitted, arm, IsOpenType}
use data_lineage_fix_agent.State.Gate.{gate_excludes_abort}
use data_lineage_fix_agent.State.Gate.Quiet.{is_armed, is_reserved, IsHeld}
use data_lineage_fix_agent.State.Replay.{
  replay_migration, replay_participant, migration_snapshot, participant_snapshot,
}
use data_lineage_fix_agent.State.Replay.Faithful.{replay_faithful}
use data_lineage_fix_agent.Examples.{preparing, armed, committing, now}
use data_lineage_fix_agent.State.Migrations as M
use data_lineage_fix_agent.State.Tables.{MigrationRecord}
use data_lineage_fix_agent.Models.Status.{ParticipantStatus}
use data_lineage_fix_agent.Examples.{move, step, sha_a, intent, opening}
use data_lineage_fix_agent.State.Calls.{Call, move_participant}
use data_lineage_fix_agent.State.Evolution.{Evolves, perform-Evolves}
use data_lineage_fix_agent.State.History.{lost_update_refused, version_bounded}
use data_lineage_fix_agent.Prelude.{List, [], ◌∷◌, ok, err, state_conflict, ◌≤◌}
use data_lineage_fix_agent.Models.Text.{
  char_count, prefix, is_commit_sha, is_sha256, is_base_sha, is_identifier, has_text,
}
use data_lineage_fix_agent.Models.Status.{
  same_status, same_participant_status, same_kind, same_receipt_kind, status_value, kind_value,
  participant_status_value, phase_value, kind_of_value, participant_status_of_value, phase_of_value,
  allowed_migration_transitions, allowed_participant_transitions, can_transition,
  can_transition_participant,
}
use data_lineage_fix_agent.Models.Participants.{new}
use data_lineage_fix_agent.State.Tables.{
  find_migration, find_participant, participants_of, order_by_id, migration_matches,
  participant_matches, update_where, max_sequence, has_event, append_event, set_item,
  write_transaction,
}
use data_lineage_fix_agent.State.Migrations.{
  row_of, insert_participant, insert_participants, new_migration, create_body, create_migration,
  get_migration, publication_gate_armed, abort_cleanup_reserved, expect_migration, arm_body,
  arm_publication_gate, reserve_body, reserve_abort_cleanup, check_move, move_payload, is_prepared,
  is_committable, supplied_shas, check_target, update_migration, migration_rowcount, move_body,
  transition_migration, is_settled, abort_row, abort_step, abort_participants, abort_body,
  abort_migration,
}
use data_lineage_fix_agent.State.Participants.{
  join_participant, is_terminal, next_sha, next_value, update_participant, participant_rowcount,
  transition_participant, participant_from_row, get_participant, from_rows, list_participants,
}
use data_lineage_fix_agent.State.Participants as P
use data_lineage_fix_agent.State.Approvals.{
  expected_mapping, same_approval, approval_body, record_approval,
}
use data_lineage_fix_agent.State.Calls.{perform, perform_all}

-- Everything that a run computes with.
unfoldable pub runs : Unit {0}
unfolding char_count prefix is_commit_sha is_sha256 is_base_sha is_identifier has_text same_status
    same_participant_status same_kind same_receipt_kind status_value kind_value
    participant_status_value phase_value kind_of_value participant_status_of_value phase_of_value
    allowed_migration_transitions allowed_participant_transitions can_transition
    can_transition_participant new find_migration find_participant participants_of order_by_id
    migration_matches participant_matches update_where max_sequence has_event append_event set_item
    write_transaction row_of insert_participant insert_participants new_migration create_body
    create_migration get_migration publication_gate_armed abort_cleanup_reserved expect_migration
    arm_body arm_publication_gate reserve_body reserve_abort_cleanup check_move move_payload
    is_prepared is_committable supplied_shas check_target update_migration migration_rowcount
    move_body transition_migration is_settled abort_row abort_step abort_participants abort_body
    abort_migration join_participant is_terminal next_sha next_value update_participant
    participant_rowcount transition_participant participant_from_row get_participant from_rows
    list_participants P.move_body expected_mapping same_approval approval_body record_approval
    perform perform_all
runs = tt

ne_text : (s t : String) → (s == t) ≡ false → s ≢ t
ne_text s t h e = ground (arith, eq_iff s t)

changed_open : IsOpenType "MIGRATION_STATE_CHANGED"
changed_open = (ne_text _ _ refl, ne_text _ _ refl)

participant_open : IsOpenType "PARTICIPANT_STATE_CHANGED"
participant_open = (ne_text _ _ refl, ne_text _ _ refl)

armed-IsPermitted : All IsPermitted armed
armed-IsPermitted =
    (tt, (changed_open, (participant_open, (participant_open, (changed_open, (tt, tt))))))

armed_is_armed : is_armed "ltx-1" (perform_all armed empty) ≡ true
unfolding runs
armed_is_armed = refl

-- A run that commits: the migration stands at COMMITTED, version 3.
committing_commits :
    migration_snapshot "ltx-1" (perform_all committing empty) ≡ some (MigrationStatus.committed, 3)
unfolding runs migration_snapshot
committing_commits = refl

gate_excludes_abort_example :
    (is_reserved "ltx-1" (perform_all armed empty) ≡ false)
    × IsHeld "ltx-1" (perform_all armed empty)
gate_excludes_abort_example = gate_excludes_abort "ltx-1" armed armed-IsPermitted armed_is_armed

replay_faithful_example :
    ((id : String)
      → replay_migration id (perform_all committing empty).events
        ≡ migration_snapshot id (perform_all committing empty))
    × ((id : String)
        → replay_participant id (perform_all committing empty).events
          ≡ participant_snapshot id (perform_all committing empty))
replay_faithful_example = replay_faithful committing

-- Two writers that both read PREPARING at version 1, and a participant's step in between.
abbrev pausing : M.Move
pausing = move MigrationStatus.preparing MigrationStatus.needs_approval 1 []

abbrev finishing : M.Move
finishing = move MigrationStatus.preparing MigrationStatus.prepared 1 []

abbrev between : List Call
between =
    move_participant "c1"
      (step ParticipantStatus.preparing ParticipantStatus.verified 1 (some sha_a))
    ∷ []

abbrev paused : MigrationRecord
paused = record {
  intent = intent;
  status = MigrationStatus.needs_approval;
  version = 2;
  created_at = now;
  updated_at = now;
}

pausing_wins : (transition_migration "ltx-1" pausing (perform_all opening empty)).0 ≡ ok paused
unfolding runs
pausing_wins = refl

finishing_checked : check_move "ltx-1" finishing ≡ ok tt
unfolding runs
finishing_checked = refl

lost_update_refused_example :
    let u =
      perform_all between (transition_migration "ltx-1" pausing (perform_all opening empty)).1 in
    transition_migration "ltx-1" finishing u ≡ (err state_conflict, u)
lost_update_refused_example =
    lost_update_refused "ltx-1" pausing finishing (perform_all opening empty) paused between
      pausing_wins refl finishing_checked

perform-Evolves_example :
    Evolves "ltx-1"
      (perform_all preparing empty)
      (perform (arm "ltx-1" 2 now) (perform_all preparing empty))
perform-Evolves_example = perform-Evolves "ltx-1" (arm "ltx-1" 2 now) (perform_all preparing empty)

abbrev released : MigrationRecord
released = record {
  intent = intent;
  status = MigrationStatus.committed;
  version = 3;
  created_at = now;
  updated_at = now;
}

committed_record : find_migration "ltx-1" (perform_all committing empty).migrations ≡ some released
unfolding runs
committed_record = refl

version_bounded_example : 3 ≤ 4
version_bounded_example = version_bounded "ltx-1" committing released committed_record

log_append_only_example :
    (new : List StateEvent) × ((perform_all committing empty).events ≡ empty.events ++ new)
log_append_only_example = log_append_only committing empty

terminal_row_final_example :
    find_migration "ltx-1" (perform_all armed (perform_all committing empty)).migrations
    ≡ some released
unfolding runs
terminal_row_final_example =
    terminal_row_final "ltx-1" released armed (perform_all committing empty) refl committed_record
