-- ===== src/State/Migrations.antt =====
-- lineagetx/state.py: the operations of `SQLiteStateStore` on migrations. An operation takes its
-- keyword arguments as a record, with the clock's answer, and gives its result and the store.
use data_lineage_fix_agent.Prelude.{
  ℕ, ◌+◌, String, Bool, true, false, ◌&&◌, ◌||◌, not, Option, none, some, List, [], ◌∷◌, ◌++◌, map,
  Result, ok, err, value_error, integrity_error, migration_not_found, migration_already_exists,
  state_conflict, illegal_state_transition, preparation_guard_failed, commit_guard_failed,
  abort_cleanup_failed, publication_reconciliation_required, ◌>>=◌, ◌>>◌, guard, require, ◌==◌,
  ◌=ℕ◌, if◌then◌else◌, any, all, distinct, subset, filter, count_where,
}
use data_lineage_fix_agent.Models.Runtime.{texts, flag, text}
use data_lineage_fix_agent.Models.Text.{is_commit_sha}
use data_lineage_fix_agent.Models.Status.{
  MigrationStatus, detected, prepared, committed, aborted, ParticipantStatus, discovered, verified,
  CoordinationReceiptKind, candidate_commit, coordinated_pr, producer_gate_released, same_status,
  same_participant_status, same_receipt_kind, can_transition,
}
use data_lineage_fix_agent.Models.Intent.{ChangeIntent}
use data_lineage_fix_agent.Models.Participants.{Participant, new}
use data_lineage_fix_agent.Models.Receipts.{CoordinationReceipt, AbortCleanupReceipt}
use data_lineage_fix_agent.State.Tables.{
  MigrationRecord, ParticipantRow, of_migration, of_participant, Payload, plain,
  coordination_receipts, cleanup_receipt, Store, gate_armed_event, abort_reserved_event,
  find_migration, find_participant, participants_of, order_by_id, migration_matches,
  participant_matches, update_where, has_event, append_event, set_item, write_transaction,
}

-- The row that `create_migration` inserts for a participant: a fresh copy, DISCOVERED at version 0.
pub initial_participant : Participant → Result Participant
initial_participant p = new (record p { status = discovered; version = 0 })

unfoldable pub row_of : Participant → ParticipantRow
row_of p = record {
  participant_id = p.participant_id;
  migration_id = p.migration_id;
  participant_json = p;
  status = p.status;
  version = 0;
  created_at = p.created_at;
  updated_at = p.updated_at;
}

abbrev is_absent {ℓ} : {A : Type ℓ} → Option A → Bool
is_absent none = true
is_absent (some _) = false

-- INSERT INTO participants, whose primary key is `participant_id`.
unfoldable pub insert_participant : Participant → List ParticipantRow → Result (List ParticipantRow)
unfolding initial_participant
insert_participant p rows = do
  initial ← initial_participant p
  guard (is_absent (find_participant initial.participant_id rows)) integrity_error
  ok (rows ++ row_of initial ∷ [])

unfoldable pub insert_participants :
    List Participant → List ParticipantRow → Result (List ParticipantRow)
insert_participants [] rows = ok rows
insert_participants (p ∷ ps) rows = do
  rows' ← insert_participant p rows
  insert_participants ps rows'

unfoldable pub new_migration : ChangeIntent → MigrationRecord
new_migration intent = record {
  intent = intent;
  status = detected;
  version = 0;
  created_at = intent.created_at;
  updated_at = intent.created_at;
}

unfoldable pub create_body :
    ChangeIntent → List Participant → Store → Result (MigrationRecord × Store)
create_body intent participants s = do
  guard (is_absent (find_migration intent.migration_id s.migrations)) migration_already_exists
  rows ← insert_participants participants s.participants
  ok (
    new_migration intent,
    append_event intent.migration_id "" "MIGRATION_DETECTED" none (of_migration detected) 0
        (("participant_ids", plain (texts (map (λ p. p.participant_id) participants))) ∷ [])
        intent.created_at
        (record s { migrations = s.migrations ++ new_migration intent ∷ []; participants = rows }),
  )

unfoldable pub create_migration :
    ChangeIntent → List Participant → Store → Result MigrationRecord × Store
unfolding write_transaction
create_migration intent participants s =
    if not (all (λ p. p.migration_id == intent.migration_id) participants)
      || not (distinct (map (λ p. p.participant_id) participants))
    then (err value_error, s)
    else write_transaction (create_body intent participants) s

-- `get_migration`
unfoldable pub get_migration : String → Store → Result MigrationRecord
get_migration id s = require (find_migration id s.migrations) migration_not_found

unfoldable pub publication_gate_armed : String → Store → Result Bool
unfolding get_migration
publication_gate_armed id s = do get_migration id s; ok (has_event id gate_armed_event s.events)

unfoldable pub abort_cleanup_reserved : String → Store → Result Bool
unfolding get_migration
abort_cleanup_reserved id s = do get_migration id s; ok (has_event id abort_reserved_event s.events)

-- The row of a migration that the caller knows at this status and version.
unfoldable pub expect_migration : String → MigrationStatus → ℕ → Store → Result MigrationRecord
expect_migration id status version s = do
  row ← require (find_migration id s.migrations) migration_not_found
  guard (same_status row.status status && row.version =ℕ version) state_conflict
  ok row

unfoldable pub arm_body : String → ℕ → String → Store → Result (Unit {0} × Store)
arm_body id expected_version now s = do
  row ← expect_migration id prepared expected_version s
  guard (not (has_event id abort_reserved_event s.events)) publication_reconciliation_required
  ok (
    tt,
    if has_event id gate_armed_event s.events
        then s
        else append_event id "" gate_armed_event (some (of_migration row.status))
            (of_migration row.status) row.version
            (("candidate_cleanup_permitted", plain (flag false))
              ∷ ("recovery", plain (text "reconcile_publication"))
              ∷ [])
            now s,
  )

unfoldable pub arm_publication_gate : String → ℕ → String → Store → Result (Unit {0}) × Store
unfolding write_transaction
arm_publication_gate id expected_version now = write_transaction (arm_body id expected_version now)

unfoldable pub reserve_body :
    String → MigrationStatus → ℕ → String → Store → Result (Unit {0} × Store)
reserve_body id expected_status expected_version now s = do
  row ← expect_migration id expected_status expected_version s
  guard (not (has_event id gate_armed_event s.events)) publication_reconciliation_required
  ok (
    tt,
    if has_event id abort_reserved_event s.events
        then s
        else append_event id "" abort_reserved_event (some (of_migration row.status))
            (of_migration row.status) row.version
            (("scope", plain (text "unmerged_candidate_changes_only")) ∷ []) now s,
  )

unfoldable pub reserve_abort_cleanup :
    String → MigrationStatus → ℕ → String → Store → Result (Unit {0}) × Store
unfolding write_transaction
reserve_abort_cleanup id expected_status expected_version now =
    write_transaction (reserve_body id expected_status expected_version now)

-- The keyword arguments of `transition_migration`, and `utc_now()`.
pub record Move : Type 0 where
  pub target : MigrationStatus
  pub expected_status : MigrationStatus
  pub expected_version : ℕ
  pub event_type : String
  pub payload : Payload
  pub receipts : List CoordinationReceipt
  pub now : String

abbrev pub has_kind : CoordinationReceiptKind → List CoordinationReceipt → Bool
has_kind k = any (λ r. same_receipt_kind r.kind k)

-- What is checked before the transaction begins.
unfoldable pub check_move : String → Move → Result (Unit {0})
check_move id m = do
  guard (not (same_status m.target aborted)) illegal_state_transition
  guard (all (λ r. r.migration_id == id) m.receipts) value_error
  guard
      (not (same_status m.target committed)
        || has_kind candidate_commit m.receipts
          && has_kind coordinated_pr m.receipts
          && has_kind producer_gate_released m.receipts)
      commit_guard_failed

unfoldable pub move_payload : Move → Payload
move_payload m = elim m.receipts [
  | [] ↦ m.payload
  | r ∷ rs ↦ set_item "coordination_receipts" (coordination_receipts (r ∷ rs)) m.payload
]

unfoldable pub is_prepared : ParticipantRow → Bool
is_prepared p =
    same_participant_status p.status verified
    && is_commit_sha p.participant_json.candidate_commit_sha

unfoldable pub is_committable : ParticipantRow → Bool
is_committable p =
    same_participant_status p.status verified
    || same_participant_status p.status ParticipantStatus.committed

unfoldable pub supplied_shas : List CoordinationReceipt → List String
supplied_shas receipts =
    map (λ r. r.commit_sha) (filter (λ r. same_receipt_kind r.kind candidate_commit) receipts)

-- The guard on the participants of the migration, by the target status.
unfoldable pub check_target :
    MigrationStatus → List CoordinationReceipt → List ParticipantRow → Result (Unit {0})
check_target prepared receipts rows = do
  guard (elim rows [ [] ↦ false | _ ∷ _ ↦ true ]) preparation_guard_failed
  guard (all is_prepared rows) preparation_guard_failed
check_target committed receipts rows = do
  guard (all is_committable rows) commit_guard_failed
  guard (subset (map (λ p. p.participant_json.candidate_commit_sha) rows) (supplied_shas receipts))
      commit_guard_failed
check_target _ receipts rows = ok tt

-- UPDATE migrations SET status, version, updated_at WHERE migration_id, status, version
unfoldable pub update_migration :
    MigrationRecord → MigrationStatus → String → List MigrationRecord → List MigrationRecord
unfolding migration_matches
update_migration row target now =
    update_where (migration_matches row.intent.migration_id row.status row.version)
      (λ r. record r { status = target; version = row.version + 1; updated_at = now })

unfoldable pub migration_rowcount : MigrationRecord → List MigrationRecord → ℕ
unfolding migration_matches
migration_rowcount row =
    count_where (migration_matches row.intent.migration_id row.status row.version)

unfoldable pub move_body : String → Move → Store → Result (MigrationRecord × Store)
move_body id m s = do
  row ← expect_migration id m.expected_status m.expected_version s
  guard (can_transition row.status m.target) illegal_state_transition
  check_target m.target m.receipts (order_by_id (participants_of id s.participants))
  guard (migration_rowcount row s.migrations =ℕ 1) state_conflict
  ok (
    record row { status = m.target; version = row.version + 1; updated_at = m.now },
    append_event id "" m.event_type (some (of_migration row.status)) (of_migration m.target)
        (row.version + 1) (move_payload m) m.now
        (record s { migrations = update_migration row m.target m.now s.migrations }),
  )

unfoldable pub transition_migration : String → Move → Store → Result MigrationRecord × Store
unfolding write_transaction
transition_migration id m s = elim (check_move id m) [
  | ok _ ↦ write_transaction (move_body id m) s
  | err e ↦ (err e, s)
]

-- Whether ABORT leaves the participant as it is.
unfoldable pub is_settled : ParticipantStatus → Bool
is_settled status =
    same_participant_status status ParticipantStatus.committed
    || same_participant_status status ParticipantStatus.aborted

-- UPDATE participants SET participant_json, status, version, updated_at WHERE …
unfoldable pub abort_row : ParticipantRow → String → ParticipantRow → ParticipantRow
abort_row p now q = record q {
  participant_json = record p.participant_json {
    status = ParticipantStatus.aborted;
    updated_at = now;
    version = p.version + 1;
  };
  status = ParticipantStatus.aborted;
  version = p.version + 1;
  updated_at = now;
}

-- One round of the loop for a participant that is not settled: the UPDATE and the event.
unfoldable pub abort_step : String → String → ParticipantRow → Store → Store
unfolding participant_matches abort_row
abort_step id now p s =
    append_event id p.participant_id "PARTICIPANT_ABORTED_WITH_MIGRATION"
      (some (of_participant p.status)) (of_participant ParticipantStatus.aborted) (p.version + 1)
      (("cleanup_scope", plain (text "unmerged_candidate_changes_only")) ∷ []) now
      (record s {
        participants =
            update_where (participant_matches p.participant_id p.status p.version) (abort_row p now)
              s.participants;
      })

-- The loop of `abort_migration` over the participants of the migration.
unfoldable pub abort_participants : String → String → List ParticipantRow → Store → Result Store
unfolding participant_matches
abort_participants id now [] s = ok s
abort_participants id now (p ∷ ps) s =
    let matching =
      count_where (participant_matches p.participant_id p.status p.version) s.participants in
    elim (is_settled p.status) [
      | true ↦ abort_participants id now ps s
      | false ↦ elim (matching =ℕ 1) [
        | true ↦ abort_participants id now ps (abort_step id now p s)
        | false ↦ err state_conflict
      ]
    ]

unfoldable pub abort_body :
    String
    → AbortCleanupReceipt
    → MigrationStatus
    → ℕ
    → String
    → Store
    → Result (MigrationRecord × Store)
abort_body id receipt expected_status expected_version now s = do
  row ← expect_migration id expected_status expected_version s
  guard (not (has_event id gate_armed_event s.events)) publication_reconciliation_required
  guard (can_transition row.status aborted) illegal_state_transition
  guard (migration_rowcount row s.migrations =ℕ 1) state_conflict
  s' ← abort_participants id now (order_by_id (participants_of id s.participants)) (
      append_event id "" "MIGRATION_ABORTED" (some (of_migration row.status)) (of_migration aborted)
        (row.version + 1) (("cleanup", cleanup_receipt receipt) ∷ []) now
        (record s { migrations = update_migration row aborted now s.migrations }))
  ok (record row { status = aborted; version = row.version + 1; updated_at = now }, s')

unfoldable pub abort_migration :
    String
    → AbortCleanupReceipt
    → MigrationStatus
    → ℕ
    → String
    → Store
    → Result MigrationRecord × Store
unfolding write_transaction
abort_migration id receipt expected_status expected_version now s =
    if not (receipt.migration_id == id) then (err value_error, s) else elim receipt.cleanup_errors [
      | _ ∷ _ ↦ (err abort_cleanup_failed, s)
      | [] ↦ write_transaction (abort_body id receipt expected_status expected_version now) s
    ]
