-- ===== src/State/Participants.antt =====
-- lineagetx/state.py: `SQLiteStateStore.transition_participant` and the queries on participants.
use data_lineage_fix_agent.Prelude.{
  ℕ, ◌+◌, String, Bool, ◌&&◌, ◌||◌, not, Option, none, some, List, [], ◌∷◌, Result, ok,
  migration_not_found, participant_not_found, state_conflict, illegal_state_transition,
  verification_guard_failed, parent_migration_terminal, ◌>>=◌, ◌>>◌, guard, require, ◌==◌, ◌=ℕ◌,
  count_where,
}
use data_lineage_fix_agent.Models.Text.{is_commit_sha}
use data_lineage_fix_agent.Models.Status.{
  MigrationStatus, ParticipantStatus, same_status, same_participant_status,
  can_transition_participant,
}
use data_lineage_fix_agent.Models.Participants.{Participant, new}
use data_lineage_fix_agent.State.Tables.{
  MigrationRecord, ParticipantRow, of_participant, Payload, Store, find_migration, find_participant,
  participants_of, order_by_id, participant_matches, update_where, append_event, write_transaction,
}

-- The keyword arguments of `transition_participant`, and `utc_now()`.
pub record Move : Type 0 where
  pub target : ParticipantStatus
  pub expected_status : ParticipantStatus
  pub expected_version : ℕ
  pub event_type : String
  pub payload : Payload
  pub candidate_commit_sha : Option String
  pub evidence_links : Option (List String)
  pub now : String

-- The row of a participant, joined with the status of its migration.
pub record Joined : Type 0 where
  pub row : ParticipantRow
  pub migration : MigrationRecord

-- participants AS p JOIN migrations AS m ON m.migration_id = p.migration_id WHERE p.participant_id = ?
unfoldable pub join_participant : String → Store → Option Joined
join_participant id s = elim (find_participant id s.participants) [
  | none ↦ none
  | some p ↦ elim (find_migration p.migration_id s.migrations) [
    | none ↦ none
    | some m ↦ some (record { row = p; migration = m })
  ]
]

unfoldable pub is_terminal : MigrationStatus → Bool
is_terminal status =
    same_status status MigrationStatus.committed || same_status status MigrationStatus.aborted

-- `value["candidate_commit_sha"]` after the argument has been looked at.
unfoldable pub next_sha : Option String → String → Result String
next_sha none old = ok old
next_sha (some sha) old = do
  guard (sha == "" || is_commit_sha sha) verification_guard_failed
  ok sha

abbrev or_else {ℓ} : {A : Type ℓ} → Option A → A → A
or_else none d = d
or_else (some a) d = a

-- The JSON value that is written back.
unfoldable pub next_value : Move → ParticipantRow → String → Participant
next_value m row sha = record row.participant_json {
  candidate_commit_sha = sha;
  evidence_links = or_else m.evidence_links row.participant_json.evidence_links;
  status = m.target;
  updated_at = m.now;
  version = row.version + 1;
}

unfoldable pub update_participant :
    ParticipantRow → Participant → List ParticipantRow → List ParticipantRow
unfolding participant_matches
update_participant row value =
    update_where (participant_matches row.participant_id row.status row.version) (λ p. record p {
      participant_json = value;
      status = value.status;
      version = value.version;
      updated_at = value.updated_at;
    })

unfoldable pub participant_rowcount : ParticipantRow → List ParticipantRow → ℕ
unfolding participant_matches
participant_rowcount row =
    count_where (participant_matches row.participant_id row.status row.version)

unfoldable pub move_body : String → Move → Store → Result (Participant × Store)
move_body id m s = do
  joined ← require (join_participant id s) participant_not_found
  guard (not (is_terminal joined.migration.status)) parent_migration_terminal
  let row = joined.row
  guard (same_participant_status row.status m.expected_status && row.version =ℕ m.expected_version)
      state_conflict
  guard (can_transition_participant row.status m.target) illegal_state_transition
  sha ← next_sha m.candidate_commit_sha row.participant_json.candidate_commit_sha
  guard (not (same_participant_status m.target ParticipantStatus.verified) || is_commit_sha sha)
      verification_guard_failed
  guard (participant_rowcount row s.participants =ℕ 1) state_conflict
  let value = next_value m row sha
  participant ← new value
  ok (
    participant,
    append_event row.migration_id id m.event_type (some (of_participant row.status))
        (of_participant m.target) (row.version + 1) m.payload m.now
        (record s { participants = update_participant row value s.participants }),
  )

unfoldable pub transition_participant : String → Move → Store → Result Participant × Store
unfolding write_transaction
transition_participant id m = write_transaction (move_body id m)

-- `_participant_from_row`: the columns over the JSON value.
unfoldable pub participant_from_row : ParticipantRow → Result Participant
participant_from_row row = new (record row.participant_json {
  status = row.status;
  version = row.version;
  updated_at = row.updated_at;
})

unfoldable pub get_participant : String → Store → Result Participant
unfolding participant_from_row
get_participant id s = do
  row ← require (find_participant id s.participants) participant_not_found
  participant_from_row row

unfoldable pub from_rows : List ParticipantRow → Result (List Participant)
unfolding participant_from_row
from_rows [] = ok []
from_rows (row ∷ rows) = do p ← participant_from_row row; ps ← from_rows rows; ok (p ∷ ps)

unfoldable pub list_participants : String → Store → Result (List Participant)
unfolding from_rows
list_participants id s = do
  require (find_migration id s.migrations) migration_not_found
  from_rows (order_by_id (participants_of id s.participants))
