-- ===== src/State/Tables.antt =====
-- lineagetx/state.py: the four tables, and one function for each SQL statement on them. A row holds
-- the values that its JSON column encodes. The clock's answers (`utc_now()`) are arguments.
pub mod Queries
pub mod Unique
use data_lineage_fix_agent.Prelude.{
  ℕ, ◌+◌, String, Bool, ◌&&◌, Option, none, some, List, [], ◌∷◌, ◌++◌, Result, ok, err, ◌==◌, ◌=ℕ◌,
  str_leb, if◌then◌else◌, any, filter, max,
}
use data_lineage_fix_agent.Models.Runtime.{Scalar}
use data_lineage_fix_agent.Models.Status.{
  MigrationStatus, ParticipantStatus, same_status, same_participant_status,
}
use data_lineage_fix_agent.Models.Intent.{ChangeIntent}
use data_lineage_fix_agent.Models.Participants.{Participant}
use data_lineage_fix_agent.Models.Receipts.{
  CoordinationReceipt, ApprovalReceipt, AbortCleanupReceipt,
}

-- A row of `migrations`; also `MigrationRecord`, whose identifier is that of its intent.
pub record MigrationRecord : Type 0 where
  pub intent : ChangeIntent
  pub status : MigrationStatus
  pub version : ℕ
  pub created_at : String
  pub updated_at : String

abbrev pub migration_id_of : MigrationRecord → String
migration_id_of r = r.intent.migration_id

-- A row of `participants`. `participant_json` has a status, a version and a time of its own.
pub record ParticipantRow : Type 0 where
  pub participant_id : String
  pub migration_id : String
  pub participant_json : Participant
  pub status : ParticipantStatus
  pub version : ℕ
  pub created_at : String
  pub updated_at : String

pub data Status : Type 0 where
  of_migration : MigrationStatus → Status
  of_participant : ParticipantStatus → Status

-- The values in an event's payload.
pub data PayloadValue : Type 0 where
  plain : Scalar → PayloadValue
  coordination_receipts : List CoordinationReceipt → PayloadValue
  cleanup_receipt : AbortCleanupReceipt → PayloadValue
  approval_receipt : ApprovalReceipt → PayloadValue

abbrev pub Payload : Type 0
Payload = List (String × PayloadValue)

-- A row of `events`; also `StateEvent`. `participant_id` is NULL for an event of the migration.
pub record StateEvent : Type 0 where
  pub migration_id : String
  pub sequence : ℕ
  pub participant_id : Option String
  pub event_type : String
  pub from_status : Option Status
  pub to_status : Status
  pub version : ℕ
  pub payload : Payload
  pub created_at : String

-- `events` is in the order of `event_id`.
pub record Store : Type 0 where
  pub migrations : List MigrationRecord
  pub participants : List ParticipantRow
  pub approvals : List ApprovalReceipt
  pub events : List StateEvent

abbrev pub empty : Store
empty = record { migrations = []; participants = []; approvals = []; events = [] }

abbrev pub gate_armed_event : String
gate_armed_event = "PRODUCER_GATE_RELEASE_ARMED"

abbrev pub abort_reserved_event : String
abort_reserved_event = "ABORT_CLEANUP_RESERVED"

-- SELECT * FROM migrations WHERE migration_id = ?
unfoldable pub find_migration : String → List MigrationRecord → Option MigrationRecord
find_migration id [] = none
find_migration id (r ∷ rs) = if migration_id_of r == id then some r else find_migration id rs

-- SELECT * FROM participants WHERE participant_id = ?
unfoldable pub find_participant : String → List ParticipantRow → Option ParticipantRow
find_participant id [] = none
find_participant id (p ∷ ps) = if p.participant_id == id then some p else find_participant id ps

-- SELECT * FROM participants WHERE migration_id = ?
unfoldable pub participants_of : String → List ParticipantRow → List ParticipantRow
participants_of id = filter (λ p. p.migration_id == id)

insert_row : ParticipantRow → List ParticipantRow → List ParticipantRow
insert_row p [] = p ∷ []
insert_row p (q ∷ qs) =
    if str_leb p.participant_id q.participant_id then p ∷ q ∷ qs else q ∷ insert_row p qs

-- ORDER BY participant_id
unfoldable pub order_by_id : List ParticipantRow → List ParticipantRow
unfolding insert_row
order_by_id [] = []
order_by_id (p ∷ ps) = insert_row p (order_by_id ps)

-- The WHERE clause of the UPDATE of a migration.
unfoldable pub migration_matches : String → MigrationStatus → ℕ → MigrationRecord → Bool
migration_matches id status version r =
    migration_id_of r == id && same_status r.status status && r.version =ℕ version

unfoldable pub participant_matches : String → ParticipantStatus → ℕ → ParticipantRow → Bool
participant_matches id status version p =
    p.participant_id == id && same_participant_status p.status status && p.version =ℕ version

-- UPDATE … WHERE …, row by row; the cursor's `rowcount` is `count_where` of the same test.
unfoldable pub update_where {ℓ} : {A : Type ℓ} → (A → Bool) → (A → A) → List A → List A
update_where test f [] = []
update_where test f (x ∷ xs) =
    let rest = update_where test f xs in (if test x then f x else x) ∷ rest

-- SELECT COALESCE(MAX(sequence), 0) FROM events WHERE migration_id = ?
unfoldable pub max_sequence : String → List StateEvent → ℕ
max_sequence id [] = 0
max_sequence id (e ∷ es) =
    let rest = max_sequence id es in if e.migration_id == id then max e.sequence rest else rest

-- SELECT 1 FROM events WHERE migration_id = ? AND event_type = ?
unfoldable pub has_event : String → String → List StateEvent → Bool
has_event id event_type = any (λ e. e.migration_id == id && e.event_type == event_type)

-- `participant_id or None`
abbrev pub or_null : String → Option String
or_null s = if s == "" then none else some s

-- `_append_event`: all but the sequence is given.
unfoldable pub append_event :
    String → String → String → Option Status → Status → ℕ → Payload → String → Store → Store
append_event migration_id participant_id event_type from_status to_status version payload created_at
      s =
    record s {
      events =
          s.events
          ++ record {
            migration_id = migration_id;
            sequence = max_sequence migration_id s.events + 1;
            participant_id = or_null participant_id;
            event_type = event_type;
            from_status = from_status;
            to_status = to_status;
            version = version;
            payload = payload;
            created_at = created_at;
          }
            ∷ [];
    }

-- `event_payload[key] = value`
unfoldable pub set_item : String → PayloadValue → Payload → Payload
set_item key v [] = (key, v) ∷ []
set_item key v ((k, w) ∷ rest) = if k == key then (k, v) ∷ rest else (k, w) ∷ set_item key v rest

-- `_write_transaction`: COMMIT what the body has done, or ROLLBACK and raise.
unfoldable pub write_transaction {ℓ} :
    {A : Type ℓ} → (Store → Result (A × Store)) → Store → Result A × Store
write_transaction body s = elim (body s) [ ok (a, s') ↦ (ok a, s') | err e ↦ (err e, s) ]
