-- ===== src/State/Tables/Queries.antt =====
-- lineagetx/state.py: what the SQL queries answer after an INSERT or an UPDATE.
use data_lineage_fix_agent.Prelude.{
  ℕ, ◌+◌, String, ◌≡◌, ◌≢◌, refl, ◌&&◌, ◌||◌, Option, none, some, List, [], ◌∷◌, ◌++◌, arith,
  eq_iff, ◌==◌, if◌then◌else◌,
}
use data_lineage_fix_agent.Models.Status.{
  MigrationStatus, ParticipantStatus, same_status_refl, same_participant_status_refl,
}
use data_lineage_fix_agent.State.Tables.{
  MigrationRecord, ParticipantRow, StateEvent, Status, Payload, Store, find_migration,
  find_participant, migration_matches, participant_matches, update_where, has_event, append_event,
}
use data_lineage_fix_agent.State.Migrations.{update_migration}

pub found-id :
    (id : String) (rows : List MigrationRecord) (row : MigrationRecord)
    → find_migration id rows ≡ some row
    → row.intent.migration_id ≡ id
unfolding find_migration
found-id id [] row h = absurd (ground arith)
found-id id (r ∷ rs) row h = ground (arith, eq_iff r.intent.migration_id id, found-id id rs row)

pub find-append :
    (id : String) (rows : List MigrationRecord) (r : MigrationRecord)
    → find_migration id (rows ++ r ∷ []) ≡ elim (find_migration id rows) [
      | some x ↦ some x
      | none ↦ if r.intent.migration_id == id then some r else none
    ]
unfolding find_migration
find-append id [] r = refl
find-append id (x ∷ xs) r = ground (arith, find-append id xs r)

-- The row of `id` after the UPDATE, where the row of the updated migration was found as `row`.
pub find-update_self :
    (id : String) (rows : List MigrationRecord) (row : MigrationRecord) (target : MigrationStatus)
    (now : String)
    → find_migration id rows ≡ some row
    → find_migration id (update_migration row target now rows)
      ≡ some (record row { status = target; version = row.version + 1; updated_at = now })
unfolding find_migration update_migration update_where migration_matches
find-update_self id [] row target now h = absurd (ground arith)
find-update_self id (r ∷ rs) row target now h = ground (
  arith,
  eq_iff r.intent.migration_id id,
  eq_iff r.intent.migration_id row.intent.migration_id,
  same_status_refl row.status,
  found-id id (r ∷ rs) row h,
  find-update_self id rs row target now,
)

pub find-update_ne :
    (id k : String) (rows : List MigrationRecord) (row : MigrationRecord) (target : MigrationStatus)
    (now : String)
    → row.intent.migration_id ≡ id
    → k ≢ id
    → find_migration k (update_migration row target now rows) ≡ find_migration k rows
unfolding find_migration update_migration update_where migration_matches
find-update_ne id k [] row target now e ne = refl
find-update_ne id k (r ∷ rs) row target now e ne = ground (
  arith,
  eq_iff r.intent.migration_id k,
  eq_iff r.intent.migration_id row.intent.migration_id,
  find-update_ne id k rs row target now e ne,
)

pub has_event-append :
    (id ty : String) (es : List StateEvent) (e : StateEvent)
    → has_event id ty (es ++ e ∷ [])
      ≡ has_event id ty es || (e.migration_id == id && e.event_type == ty)
unfolding has_event
has_event-append id ty [] e = ground arith
has_event-append id ty (x ∷ xs) e = ground (arith, has_event-append id ty xs e)

module _ (id : String) where
  pub found-participant_id :
      (rows : List ParticipantRow) (row : ParticipantRow)
      → find_participant id rows ≡ some row
      → row.participant_id ≡ id
  unfolding find_participant
  found-participant_id [] row h = absurd (ground arith)
  found-participant_id (r ∷ rs) row h =
      ground (arith, eq_iff r.participant_id id, found-participant_id rs row)

  pub find_participant-append :
      (rows : List ParticipantRow) (r : ParticipantRow)
      → find_participant id (rows ++ r ∷ []) ≡ elim (find_participant id rows) [
        | some x ↦ some x
        | none ↦ if r.participant_id == id then some r else none
      ]
  unfolding find_participant
  find_participant-append [] r = refl
  find_participant-append (x ∷ xs) r = ground (arith, find_participant-append xs r)

module _ (f : ParticipantRow → ParticipantRow)
    (keeps : (q : ParticipantRow) → (f q).participant_id ≡ q.participant_id) where
  -- The row of `id` after an UPDATE that matches the row that was found.
  pub find_participant-update_self :
      (id : String) (status : ParticipantStatus) (version : ℕ) (rows : List ParticipantRow)
      (row : ParticipantRow)
      → find_participant id rows ≡ some row
      → row.status ≡ status
      → row.version ≡ version
      → find_participant id (update_where (participant_matches id status version) f rows)
        ≡ some (f row)
  unfolding find_participant update_where participant_matches
  find_participant-update_self id status version [] row h st v = absurd (ground arith)
  find_participant-update_self id status version (r ∷ rs) row h st v = ground (
    arith,
    keeps r,
    eq_iff r.participant_id id,
    same_participant_status_refl status,
    find_participant-update_self id status version rs row,
  )

  pub find_participant-update_ne :
      (id k : String) (status : ParticipantStatus) (version : ℕ) (rows : List ParticipantRow)
      → k ≢ id
      → find_participant k (update_where (participant_matches id status version) f rows)
        ≡ find_participant k rows
  unfolding find_participant update_where participant_matches
  find_participant-update_ne id k status version [] ne = refl
  find_participant-update_ne id k status version (r ∷ rs) ne = ground (
    arith,
    keeps r,
    eq_iff r.participant_id id,
    eq_iff r.participant_id k,
    find_participant-update_ne id k status version rs ne,
  )

pub has_event-append_event :
    (id ty k pid ty' : String) (from : Option Status) (to : Status) (v : ℕ) (p : Payload)
    (now : String) (s : Store)
    → has_event id ty (append_event k pid ty' from to v p now s).events
      ≡ has_event id ty s.events || (k == id && ty' == ty)
unfolding append_event
has_event-append_event id ty k pid ty' from to v p now s = rw has_event-append

module _ (k pid ty : String) (from : Option Status) (to : Status) (v : ℕ) (p : Payload)
    (now : String) (s : Store) where
  -- An event is no row of another table.
  pub find-append_event :
      (id : String)
      → find_migration id (append_event k pid ty from to v p now s).migrations
        ≡ find_migration id s.migrations
  unfolding append_event
  find-append_event id = refl

  pub participants-append_event :
      (append_event k pid ty from to v p now s).participants ≡ s.participants
  unfolding append_event
  participants-append_event = refl

  pub approvals-append_event : (append_event k pid ty from to v p now s).approvals ≡ s.approvals
  unfolding append_event
  approvals-append_event = refl
