-- ===== src/State/Replay.antt =====
-- lineagetx/state.py: the event log as the specification of the tables. Every mutation is written
-- "in the same transaction" as its event, so the log alone determines every status and version.
pub mod Faithful
use data_lineage_fix_agent.Prelude.{
  ℕ, ◌+◌, String, ◌≡◌, ◌≢◌, refl, sym, ap, subst, ◌∙◌, ◌⊎◌, inl, inr, Bool, true, false, ◌&&◌, ◌||◌,
  Option, none, some, List, [], ◌∷◌, ◌++◌, Result, ok, arith, eq_iff, ==-ne, eq_of_==, ◌==◌,
  Bool-cases, Option-cases, All, distinct, map, elem, if◌then◌else◌, ◌=ℕ◌, count_where,
}
use data_lineage_fix_agent.Models.Status.{
  MigrationStatus, ParticipantStatus, discovered, detected, same_participant_status,
  same_participant_status_eq,
}
use data_lineage_fix_agent.State.Tables.{
  MigrationRecord, ParticipantRow, StateEvent, Status, of_migration, of_participant, Payload, Store,
  empty, find_migration, find_participant, append_event, participant_matches, update_where,
}

-- What an event says of a migration or a participant.
abbrev pub Snapshot : Type 0 → Type 0
Snapshot S = S × ℕ

abbrev is_about : String → Option String → Bool
is_about id none = false
is_about id (some pid) = pid == id

abbrev is_null : Option String → Bool
is_null none = true
is_null (some _) = false

abbrev next_migration :
    Status → ℕ → Option (Snapshot MigrationStatus) → Option (Snapshot MigrationStatus)
next_migration (of_migration status) version old = some (status, version)
next_migration (of_participant _) version old = old

abbrev next_participant : Status → ℕ → Snapshot ParticipantStatus → Snapshot ParticipantStatus
next_participant (of_participant status) version old = (status, version)
next_participant (of_migration _) version old = old

-- One event, and the whole log in its order.
abbrev read_migration :
    String → StateEvent → Option (Snapshot MigrationStatus) → Option (Snapshot MigrationStatus)
read_migration id e old =
    if e.migration_id == id && is_null e.participant_id
    then next_migration e.to_status e.version old
    else old

abbrev read_participant :
    String → StateEvent → Snapshot ParticipantStatus → Snapshot ParticipantStatus
read_participant id e old =
    if is_about id e.participant_id then next_participant e.to_status e.version old else old

replay_migration_from :
    String → Option (Snapshot MigrationStatus) → List StateEvent → Option (Snapshot MigrationStatus)
replay_migration_from id old [] = old
replay_migration_from id old (e ∷ es) = replay_migration_from id (read_migration id e old) es

replay_participant_from :
    String → Snapshot ParticipantStatus → List StateEvent → Snapshot ParticipantStatus
replay_participant_from id old [] = old
replay_participant_from id old (e ∷ es) = replay_participant_from id (read_participant id e old) es

-- `none` for a migration that no event has detected; a participant without an event of its own is as
-- it was discovered.
pub replay_migration : String → List StateEvent → Option (Snapshot MigrationStatus)
unfolding replay_migration_from
replay_migration id = replay_migration_from id none

pub replay_participant : String → List StateEvent → Snapshot ParticipantStatus
unfolding replay_participant_from
replay_participant id = replay_participant_from id (discovered, 0)

-- What the tables say.
abbrev snapshot_migration : Option MigrationRecord → Option (Snapshot MigrationStatus)
snapshot_migration none = none
snapshot_migration (some r) = some (r.status, r.version)

abbrev snapshot_participant : Option ParticipantRow → Snapshot ParticipantStatus
snapshot_participant none = (discovered, 0)
snapshot_participant (some p) = (p.status, p.version)

unfoldable pub migration_snapshot : String → Store → Option (Snapshot MigrationStatus)
migration_snapshot id s = snapshot_migration (find_migration id s.migrations)

unfoldable pub participant_snapshot : String → Store → Snapshot ParticipantStatus
participant_snapshot id s = snapshot_participant (find_participant id s.participants)

replay_migration_from-append :
    (id : String) (old : Option (Snapshot MigrationStatus)) (es : List StateEvent) (e : StateEvent)
    → replay_migration_from id old (es ++ e ∷ [])
      ≡ read_migration id e (replay_migration_from id old es)
unfolding replay_migration_from
replay_migration_from-append id old [] e = refl
replay_migration_from-append id old (x ∷ xs) e =
    replay_migration_from-append id (read_migration id x old) xs e

replay_participant_from-append :
    (id : String) (old : Snapshot ParticipantStatus) (es : List StateEvent) (e : StateEvent)
    → replay_participant_from id old (es ++ e ∷ [])
      ≡ read_participant id e (replay_participant_from id old es)
unfolding replay_participant_from
replay_participant_from-append id old [] e = refl
replay_participant_from-append id old (x ∷ xs) e =
    replay_participant_from-append id (read_participant id x old) xs e

module _ (k pid ty : String) (from : Option Status) (v : ℕ) (p : Payload) (now : String)
    (s : Store) where
  pub replay_migration-event :
      (id : String) (to : MigrationStatus)
      → replay_migration id (append_event k "" ty from (of_migration to) v p now s).events
        ≡ (if k == id then some (to, v) else replay_migration id s.events)
  unfolding replay_migration append_event
  replay_migration-event id to = rw replay_migration_from-append (ground arith)

  pub replay_participant-migration_event :
      (id : String) (to : MigrationStatus)
      → replay_participant id (append_event k "" ty from (of_migration to) v p now s).events
        ≡ replay_participant id s.events
  unfolding replay_participant append_event
  replay_participant-migration_event id to = rw replay_participant_from-append (ground arith)

  pub replay_migration-participant_event :
      (id : String) (to : ParticipantStatus)
      → replay_migration id (append_event k pid ty from (of_participant to) v p now s).events
        ≡ replay_migration id s.events
  unfolding replay_migration append_event
  replay_migration-participant_event id to = rw replay_migration_from-append (ground arith)

  pub replay_participant-event :
      (id : String) (to : ParticipantStatus)
      → (pid == "") ≡ false
      → replay_participant id (append_event k pid ty from (of_participant to) v p now s).events
        ≡ (if pid == id then (to, v) else replay_participant id s.events)
  unfolding replay_participant append_event
  replay_participant-event id to named = rw replay_participant_from-append (ground (arith, named))
