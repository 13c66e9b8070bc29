-- ===== src/State/Replay/Faithful/Events.antt =====
-- lineagetx/state.py: one event and the update of its row, on the log and on the tables.
use data_lineage_fix_agent.Prelude.{
  ℕ, ◌+◌, String, ◌≡◌, ◌≢◌, refl, sym, ap, subst, ◌∙◌, inl, inr, false, Option, none, some, List,
  arith, eq_iff, eq_of_==, ◌==◌, Bool-cases,
}
use data_lineage_fix_agent.Models.Status.{MigrationStatus, ParticipantStatus}
use data_lineage_fix_agent.State.Tables.{
  MigrationRecord, ParticipantRow, Status, of_migration, of_participant, Payload, Store,
  find_migration, find_participant, append_event, participant_matches, update_where,
}
use data_lineage_fix_agent.State.Tables.Queries.{
  find_participant-update_self, find_participant-update_ne, find-append_event,
  participants-append_event,
}
use data_lineage_fix_agent.State.Tables.Unique.{HasUniqueIds, ids-update}
use data_lineage_fix_agent.State.Replay.{
  snapshot_participant, snapshot_migration, replay_migration, replay_participant,
  migration_snapshot, participant_snapshot, replay_migration-event,
  replay_participant-migration_event, replay_migration-participant_event, replay_participant-event,
}

pub record IsReplayed (s : Store) : Type 0 where
  pub migrations : (id : String) → replay_migration id s.events ≡ migration_snapshot id s
  pub participants : (id : String) → replay_participant id s.events ≡ participant_snapshot id s
  pub unique : HasUniqueIds s.participants
  pub named : find_participant "" s.participants ≡ none

-- An event of a migration whose row has, after the step, what the event says.
pub migration_event :
    (k ty : String) (from : Option Status) (to : MigrationStatus) (v : ℕ) (p : Payload)
    (now : String) (s : Store) (ms : List MigrationRecord) (rows : List ParticipantRow)
    → snapshot_migration (find_migration k ms) ≡ some (to, v)
    → ((j : String) → j ≢ k → find_migration j ms ≡ find_migration j s.migrations)
    → ((j : String)
        → snapshot_participant (find_participant j rows)
          ≡ snapshot_participant (find_participant j s.participants))
    → HasUniqueIds rows
    → find_participant "" rows ≡ none
    → IsReplayed s
    → IsReplayed (
        append_event k "" ty from
          (of_migration to)
          v
          p
          now
          (record s { migrations = ms; participants = rows }))
unfolding migration_snapshot participant_snapshot
migration_event k ty from to v p now s ms rows found others same unique named x = record {
  migrations = λ id.
      rw (replay_migration-event, find-append_event)
        (elim (Bool-cases (k == id)) [
          | inl e ↦
              rw e
                (sym found ∙ ap (λ j. snapshot_migration (find_migration j ms)) (eq_of_== k id e))
          | inr ne ↦ rw (ne, others id (λ e. ground (arith, eq_iff k id))) (x.migrations id)
        ]);
  participants = λ id.
      rw (replay_participant-migration_event, participants-append_event)
        (x.participants id ∙ sym (same id));
  unique = rw participants-append_event unique;
  named = rw participants-append_event named;
}

-- An event of a participant whose row has, after the step, what the event says.
pub participant_event :
    (k pid ty : String) (from : Option Status) (to : ParticipantStatus) (v : ℕ) (p : Payload)
    (now : String) (s u : Store)
    → u.events ≡ s.events
    → u.migrations ≡ s.migrations
    → snapshot_participant (find_participant pid u.participants) ≡ (to, v)
    → (pid == "") ≡ false
    → ((j : String)
        → j ≢ pid
        → find_participant j u.participants ≡ find_participant j s.participants)
    → HasUniqueIds u.participants
    → find_participant "" u.participants ≡ none
    → IsReplayed s
    → IsReplayed (append_event k pid ty from (of_participant to) v p now u)
unfolding migration_snapshot participant_snapshot
participant_event k pid ty from to v p now s u events ms found full others unique named x = record {
  migrations = λ id.
      rw (replay_migration-participant_event, find-append_event, events, ms) (x.migrations id);
  participants = λ id.
      rw (replay_participant-event k pid ty from v p now u id to full, participants-append_event)
        (elim (Bool-cases (pid == id)) [
          | inl e ↦ rw e (
              sym found
              ∙ ap (λ j. snapshot_participant (find_participant j u.participants))
                  (eq_of_== pid id e))
          | inr ne ↦
              rw (ne, events, others id (λ e. ground (arith, eq_iff pid id))) (x.participants id)
        ]);
  unique = rw participants-append_event unique;
  named = rw participants-append_event named;
}

-- A participant that is found has a name.
pub found_named :
    (s : Store) (id : String) (p : ParticipantRow)
    → find_participant "" s.participants ≡ none
    → find_participant id s.participants ≡ some p
    → (id == "") ≡ false
found_named s id p named found = elim (Bool-cases (id == "")) [
  | inl e ↦
      let there =
        subst (λ j. find_participant j s.participants ≡ some p) (eq_of_== id "" e) found in
      absurd (ground (arith, there))
  | inr ne ↦ ne
]

-- The UPDATE of the row of `pid` by `f`, with its event.
pub participant_update :
    (k pid ty : String) (status to : ParticipantStatus) (v : ℕ) (p : Payload) (now : String)
    (s : Store) (row : ParticipantRow) (f : ParticipantRow → ParticipantRow)
    → ((q : ParticipantRow) → (f q).participant_id ≡ q.participant_id)
    → find_participant pid s.participants ≡ some row
    → row.status ≡ status
    → row.version ≡ v
    → (f row).status ≡ to
    → (f row).version ≡ v + 1
    → IsReplayed s
    → IsReplayed (
        append_event k pid ty
          (some (of_participant status))
          (of_participant to)
          (v + 1)
          p
          now
          (record s {
            participants = update_where (participant_matches pid status v) f s.participants;
          }))
participant_update k pid ty status to v p now s row f keeps found st vs st' vs' x =
    let others = find_participant-update_ne f keeps pid in
    let self = find_participant-update_self f keeps pid status v s.participants row found st vs in
    let full = found_named s pid row x.named found in
    participant_event k pid ty _ to (v + 1) p now s _ refl refl (rw self (cc (st', vs'))) full
      (λ j ne. others j status v s.participants ne) (rw ids-update x.unique)
      (others "" status v s.participants (λ e. ground (arith, eq_iff pid "")) ∙ x.named) x
