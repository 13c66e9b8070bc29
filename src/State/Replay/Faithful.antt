-- ===== src/State/Replay/Faithful.antt =====
-- lineagetx/state.py: replaying the log gives the tables, for every sequence of calls.
pub mod Events
use data_lineage_fix_agent.Models.Receipts.{ApprovalReceipt}
use data_lineage_fix_agent.State.Participants.{next_value, update_participant}
use data_lineage_fix_agent.State.Changes.Invariants.{perform_all-always}
use data_lineage_fix_agent.State.Participants as P
use data_lineage_fix_agent.Models.Participants.{Participant}
use data_lineage_fix_agent.Models.Intent.{ChangeIntent}
use data_lineage_fix_agent.Prelude.{
  eq_refl, ℕ, ◌+◌, String, ◌≡◌, ◌≢◌, refl, sym, ap, subst, ◌∙◌, inl, inr, true, false, Option, none,
  some, List, [], ◌∷◌, ◌++◌, ok, arith, eq_iff, eq_of_==, ◌==◌, Bool-cases, Option-cases,
}
use data_lineage_fix_agent.Models.Status.{detected, MigrationStatus, ParticipantStatus, aborted}
use data_lineage_fix_agent.State.Tables.{
  MigrationRecord, ParticipantRow, Status, of_migration, of_participant, Payload, Store, empty,
  find_migration, find_participant, append_event, participant_matches, update_where,
}
use data_lineage_fix_agent.State.Tables.Queries.{
  find-append, find-update_self, find-update_ne, found-id, found-participant_id,
  find_participant-update_self, find_participant-update_ne, find-append_event,
  participants-append_event,
}
use data_lineage_fix_agent.State.Tables.Unique.{
  HasUniqueIds, ids-update, found_of_count, IsInserted, insert_participants-IsInserted,
}
use data_lineage_fix_agent.State.Replay.{
  snapshot_participant, snapshot_migration, replay_migration, replay_participant,
  migration_snapshot, participant_snapshot, replay_migration-event,
  replay_participant-migration_event, replay_migration-participant_event, replay_participant-event,
}
use data_lineage_fix_agent.State.AbortLoop.{abort_participants-keeps, matching}
use data_lineage_fix_agent.State.Changes.{
  Effect, mark_aborted, IsCreated, IsParticipantMoved, IsApproved,
}
use data_lineage_fix_agent.State.Migrations.{
  abort_participants, abort_step, abort_row, update_migration, new_migration,
}
use data_lineage_fix_agent.State.Calls.{
  approve, move_participant, abort, move_migration, reserve, arm, create, Call, perform_all,
}
use data_lineage_fix_agent.State.Replay.Faithful.Events.{
  migration_event, participant_event, found_named, participant_update, IsReplayed,
}

module _ (s : Store) (x : IsReplayed s) where
  new_other :
      (intent : ChangeIntent) (j : String)
      → j ≢ intent.migration_id
      → find_migration j (s.migrations ++ new_migration intent ∷ []) ≡ find_migration j s.migrations
  unfolding new_migration
  new_other intent j ne =
      ground
        (arith, find-append j s.migrations (new_migration intent), eq_iff intent.migration_id j)

  created :
      (intent : ChangeIntent) (ps : List Participant) (t : Store)
      → IsCreated intent ps s t
      → IsReplayed t
  created intent ps t h =
      let ins = insert_participants-IsInserted ps s.participants h.rows h.inserted in
      rw h.after (
        migration_event intent.migration_id _ _ detected 0 _ _ s _ h.rows
          (rw (find-append, h.absent)
            (unfold new_migration in ground (arith, eq_refl intent.migration_id)))
          (λ j ne. new_other intent j ne) (λ j. same j h.rows ins) (ins.unique x.unique)
          (ins.named x.named) x)
    where
      same :
          (j : String) (rows : List ParticipantRow)
          → IsInserted s.participants rows
          → snapshot_participant (find_participant j rows)
            ≡ snapshot_participant (find_participant j s.participants)
      same j rows ins = elim (Option-cases (find_participant j s.participants)) [
        | inl n ↦ elim (Option-cases (find_participant j rows)) [
          | inl n' ↦ rw (n, n') refl
          | inr (p, f) ↦ let (st, v) = ins.fresh j p n f in rw (n, f) (cc (st, v))
        ]
        | inr (p, f) ↦ rw (f, ins.kept j p f) refl
      ]

  -- An event that says of a migration what its row says already.
  restated :
      (k ty : String) (p : Payload) (now : String) (row : MigrationRecord)
      → find_migration k s.migrations ≡ some row
      → IsReplayed (
          append_event k "" ty
            (some (of_migration row.status))
            (of_migration row.status)
            row.version
            p
            now
            s)
  restated k ty p now row found =
      migration_event k ty _ row.status row.version p now s s.migrations s.participants
        (ap snapshot_migration found) (λ _ _. refl) (λ _. refl) x.unique x.named x

  updated :
      (k ty : String) (p : Payload) (now : String) (row : MigrationRecord) (to : MigrationStatus)
      → find_migration k s.migrations ≡ some row
      → IsReplayed (
          append_event k "" ty
            (some (of_migration row.status))
            (of_migration to)
            (row.version + 1)
            p
            now
            (record s { migrations = update_migration row to now s.migrations }))
  updated k ty p now row to found =
      migration_event k ty _ to (row.version + 1) p now s (update_migration row to now s.migrations)
        s.participants (ap snapshot_migration (find-update_self k s.migrations row to now found))
        (λ j ne. find-update_ne k j s.migrations row to now (found-id k s.migrations row found) ne)
        (λ _. refl) x.unique x.named x

loop_step :
    (id now : String) (p : ParticipantRow) (s : Store)
    → matching p s ≡ true
    → IsReplayed s
    → IsReplayed (abort_step id now p s)
unfolding abort_step
loop_step id now p s one x =
    let (q, found, st, v) =
      found_of_count p.participant_id p.status p.version s.participants x.unique one in
    participant_update id p.participant_id _ p.status ParticipantStatus.aborted p.version _ now s q
      (abort_row p now) (λ r. unfold abort_row in refl) found st v (unfold abort_row in refl)
      (unfold abort_row in refl) x

-- The rounds of the ABORT loop.
aborted_all :
    (id now : String) (ps : List ParticipantRow) (s t : Store)
    → IsReplayed s
    → abort_participants id now ps s ≡ ok t
    → IsReplayed t
aborted_all id now =
    abort_participants-keeps IsReplayed id now (λ p s _ one x. loop_step id now p s one x)

moved_participant :
    (id : String) (m : P.Move) (s t : Store)
    → IsReplayed s
    → IsParticipantMoved id m s t
    → IsReplayed t
moved_participant id m s t x h =
    let same = found-participant_id id s.participants h.row h.found in
    rw h.after (
      unfold update_participant in
      rw same (
        participant_update h.row.migration_id id m.event_type h.row.status m.target h.row.version
          m.payload m.now s h.row _ (λ q. refl) h.found refl refl (unfold next_value in refl)
          (unfold next_value in refl) x))

approved :
    (receipt : ApprovalReceipt) (s t : Store) → IsReplayed s → IsApproved receipt s t → IsReplayed t
approved receipt s t x h = rw h.after (
    participant_event _ receipt.participant_id _ _ h.row.status h.row.version _ _ s _ refl refl
      (ap snapshot_participant h.found) (found_named s receipt.participant_id h.row x.named h.found)
      (λ _ _. refl) x.unique x.named x)

Effect-IsReplayed : (c : Call) (s t : Store) → Effect c s t → IsReplayed s → IsReplayed t
Effect-IsReplayed (create intent ps) s t h x = created s x intent ps t h
Effect-IsReplayed (arm k v now) s t h x = rw h.after (restated s x k _ _ now h.row h.found)
Effect-IsReplayed (reserve k status v now) s t h x =
    rw h.after (restated s x k _ _ now h.row h.found)
Effect-IsReplayed (move_migration k m) s t h x =
    rw h.after (updated s x k m.event_type _ m.now h.row m.target h.found)
Effect-IsReplayed (abort k receipt status v now) s t h x =
    aborted_all k now _ (mark_aborted k h.row receipt now s) t
      (unfold mark_aborted in updated s x k _ _ now h.row aborted h.found) h.after
Effect-IsReplayed (move_participant k m) s t h x = moved_participant k m s t x h
Effect-IsReplayed (approve receipt) s t h x = approved receipt s t x h

-- After any calls on a new store, replaying the event log gives exactly what the tables
-- say: for each migration whether it is on record, and its status and version; for each participant
-- its status and version, a participant without an event of its own standing at DISCOVERED and 0.
pub replay_faithful :
    (cs : List Call)
    → ((id : String)
        → replay_migration id (perform_all cs empty).events
          ≡ migration_snapshot id (perform_all cs empty))
      × ((id : String)
          → replay_participant id (perform_all cs empty).events
            ≡ participant_snapshot id (perform_all cs empty))
replay_faithful cs =
    let x = perform_all-always IsReplayed Effect-IsReplayed cs empty start in
    (x.migrations, x.participants)
  where
    start : IsReplayed empty
    start =
        unfold replay_migration replay_participant migration_snapshot participant_snapshot
          find_migration find_participant in
        record { migrations = λ _. refl; participants = λ _. refl; unique = refl; named = refl }
