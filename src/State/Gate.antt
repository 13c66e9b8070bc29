-- ===== src/State/Gate.antt =====
-- lineagetx/state.py: the two orders that must never both win, ABORT cleanup and the release of the
-- Producer gate.
pub mod Quiet
use data_lineage_fix_agent.Models.Receipts.{AbortCleanupReceipt}
use data_lineage_fix_agent.Models.Intent.{ChangeIntent}
use data_lineage_fix_agent.Prelude.{
  subst, ap, sym, ◌∙◌, ℕ, String, refl, sym, ap, ◌∙◌, subst, ◌≡◌, ◌≢◌, ◌⊎◌, inl, inr, Bool, true,
  false, Option, some, List, ok, arith, eq_iff, ==-ne, eq_of_==, ◌==◌, Bool-cases, All,
}
use data_lineage_fix_agent.Models.Status.{
  same_status, MigrationStatus, prepared, committed, aborted, can_transition,
}
use data_lineage_fix_agent.State.Tables.{
  ParticipantRow, MigrationRecord, Store, empty, Status, Payload, find_migration, has_event,
  append_event, gate_armed_event, abort_reserved_event,
}
use data_lineage_fix_agent.State.Tables.Queries.{
  find-append_event, find-append, find-update_self, find-update_ne, has_event-append_event,
  found-id,
}
use data_lineage_fix_agent.State.Migrations.{
  abort_step, abort_participants, new_migration, check_move,
}
use data_lineage_fix_agent.State.Calls.{
  Call, create, arm, reserve, move_migration, abort, move_participant, approve, perform_all,
  IsPermitted, IsOpenType,
}
use data_lineage_fix_agent.State.Migrations as M
use data_lineage_fix_agent.State.Changes.{
  Effect, mark_aborted, IsCreated, IsArmed, IsReserved, IsMoved, IsAborted,
}
use data_lineage_fix_agent.State.Changes.Invariants.{perform_all-keeps}
use data_lineage_fix_agent.State.AbortLoop.{abort_participants-keeps, migrations-abort_step}
use data_lineage_fix_agent.Models.Participants.{Participant}
use data_lineage_fix_agent.State.Gate.Quiet.{
  IsExclusive-quiet, IsHeld-keeps, has_event-open, IsQuiet-append, held_moves, check_move-target,
  literal_ne, literal_open, loop-IsQuiet, abort-IsQuiet, find-mark_aborted, is_armed, is_reserved,
  IsHeld, IsExclusive, IsQuiet,
}

module _ (id : String) (s t : Store) (x : IsExclusive id s) where
  created :
      (intent : ChangeIntent) (ps : List Participant) → IsCreated intent ps s t → IsExclusive id t
  created intent ps h = rw h.after (
      IsExclusive-quiet id s _
        (IsQuiet-append id _ _ _ _ _ _ _ _ s _ refl (inl (literal_open _ refl refl)))
        (λ _ held. record {
          row = held.row;
          found = find-append_event _ _ _ _ _ _ _ _ _ id ∙ rw (find-append, held.found) refl;
          status = held.status;
        })
        x)

  -- A step of another migration that keeps this one's row.
  other_case :
      (k : String)
      → k ≢ id
      → (pid ty : String) (from : Option Status) (to : Status) (v : ℕ) (p : Payload) (now : String)
        (u : Store)
      → u.events ≡ s.events
      → find_migration id u.migrations ≡ find_migration id s.migrations
      → IsExclusive id (append_event k pid ty from to v p now u)
  other_case k ne pid ty from to v p now u same row =
      IsExclusive-quiet id s _ (IsQuiet-append id k pid ty from to v p now s u same (inr ne))
        (λ _. IsHeld-keeps id s _ (find-append_event k pid ty from to v p now u id ∙ row)) x

  armed_case : (k : String) (v : ℕ) (now : String) → IsArmed k v now s t → IsExclusive id t
  armed_case k v now h = elim (Bool-cases (k == id)) [
    | inl e ↦
        let same = eq_of_== k id e in
        rw h.after record {
          apart = λ _.
              has_event-open id abort_reserved_event k _ _ _ _ _ _ _ s (inl (literal_ne _ _ refl))
              ∙ subst (λ j. has_event j abort_reserved_event s.events ≡ false) same h.unreserved;
          held = λ _. record {
            row = h.row;
            found =
                find-append_event _ _ _ _ _ _ _ _ _ id
                ∙ subst (λ j. find_migration j s.migrations ≡ some h.row) same h.found;
            status = inl h.expected;
          };
        }
    | inr ne ↦
        rw h.after (other_case k (λ e. ground (arith, eq_iff k id)) _ _ _ _ _ _ _ s refl refl)
  ]

  moved_case :
      (k : String) (m : M.Move) → IsOpenType m.event_type → IsMoved k m s t → IsExclusive id t
  moved_case k m open_type h = elim (Bool-cases (k == id)) [
    | inl e ↦
        let same = eq_of_== k id e in
        rw h.after (
          IsExclusive-quiet id s _ (IsQuiet-append id k _ _ _ _ _ _ _ s _ refl (inl open_type))
            (λ _ held. record {
              row = _;
              found =
                  find-append_event _ _ _ _ _ _ _ _ _ id
                  ∙ find-update_self id s.migrations h.row m.target m.now
                      (subst (λ j. find_migration j s.migrations ≡ some h.row) same h.found);
              status =
                  held_moves id h.row.status m.target
                    (ground (
                      arith,
                      held.found,
                      subst (λ j. find_migration j s.migrations ≡ some h.row) same h.found,
                      held.status,
                    ))
                    h.allowed (check_move-target k m h.checked);
            })
            x)
    | inr ne ↦ rw h.after (
        other_case k (λ e. ground (arith, eq_iff k id)) _ _ _ _ _ _ _ _ refl
          (find-update_ne k id s.migrations h.row m.target m.now
            (found-id k s.migrations h.row h.found) (λ e. ground (arith, eq_iff k id))))
  ]

  aborted_case :
      (k : String) (receipt : AbortCleanupReceipt) (status : MigrationStatus) (v : ℕ) (now : String)
      → IsAborted k receipt status v now s t
      → IsExclusive id t
  aborted_case k receipt status v now h =
      let q = abort-IsQuiet id k now h.row receipt s t _ h.after in
      elim (Bool-cases (k == id)) [
        | inl e ↦
            let unarmed =
              subst (λ j. has_event j gate_armed_event s.events ≡ false) (eq_of_== k id e)
                h.unarmed in
            record {
              apart = λ a. absurd (ground (arith, q.armed, unarmed));
              held = λ a. absurd (ground (arith, q.armed, unarmed));
            }
        | inr ne ↦
            IsExclusive-quiet id s t q
              (λ _. IsHeld-keeps id s t (
                (loop-IsQuiet id k now (mark_aborted k h.row receipt now s) t _ h.after).1
                ∙ find-mark_aborted id k now h.row receipt s (found-id k s.migrations h.row h.found)
                    (λ e. ground (arith, eq_iff k id))))
              x
      ]

  reserved_case :
      (k : String) (status : MigrationStatus) (v : ℕ) (now : String)
      → IsReserved k status v now s t
      → IsExclusive id t
  reserved_case k status v now h = elim (Bool-cases (k == id)) [
    | inl e ↦
        let unarmed : is_armed id t ≡ false = rw h.after (
          has_event-open id gate_armed_event k _ _ _ _ _ _ now s (inl (literal_ne _ _ refl))
          ∙ subst (λ j. has_event j gate_armed_event s.events ≡ false) (eq_of_== k id e)
              h.unarmed) in
        record {
          apart = λ a. absurd (ground (arith, unarmed));
          held = λ a. absurd (ground (arith, unarmed));
        }
    | inr ne ↦
        rw h.after (other_case k (λ e. ground (arith, eq_iff k id)) _ _ _ _ _ _ _ s refl refl)
  ]

-- Every permitted call keeps the exclusion.
pub Effect-IsExclusive :
    (id : String) (c : Call) (s t : Store)
    → IsPermitted c
    → Effect c s t
    → IsExclusive id s
    → IsExclusive id t
Effect-IsExclusive id (create intent ps) s t permitted h x = created id s t x intent ps h
Effect-IsExclusive id (arm k v now) s t permitted h x = armed_case id s t x k v now h
Effect-IsExclusive id (reserve k status v now) s t permitted h x =
    reserved_case id s t x k status v now h
Effect-IsExclusive id (move_migration k m) s t permitted h x = moved_case id s t x k m permitted h
Effect-IsExclusive id (abort k receipt status v now) s t permitted h x =
    aborted_case id s t x k receipt status v now h
Effect-IsExclusive id (move_participant k m) s t permitted h x = rw h.after (
    IsExclusive-quiet id s _ (IsQuiet-append id _ _ _ _ _ _ _ _ s _ refl (inl permitted))
      (λ _. IsHeld-keeps id s _ (find-append_event _ _ _ _ _ _ _ _ _ id)) x)
Effect-IsExclusive id (approve receipt) s t permitted h x = rw h.after (
    IsExclusive-quiet id s _
      (IsQuiet-append id _ _ _ _ _ _ _ _ s _ refl (inl (literal_open _ refl refl)))
      (λ _. IsHeld-keeps id s _ (find-append_event _ _ _ _ _ _ _ _ _ id)) x)

-- Whatever calls clients make of a new store, in whatever order, with event types of their own that
-- are none of the two reserved ones: a migration whose Producer gate release is armed has no ABORT
-- cleanup reserved, is on record, and stands at PREPARED or COMMITTED, so it is never ABORTED.
pub gate_excludes_abort :
    (id : String) (cs : List Call)
    → All IsPermitted cs
    → is_armed id (perform_all cs empty) ≡ true
    → (is_reserved id (perform_all cs empty) ≡ false) × IsHeld id (perform_all cs empty)
gate_excludes_abort id cs permitted armed =
    let x = perform_all-keeps (IsExclusive id) (Effect-IsExclusive id) cs empty permitted (
      unfold has_event in
      record { apart = λ a. absurd (ground arith); held = λ a. absurd (ground arith) }) in
    (x.apart armed, x.held armed)
