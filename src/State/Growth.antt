-- ===== src/State/Growth.antt =====
-- lineagetx/state.py: the event log under the operations.
use data_lineage_fix_agent.Prelude.{
  String, ◌≡◌, refl, sym, ap, ◌∙◌, Bool, true, inl, inr, List, [], ◌∷◌, ◌++◌, ok, any, arith,
}
use mathlib.Core.List.{append_assoc, append-nil}
use data_lineage_fix_agent.State.Tables.{StateEvent, Store, ParticipantRow, has_event, append_event}
use data_lineage_fix_agent.State.Migrations as M
use data_lineage_fix_agent.State.Calls.{
  Call, create, arm, reserve, move_migration, abort, move_participant, approve, perform,
  perform_all,
}
use data_lineage_fix_agent.State.Changes.{Effect, mark_aborted}
use data_lineage_fix_agent.State.Changes.Inversion.{perform-Effect}
use data_lineage_fix_agent.State.AbortLoop.{abort_participants-keeps}

-- The log of the second store goes on from that of the first.
abbrev pub Extends : Store → Store → Type 0
Extends s t = (new : List StateEvent) × (t.events ≡ s.events ++ new)

Extends-trans : (s t u : Store) → Extends s t → Extends t u → Extends s u
Extends-trans s t u (a, e) (b, f) = (a ++ b, f ∙ ap (λ l. l ++ b) e ∙ append_assoc s.events a b)

loop-Extends :
    (k now : String) (ps : List ParticipantRow) (u t : Store)
    → M.abort_participants k now ps u ≡ ok t
    → Extends u t
unfolding M.abort_step append_event
loop-Extends k now ps u t =
    abort_participants-keeps (Extends u) k now
      (λ p x _ _ h. Extends-trans u x (M.abort_step k now p x) h (_, refl)) ps u t
      ([], sym (append-nil u.events))

Effect-Extends : (c : Call) (s t : Store) → Effect c s t → Extends s t
unfolding append_event mark_aborted
Effect-Extends (create intent ps) s t h = rw h.after (_, refl)
Effect-Extends (arm k v now) s t h = rw h.after (_, refl)
Effect-Extends (reserve k status v now) s t h = rw h.after (_, refl)
Effect-Extends (move_migration k m) s t h = rw h.after (_, refl)
Effect-Extends (abort k receipt status v now) s t h =
    Extends-trans s (mark_aborted k h.row receipt now s) t (_, refl)
      (loop-Extends k now _ _ t h.after)
Effect-Extends (move_participant k m) s t h = rw h.after (_, refl)
Effect-Extends (approve r) s t h = rw h.after (_, refl)

perform-Extends : (c : Call) (s : Store) → Extends s (perform c s)
perform-Extends c s = elim (perform-Effect c s) [
  | inl kept ↦ rw kept ([], sym (append-nil s.events))
  | inr step ↦ Effect-Extends c s (perform c s) step
]

-- The event log is append-only: whatever calls are made, returning or raising, the log afterwards is
-- the log before with events added at its end.
pub log_append_only :
    (cs : List Call) (s : Store)
    → (new : List StateEvent) × ((perform_all cs s).events ≡ s.events ++ new)
unfolding perform_all
log_append_only [] s = ([], sym (append-nil s.events))
log_append_only (c ∷ cs) s =
    Extends-trans s (perform c s) (perform_all cs (perform c s)) (perform-Extends c s)
      (log_append_only cs (perform c s))

any-append_left :
    (test : StateEvent → Bool) (xs ys : List StateEvent)
    → any test xs ≡ true
    → any test (xs ++ ys) ≡ true
any-append_left test [] ys h = absurd (ground arith)
any-append_left test (x ∷ xs) ys h = ground (arith, any-append_left test xs ys)

-- What the log has once it has for ever.
pub has_event-perform :
    (id wanted : String) (c : Call) (s : Store)
    → has_event id wanted s.events ≡ true
    → has_event id wanted (perform c s).events ≡ true
unfolding has_event
has_event-perform id wanted c s h =
    let grown = perform-Extends c s in rw (grown.1) (any-append_left _ s.events grown.0 h)
