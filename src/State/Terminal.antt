-- ===== src/State/Terminal.antt =====
-- lineagetx/state.py: COMMITTED and ABORTED are final.
use data_lineage_fix_agent.Prelude.{
  String, ◌≡◌, ◌≢◌, refl, sym, ◌∙◌, inl, inr, true, some, List, [], ◌∷◌, arith, ◌==◌, subst, ok, ap,
  Option-cases, ℕ, Bool, false,
}
use data_lineage_fix_agent.Models.Status.{MigrationStatus, can_transition, aborted}
use data_lineage_fix_agent.State.Tables.{
  participants_of, order_by_id, MigrationRecord, Store, find_migration, append_event,
}
use data_lineage_fix_agent.State.Tables.Queries.{
  find-append, find-append_event, find-update_ne, find-update_self, found-id,
}
use data_lineage_fix_agent.State.Participants.{is_terminal}
use data_lineage_fix_agent.Models.Receipts.{AbortCleanupReceipt}
use data_lineage_fix_agent.State.Migrations.{
  expect_migration, transition_migration, abort_body, abort_migration,
}
use data_lineage_fix_agent.State.Migrations as M
use data_lineage_fix_agent.State.Changes.MigrationSteps.{
  write_transaction-ok, transition_migration-check, transition_migration-checked,
}
use data_lineage_fix_agent.State.Calls.{
  Call, create, arm, reserve, move_migration, abort, move_participant, approve, perform,
  perform_all,
}
use data_lineage_fix_agent.State.Changes.{Effect, mark_aborted}
use data_lineage_fix_agent.State.Changes.Inversion.{perform-Effect}
use data_lineage_fix_agent.State.Gate.Quiet.{loop-IsQuiet, find-mark_aborted}

-- The table of transitions leads nowhere from a terminal status.
terminal_stays : (a b : MigrationStatus) → is_terminal a ≡ true → can_transition a b ≡ true → ⊥
unfolding is_terminal can_transition
terminal_stays a b h c = ground arith

module _ (id : String) (row : MigrationRecord) (terminal : is_terminal row.status ≡ true) where
  -- A step that a row allows is not one of this row.
  other_row :
      (k : String) (x : MigrationRecord) (target : MigrationStatus) (s : Store)
      → find_migration id s.migrations ≡ some row
      → find_migration k s.migrations ≡ some x
      → can_transition x.status target ≡ true
      → id ≢ k
  other_row k x target s found other allowed same = terminal_stays row.status target terminal (
      ground (
        arith,
        found,
        allowed,
        subst (λ j. find_migration j s.migrations ≡ some x) (sym same) other,
      ))

  Effect-terminal :
      (c : Call) (s t : Store)
      → Effect c s t
      → find_migration id s.migrations ≡ some row
      → find_migration id t.migrations ≡ some row
  Effect-terminal (create intent ps) s t h found =
      rw h.after (find-append_event _ _ _ _ _ _ _ _ _ id ∙ rw (find-append, found) refl)
  Effect-terminal (arm k v now) s t h found =
      rw h.after (find-append_event _ _ _ _ _ _ _ _ _ id ∙ found)
  Effect-terminal (reserve k status v now) s t h found =
      rw h.after (find-append_event _ _ _ _ _ _ _ _ _ id ∙ found)
  Effect-terminal (move_migration k m) s t h found = rw h.after (
      find-append_event _ _ _ _ _ _ _ _ _ id
      ∙ find-update_ne k id s.migrations h.row m.target m.now
          (found-id k s.migrations h.row h.found)
          (other_row k h.row m.target s found h.found h.allowed)
      ∙ found)
  Effect-terminal (abort k receipt status v now) s t h found =
      (loop-IsQuiet id k now (mark_aborted k h.row receipt now s) t _ h.after).1
      ∙ find-mark_aborted id k now h.row receipt s (found-id k s.migrations h.row h.found)
          (other_row k h.row aborted s found h.found h.allowed)
      ∙ found
  Effect-terminal (move_participant k m) s t h found =
      rw h.after (find-append_event _ _ _ _ _ _ _ _ _ id ∙ found)
  Effect-terminal (approve receipt) s t h found =
      rw h.after (find-append_event _ _ _ _ _ _ _ _ _ id ∙ found)

  pub perform-terminal :
      (c : Call) (s : Store)
      → find_migration id s.migrations ≡ some row
      → find_migration id (perform c s).migrations ≡ some row
  perform-terminal c s found = elim (perform-Effect c s) [
    | inl kept ↦ rw kept found
    | inr step ↦ Effect-terminal c s (perform c s) step found
  ]

-- COMMITTED and ABORTED are final: whatever calls are made of the store afterwards, returning or
-- raising, the row of a migration that is there with a terminal status stays what it is, its version
-- and its time stamps included.
pub terminal_row_final :
    (id : String) (row : MigrationRecord) (cs : List Call) (s : Store)
    → is_terminal row.status ≡ true
    → find_migration id s.migrations ≡ some row
    → find_migration id (perform_all cs s).migrations ≡ some row
unfolding perform_all
terminal_row_final id row [] s terminal found = found
terminal_row_final id row (c ∷ cs) s terminal found =
    terminal_row_final id row cs (perform c s) terminal (perform-terminal id row terminal c s found)

module _ (id : String) (m : M.Move) (s : Store) (r : MigrationRecord) where
  move_body-row :
      (t : Store)
      → M.move_body id m s ≡ ok (r, t)
      → (find_migration id t.migrations ≡ some r) × (r.status ≡ m.target)
  unfolding M.move_body expect_migration append_event
  move_body-row t h = elim (Option-cases (find_migration id s.migrations)) [
    | inl e ↦ absurd (ground arith)
    | inr (row, found) ↦
        (ground (arith, find-update_self id s.migrations row m.target m.now found), ground arith)
  ]

  -- What `transition_migration` returns is what is on record.
  pub transition_migration-row :
      (transition_migration id m s).0 ≡ ok r
      → (find_migration id (transition_migration id m s).1.migrations ≡ some r)
        × (r.status ≡ m.target)
  transition_migration-row h =
      let checked = transition_migration-check id m s r h in
      let same = transition_migration-checked id m s checked in
      let done = write_transaction-ok (M.move_body id m) s r (ap (λ x. x.0) (sym same) ∙ h) in
      rw (same) (move_body-row _ done)

module _ (id : String) (receipt : AbortCleanupReceipt) (status : MigrationStatus) (v : ℕ)
    (now : String) (s : Store) (r : MigrationRecord) where
  abort_body-row :
      (t : Store)
      → abort_body id receipt status v now s ≡ ok (r, t)
      → (find_migration id t.migrations ≡ some r) × (r.status ≡ aborted)
  unfolding abort_body expect_migration mark_aborted append_event
  abort_body-row t h = elim (Option-cases (find_migration id s.migrations)) [
    | inl e ↦ absurd (ground arith)
    | inr (row, found) ↦ (
      (loop-IsQuiet id id now (mark_aborted id row receipt now s) t
            (order_by_id (participants_of id s.participants)) (ground arith)).1
          ∙ find-update_self id s.migrations row aborted now found
          ∙ ground arith,
      ground arith,
    )
  ]

  -- What `abort_migration` returns is what is on record, and it has taken a receipt without errors.
  pub abort_migration-row :
      (abort_migration id receipt status v now s).0 ≡ ok r
      → (find_migration id (abort_migration id receipt status v now s).1.migrations ≡ some r)
        × (r.status ≡ aborted)
        × (receipt.cleanup_errors ≡ [])
  unfolding abort_migration
  abort_migration-row h = go (receipt.migration_id == id) receipt.cleanup_errors refl refl
    where
      go :
          (test : Bool) (errors : List String)
          → (receipt.migration_id == id) ≡ test
          → receipt.cleanup_errors ≡ errors
          → (find_migration id (abort_migration id receipt status v now s).1.migrations ≡ some r)
            × (r.status ≡ aborted)
            × (receipt.cleanup_errors ≡ [])
      go false errors e f = absurd (ground arith)
      go true (_ ∷ _) e f = absurd (ground arith)
      go true [] e f =
          let done = write_transaction-ok (abort_body id receipt status v now) s r (ground arith) in
          let (found, at) = abort_body-row _ done in (rw (e, f) found, at, f)
