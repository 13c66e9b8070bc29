-- ===== src/State/Evolution.antt =====
-- lineagetx/state.py: what one call, and any number of calls, can do to a migration's record.
use data_lineage_fix_agent.Models.Participants.{Participant}
use data_lineage_fix_agent.Models.Intent.{ChangeIntent}
use data_lineage_fix_agent.State.Migrations as M
use data_lineage_fix_agent.Prelude.{
  ◌+◌, String, ◌≡◌, refl, ap, subst, ◌∙◌, inl, inr, true, none, some, List, [], ◌∷◌, ◌++◌, ok,
  arith, eq_iff, eq_of_==, ◌==◌, Bool-cases,
}
use data_lineage_fix_agent.Models.Status.{MigrationStatus, detected, can_transition, aborted}
use data_lineage_fix_agent.State.Tables.{MigrationRecord, Store, find_migration}
use data_lineage_fix_agent.State.Tables.Queries.{
  find-append, find-update_self, find-update_ne, found-id, find-append_event,
}
use data_lineage_fix_agent.State.Migrations.{update_migration, new_migration}
use data_lineage_fix_agent.State.Calls.{
  Call, create, arm, reserve, move_migration, abort, move_participant, approve, perform,
}
use data_lineage_fix_agent.State.Changes.{IsCreated, Effect, mark_aborted}
use data_lineage_fix_agent.State.Changes.Inversion.{perform-Effect}
use data_lineage_fix_agent.State.AbortLoop.{abort_participants-keeps, migrations-abort_step}

-- The record is as it was, or is new, or has made one transition of the table.
pub data Evolves (id : String) (s t : Store) : Type 0 where
  same : find_migration id t.migrations ≡ find_migration id s.migrations → Evolves id s t
  begun :
      (r : MigrationRecord)
      → find_migration id s.migrations ≡ none
      → find_migration id t.migrations ≡ some r
      → r.status ≡ detected
      → r.version ≡ 0
      → Evolves id s t
  stepped :
      (q r : MigrationRecord)
      → find_migration id s.migrations ≡ some q
      → find_migration id t.migrations ≡ some r
      → can_transition q.status r.status ≡ true
      → r.version ≡ q.version + 1
      → r.intent ≡ q.intent
      → Evolves id s t

module _ (id : String) (s : Store) where
  updated :
      (k : String) (row : MigrationRecord) (to : MigrationStatus) (now : String) (t : Store)
      → find_migration k s.migrations ≡ some row
      → can_transition row.status to ≡ true
      → find_migration id t.migrations
        ≡ find_migration id (update_migration row to now s.migrations)
      → Evolves id s t
  updated k row to now t found allowed after = elim (Bool-cases (k == id)) [
    | inl e ↦
        let here = subst (λ j. find_migration j s.migrations ≡ some row) (eq_of_== k id e) found in
        stepped row _ here (after ∙ find-update_self id s.migrations row to now here) allowed refl
          refl
    | inr ne ↦ same (
        after
        ∙ find-update_ne k id s.migrations row to now (found-id k s.migrations row found)
            (λ e. ground (arith, eq_iff k id)))
  ]

  loop_same :
      (k now : String) (ps : List _) (u t : Store)
      → M.abort_participants k now ps u ≡ ok t
      → find_migration id t.migrations ≡ find_migration id u.migrations
  loop_same k now ps u t =
      abort_participants-keeps
        (λ x. find_migration id x.migrations ≡ find_migration id u.migrations) k now
        (λ p x _ _ e. ap (find_migration id) (migrations-abort_step k now p x) ∙ e) ps u t refl

  created :
      (intent : ChangeIntent) (ps : List Participant) (t : Store)
      → IsCreated intent ps s t
      → Evolves id s t
  created intent ps t h =
      let after : find_migration id t.migrations
          ≡ find_migration id (s.migrations ++ new_migration intent ∷ []) =
        rw h.after (find-append_event _ _ _ _ _ _ _ _ _ id) in
      let added = find-append id s.migrations (new_migration intent) in
      elim (Bool-cases (intent.migration_id == id)) [
        | inl e ↦
            let absent =
              subst (λ j. find_migration j s.migrations ≡ none) (eq_of_== _ id e) h.absent in
            begun (new_migration intent) absent
              (after ∙ added ∙ (unfold new_migration in ground (arith, absent, e)))
              (unfold new_migration in refl) (unfold new_migration in refl)
        | inr ne ↦ same (after ∙ added ∙ (unfold new_migration in ground (arith, ne)))
      ]

  Effect-Evolves : (c : Call) (t : Store) → Effect c s t → Evolves id s t
  Effect-Evolves (create intent ps) t h = created intent ps t h
  Effect-Evolves (arm k v now) t h = same (rw h.after (find-append_event _ _ _ _ _ _ _ _ _ id))
  Effect-Evolves (reserve k status v now) t h =
      same (rw h.after (find-append_event _ _ _ _ _ _ _ _ _ id))
  Effect-Evolves (move_migration k m) t h =
      updated k h.row m.target m.now t h.found h.allowed
        (rw h.after (find-append_event _ _ _ _ _ _ _ _ _ id))
  Effect-Evolves (abort k receipt status v now) t h =
      updated k h.row aborted now t h.found h.allowed (
        loop_same k now _ (mark_aborted k h.row receipt now s) t h.after
        ∙ (unfold mark_aborted in find-append_event _ _ _ _ _ _ _ _ _ id))
  Effect-Evolves (move_participant k m) t h =
      same (rw h.after (find-append_event _ _ _ _ _ _ _ _ _ id))
  Effect-Evolves (approve receipt) t h = same (rw h.after (find-append_event _ _ _ _ _ _ _ _ _ id))

-- Whatever call is made, returning or raising, the record of a migration is as it was, or is new at
-- DETECTED and version 0, or has made exactly one transition of the table, with its version one
-- higher and its intent unchanged.
pub perform-Evolves : (id : String) (c : Call) (s : Store) → Evolves id s (perform c s)
perform-Evolves id c s = elim (perform-Effect c s) [
  | inl kept ↦ same (ap (λ u. find_migration id u.migrations) kept)
  | inr step ↦ Effect-Evolves id s c (perform c s) step
]
