-- ===== src/State/Changes/MigrationSteps.antt =====
-- lineagetx/state.py: an operation on a migration that changes the store makes its step.
use data_lineage_fix_agent.Prelude.{
  Exception, ap, ℕ, String, ◌≡◌, refl, sym, ◌∙◌, ◌⊎◌, inl, inr, Bool, true, false, List, [], ◌∷◌,
  Result, ok, err, arith, Option-cases, Bool-cases, ◌==◌, all, map, distinct,
}
use data_lineage_fix_agent.Models.Status.{MigrationStatus, same_status_eq, prepared}
use data_lineage_fix_agent.Models.Intent.{ChangeIntent}
use data_lineage_fix_agent.Models.Participants.{Participant}
use data_lineage_fix_agent.Models.Receipts.{AbortCleanupReceipt}
use data_lineage_fix_agent.State.Tables.{
  MigrationRecord, Store, find_migration, write_transaction, has_event, gate_armed_event,
  abort_reserved_event,
}
use data_lineage_fix_agent.State.Migrations.{
  expect_migration, transition_migration, check_move, create_migration, create_body, arm_body,
  arm_publication_gate, reserve_body, reserve_abort_cleanup, abort_body, abort_migration,
}
use data_lineage_fix_agent.State.Migrations as M
use data_lineage_fix_agent.State.Changes.{
  IsCreated, IsArmed, IsReserved, IsMoved, IsAborted, mark_aborted,
}

-- A transaction leaves the store as it was, or its body has returned.
write_transaction-cases :
    {A : Type 0} (body : Store → Result (A × Store)) (s : Store)
    → ((write_transaction body s).1 ≡ s)
      ⊎ ((a : A) × (body s ≡ ok (a, (write_transaction body s).1)))
unfolding write_transaction
write_transaction-cases {A} body s = go (body s) refl
  where
    go :
        (r : Result (A × Store))
        → body s ≡ r
        → ((write_transaction body s).1 ≡ s)
          ⊎ ((a : A) × (body s ≡ ok (a, (write_transaction body s).1)))
    go (ok (a, t)) e = inr (a, ground arith)
    go (err x) e = inl (ground arith)

-- So a step follows from what the body does when it returns.
pub from_body :
    {A : Type 0} (P : Store → Store → Type 0) (body : Store → Result (A × Store)) (s : Store)
    → ((a : A) (t : Store) → body s ≡ ok (a, t) → (t ≡ s) ⊎ P s t)
    → ((write_transaction body s).1 ≡ s) ⊎ P s (write_transaction body s).1
from_body P body s step = elim (write_transaction-cases body s) [
  | inl kept ↦ inl kept
  | inr (a, h) ↦ step a _ h
]

move_body-IsMoved :
    (id : String) (m : M.Move) (s t : Store) (r : MigrationRecord)
    → check_move id m ≡ ok tt
    → M.move_body id m s ≡ ok (r, t)
    → IsMoved id m s t
unfolding M.move_body expect_migration
move_body-IsMoved id m s t r c h = elim (Option-cases (find_migration id s.migrations)) [
  | inl e ↦ absurd (ground arith)
  | inr (row, found) ↦ record {
    row = row;
    found = found;
    expected = same_status_eq _ _ (ground arith);
    fresh = ground arith;
    allowed = ground arith;
    checked = c;
    met = ground arith;
    after = ground arith;
  }
]

pub transition_migration-IsMoved :
    (id : String) (m : M.Move) (s : Store)
    → ((transition_migration id m s).1 ≡ s) ⊎ IsMoved id m s (transition_migration id m s).1
transition_migration-IsMoved id m s = go (check_move id m) refl
  where
    go :
        (c : Result (Unit {0}))
        → check_move id m ≡ c
        → ((transition_migration id m s).1 ≡ s) ⊎ IsMoved id m s (transition_migration id m s).1
    go (err e) c = inl (unfold transition_migration in rw (c, transition_migration) refl)
    go (ok u) c =
        unfold transition_migration in
        rw (c, transition_migration)
          (from_body (IsMoved id m) (M.move_body id m) s
            (λ r t h. inr (move_body-IsMoved id m s t r c h)))

pub arm_body-IsArmed :
    (id : String) (version : ℕ) (now : String) (s : Store) (a : Unit {0}) (t : Store)
    → arm_body id version now s ≡ ok (a, t)
    → ((t ≡ s) × (has_event id gate_armed_event s.events ≡ true)) ⊎ IsArmed id version now s t
unfolding arm_body expect_migration
arm_body-IsArmed id version now s a t h = elim (Option-cases (find_migration id s.migrations)) [
  | inl e ↦ absurd (ground arith)
  | inr (row, found) ↦ elim (Bool-cases (has_event id gate_armed_event s.events)) [
    | inl old ↦ inl (ground arith, old)
    | inr unarmed ↦ inr (record {
      row = row;
      found = found;
      expected = same_status_eq row.status prepared (ground arith);
      fresh = ground arith;
      unreserved = ground arith;
      unarmed = unarmed;
      after = ground arith;
    })
  ]
]

pub reserve_body-IsReserved :
    (id : String) (status : MigrationStatus) (version : ℕ) (now : String) (s : Store) (a : Unit {0})
    (t : Store)
    → reserve_body id status version now s ≡ ok (a, t)
    → ((t ≡ s) × (has_event id abort_reserved_event s.events ≡ true))
      ⊎ IsReserved id status version now s t
unfolding reserve_body expect_migration
reserve_body-IsReserved id status version now s a t h =
    elim (Option-cases (find_migration id s.migrations)) [
      | inl e ↦ absurd (ground arith)
      | inr (row, found) ↦ elim (Bool-cases (has_event id abort_reserved_event s.events)) [
        | inl old ↦ inl (ground arith, old)
        | inr unreserved ↦ inr (record {
          row = row;
          found = found;
          expected = same_status_eq _ _ (ground arith);
          fresh = ground arith;
          unarmed = ground arith;
          unreserved = unreserved;
          after = ground arith;
        })
      ]
    ]

create_body-IsCreated :
    (intent : ChangeIntent) (ps : List Participant) (s : Store)
    → all (λ p. p.migration_id == intent.migration_id) ps ≡ true
    → distinct (map (λ p. p.participant_id) ps) ≡ true
    → (r : MigrationRecord) (t : Store) → create_body intent ps s ≡ ok (r, t)
    → IsCreated intent ps s t
unfolding create_body
create_body-IsCreated intent ps s owned apart r t h =
    go (M.insert_participants ps s.participants) refl
  where
    go : (x : Result _) → M.insert_participants ps s.participants ≡ x → IsCreated intent ps s t
    go (err e) i = absurd (ground arith)
    go (ok rows) i = record {
      rows = rows;
      owned = owned;
      apart = apart;
      absent = ground arith;
      inserted = i;
      after = ground arith;
    }

pub create_migration-IsCreated :
    (intent : ChangeIntent) (ps : List Participant) (s : Store)
    → ((create_migration intent ps s).1 ≡ s)
      ⊎ IsCreated intent ps s (create_migration intent ps s).1
create_migration-IsCreated intent ps s =
    go (all (λ p. p.migration_id == intent.migration_id) ps)
      (distinct (map (λ p. p.participant_id) ps)) refl refl
  where
    go :
        (a b : Bool)
        → all (λ p. p.migration_id == intent.migration_id) ps ≡ a
        → distinct (map (λ p. p.participant_id) ps) ≡ b
        → ((create_migration intent ps s).1 ≡ s)
          ⊎ IsCreated intent ps s (create_migration intent ps s).1
    go false b e f = inl (unfold create_migration in rw (e, create_migration) refl)
    go true false e f = inl (unfold create_migration in rw (e, f, create_migration) refl)
    go true true e f =
        unfold create_migration in
        rw (e, f, create_migration)
          (from_body (IsCreated intent ps) (create_body intent ps) s
            (λ r t h. inr (create_body-IsCreated intent ps s e f r t h)))

abort_body-IsAborted :
    (id : String) (receipt : AbortCleanupReceipt) (status : MigrationStatus) (version : ℕ)
    (now : String) (s : Store)
    → receipt.cleanup_errors ≡ []
    → (r : MigrationRecord) (t : Store) → abort_body id receipt status version now s ≡ ok (r, t)
    → IsAborted id receipt status version now s t
unfolding abort_body expect_migration mark_aborted
abort_body-IsAborted id receipt status version now s clean r t h =
    elim (Option-cases (find_migration id s.migrations)) [
      | inl e ↦ absurd (ground arith)
      | inr (row, found) ↦ record {
        row = row;
        found = found;
        expected = same_status_eq _ _ (ground arith);
        fresh = ground arith;
        unarmed = ground arith;
        allowed = ground arith;
        clean = clean;
        after = ground arith;
      }
    ]

pub abort_migration-IsAborted :
    (id : String) (receipt : AbortCleanupReceipt) (status : MigrationStatus) (version : ℕ)
    (now : String) (s : Store)
    → ((abort_migration id receipt status version now s).1 ≡ s)
      ⊎ IsAborted id receipt status version now s
          (abort_migration id receipt status version now s).1
abort_migration-IsAborted id receipt status version now s =
    go (receipt.migration_id == id) receipt.cleanup_errors refl refl
  where
    go :
        (a : Bool) (es : List String)
        → (receipt.migration_id == id) ≡ a
        → receipt.cleanup_errors ≡ es
        → ((abort_migration id receipt status version now s).1 ≡ s)
          ⊎ IsAborted id receipt status version now s
              (abort_migration id receipt status version now s).1
    go false es e f = inl (unfold abort_migration in rw (e, abort_migration) refl)
    go true (x ∷ xs) e f = inl (unfold abort_migration in rw (e, f, abort_migration) refl)
    go true [] e f =
        unfold abort_migration in
        simp (e, f, abort_migration)
          (from_body (IsAborted id receipt status version now)
            (abort_body id receipt status version now) s
            (λ r t h. inr (abort_body-IsAborted id receipt status version now s f r t h)))

-- A transaction that gives a result has run its body.
pub write_transaction-ok :
    {A : Type 0} (body : Store → Result (A × Store)) (s : Store) (a : A)
    → (write_transaction body s).0 ≡ ok a
    → body s ≡ ok (a, (write_transaction body s).1)
unfolding write_transaction
write_transaction-ok {A} body s a h = go (body s) refl
  where
    go : (r : Result (A × Store)) → body s ≡ r → body s ≡ ok (a, (write_transaction body s).1)
    go (ok (b, t)) e = ground arith
    go (err x) e = absurd (ground arith)

-- A transaction that raises leaves the store as it was.
pub write_transaction-err :
    {A : Type 0} (body : Store → Result (A × Store)) (s : Store) (e : Exception)
    → body s ≡ err e
    → write_transaction body s ≡ (err e, s)
write_transaction-err body s e h = unfold write_transaction in rw (h, write_transaction) refl

-- A checked transition is its transaction.
pub transition_migration-checked :
    (id : String) (m : M.Move) (s : Store)
    → check_move id m ≡ ok tt
    → transition_migration id m s ≡ write_transaction (M.move_body id m) s
transition_migration-checked id m s c =
    unfold transition_migration in rw (c, transition_migration) refl

pub transition_migration-check :
    (id : String) (m : M.Move) (s : Store) (r : MigrationRecord)
    → (transition_migration id m s).0 ≡ ok r
    → check_move id m ≡ ok tt
unfolding transition_migration
transition_migration-check id m s r h = ground arith

-- A transition that gives a result has made its step.
pub transition_migration-ok :
    (id : String) (m : M.Move) (s : Store) (r : MigrationRecord)
    → (transition_migration id m s).0 ≡ ok r
    → IsMoved id m s (transition_migration id m s).1
transition_migration-ok id m s r h =
    let checked = transition_migration-check id m s r h in
    let same = transition_migration-checked id m s checked in
    let done = write_transaction-ok (M.move_body id m) s r (ap (λ x. x.0) (sym same) ∙ h) in
    rw (same) (move_body-IsMoved id m s _ r checked done)
