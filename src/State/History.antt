-- ===== src/State/History.antt =====
-- lineagetx/state.py: versions over a sequence of calls, and the optimistic lock.
use data_lineage_fix_agent.Prelude.{
  ◌∙◌, ℕ, ◌+◌, ◌≤◌, ◌<◌, String, ◌≡◌, true, some, List, [], ◌∷◌, ok, err, arith, state_conflict,
}
use data_lineage_fix_agent.Models.Status.{
  MigrationStatus, detected, committed, aborted, can_transition,
}
use data_lineage_fix_agent.State.Tables.{
  append_event, MigrationRecord, Store, empty, find_migration,
}
use data_lineage_fix_agent.State.Tables.Queries.{find-update_self}
use data_lineage_fix_agent.State.Changes.MigrationSteps.{
  transition_migration-ok, transition_migration-checked, write_transaction-err,
}
use data_lineage_fix_agent.State.Calls.{Call, perform, perform_all}
use data_lineage_fix_agent.State.Changes.{IsMoved}
use data_lineage_fix_agent.State.Evolution.{Evolves, same, begun, stepped, perform-Evolves}
use data_lineage_fix_agent.State.Migrations.{
  transition_migration, expect_migration, check_move, move_body,
}
use data_lineage_fix_agent.State.Migrations as M

-- How many transitions lead to a status at most.
abbrev rank : MigrationStatus → ℕ
rank detected = 0
rank MigrationStatus.preparing = 1
rank MigrationStatus.needs_approval = 2
rank MigrationStatus.prepared = 3
rank committed = 4
rank aborted = 4

rank-transition : (a b : MigrationStatus) → can_transition a b ≡ true → rank a + 1 ≤ rank b
unfolding can_transition
rank-transition a b h = ground arith

abbrev IsRanked : String → Store → Type 0
IsRanked id s =
    (r : MigrationRecord) → find_migration id s.migrations ≡ some r → r.version ≤ rank r.status

Evolves-IsRanked : (id : String) (s t : Store) → Evolves id s t → IsRanked id s → IsRanked id t
Evolves-IsRanked id s t (same e) h r f = h r (ground arith)
Evolves-IsRanked id s t (begun q a f st v) h r g = ground arith
Evolves-IsRanked id s t (stepped p q f g allowed v i) h r k =
    ground (arith, h p f, rank-transition p.status q.status allowed)

IsRanked-perform_all :
    (id : String) (cs : List Call) (s : Store) → IsRanked id s → IsRanked id (perform_all cs s)
unfolding perform_all
IsRanked-perform_all id [] s h = h
IsRanked-perform_all id (c ∷ cs) s h =
    IsRanked-perform_all id cs (perform c s)
      (Evolves-IsRanked id s (perform c s) (perform-Evolves id c s) h)

-- After any calls on a new store, a migration on record has made at most four transitions.
pub version_bounded :
    (id : String) (cs : List Call) (r : MigrationRecord)
    → find_migration id (perform_all cs empty).migrations ≡ some r
    → r.version ≤ 4
unfolding find_migration
version_bounded id cs r f =
    let ranked = IsRanked-perform_all id cs empty (λ q e. absurd (ground arith)) r f in
    ground (arith, ranked)

-- The record of a migration that is there at a version.
abbrev IsPast : String → ℕ → Store → Type 0
IsPast id v s = (r : MigrationRecord) × (find_migration id s.migrations ≡ some r) × (v ≤ r.version)

IsPast-perform :
    (id : String) (v : ℕ) (s t : Store) → Evolves id s t → IsPast id v s → IsPast id v t
IsPast-perform id v s t (same e) (r, f, b) = (r, e ∙ f, b)
IsPast-perform id v s t (begun q a f st z) (r, g, b) = absurd (ground arith)
IsPast-perform id v s t (stepped p q f g allowed w i) (r, k, b) = (q, g, ground arith)

IsPast-perform_all :
    (id : String) (v : ℕ) (cs : List Call) (s : Store)
    → IsPast id v s
    → IsPast id v (perform_all cs s)
unfolding perform_all
IsPast-perform_all id v [] s h = h
IsPast-perform_all id v (c ∷ cs) s h =
    IsPast-perform_all id v cs (perform c s) (IsPast-perform id v s _ (perform-Evolves id c s) h)

move_body-stale :
    (id : String) (m : M.Move) (s : Store) (r : MigrationRecord)
    → find_migration id s.migrations ≡ some r
    → m.expected_version < r.version
    → move_body id m s ≡ err state_conflict
unfolding move_body expect_migration
move_body-stale id m s r f b = ground arith

-- A transition leaves its migration at the next version.
transition_migration-IsPast :
    (id : String) (m : M.Move) (s t : Store)
    → IsMoved id m s t
    → IsPast id (m.expected_version + 1) t
unfolding append_event M.update_migration
transition_migration-IsPast id m s t moved = rw moved.after (
  record moved.row { status = m.target; version = moved.row.version + 1; updated_at = m.now },
  find-update_self id s.migrations moved.row m.target m.now moved.found,
  ground (arith, moved.fresh),
)

-- A transition that succeeded makes every later one stale that was planned on the same version and
-- passes its own checks before the transaction: whatever calls come in between, it is refused with
-- StateConflict and changes nothing.
pub lost_update_refused :
    (id : String) (m n : M.Move) (s : Store) (r : MigrationRecord) (cs : List Call)
    → (transition_migration id m s).0 ≡ ok r
    → n.expected_version ≡ m.expected_version
    → check_move id n ≡ ok tt
    → let u = perform_all cs (transition_migration id m s).1 in
      transition_migration id n u ≡ (err state_conflict, u)
lost_update_refused id m n s r cs won planned checked =
    let t = (transition_migration id m s).1 in
    let u = perform_all cs t in
    let moved = transition_migration-ok id m s r won in
    let past = IsPast-perform_all id _ cs t (transition_migration-IsPast id m s t moved) in
    let stale = move_body-stale id n u past.0 past.1 (ground (arith, past.2, planned)) in
    transition_migration-checked id n u checked ∙ write_transaction-err (move_body id n) u _ stale
