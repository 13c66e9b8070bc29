-- ===== src/Coordinator/Safety/Arming.antt =====
-- lineagetx/coordinator.py: `commit` keeps the invariant: what follows the arming of the gate may
-- release it, and what comes before it does not.
use data_lineage_fix_agent.Coordinator.Gains.{Gains, catch-Gains, gain_then-Keeps, raising-Gains}
use data_lineage_fix_agent.Coordinator.Safety.Reached.{not_armed-IsRaising, arm-is_armed}
use data_lineage_fix_agent.Coordinator.Safety.Removal.{abort_after_failure-Keeps}
use data_lineage_fix_agent.Coordinator.Safety.Statements.{required_context-Keeps}
use data_lineage_fix_agent.Coordinator.Safety.Release.{
  release_armed-Keeps, make_ready-Keeps, reconcile_commit-Keeps,
}
use data_lineage_fix_agent.Coordinator.Runs.{catch, on_store}
use data_lineage_fix_agent.Coordinator.Rules.{
  choose-Keeps, bind-Keeps, catch-Keeps, raise-Keeps, keeps_rules, Keeps,
}
use data_lineage_fix_agent.Coordinator.Commit.{
  Ready, commit, release, not_ready, commit_prepared, not_armed,
}
use data_lineage_fix_agent.Prelude.{
  refl, publication_reconciliation_required, ℕ, String, ◌≡◌, true, All, Exception,
}
use data_lineage_fix_agent.State.Tables.{Store, MigrationRecord, gate_armed_event}
use data_lineage_fix_agent.State.Gate.Quiet.{is_armed}
use data_lineage_fix_agent.State.Calls.{IsPermitted, perform, arm}
use data_lineage_fix_agent.State.Migrations.{arm_publication_gate}
use data_lineage_fix_agent.Coordinator.World.{History, Services, Settings}
use data_lineage_fix_agent.Coordinator.Safety.Sound.{
  IsSound, Any, Any-IsStable, IsSound-Any, has_event-IsStable, on_store-Keeps, on_store-Gains,
  query-Keeps,
}

perform-arm :
    (id : String) (v : ℕ) (now : String) (s : Store)
    → (arm_publication_gate id v now s).1 ≡ perform (arm id v now) s
unfolding perform
perform-arm id v now s = refl

module _ (i : String) (sv : Services) (permitted : (h : History) → All IsPermitted (sv.others h))
    (cfg : Settings) (id : String) where
  arm-Keeps : (v : ℕ) → Keeps (IsSound i Any) (on_store sv (arm_publication_gate id v))
  arm-Keeps v =
      on_store-Keeps i Any Any-IsStable sv permitted _ (arm id v) (λ _. tt) (perform-arm id v)

  not_armed-Keeps :
      {A : Type 0} (e : Exception) → Keeps (IsSound i Any) (not_armed sv cfg id {A = A} e)
  unfolding not_armed
  not_armed-Keeps publication_reconciliation_required = raise-Keeps _
  not_armed-Keeps e = raise-Keeps _

  -- The gate is armed, or what follows is not run.
  pub arm-Gains :
      (v : ℕ)
      → Gains
          (IsSound i Any)
          (λ _. IsSound i (λ s. is_armed id s ≡ true))
          (catch (on_store sv (arm_publication_gate id v)) (not_armed sv cfg id))
  arm-Gains v =
      catch-Gains (not_armed sv cfg id) (arm-Keeps v)
        (on_store-Gains i Any Any-IsStable sv permitted (λ _ s. is_armed id s ≡ true) _
          (arm-Keeps v) (λ now s a h. arm-is_armed id v now s h))
        (λ e. raising-Gains (not_armed sv cfg id e) (not_armed-IsRaising sv cfg id e))

  release-Keeps : (m : MigrationRecord) (r : Ready) → Keeps (IsSound i Any) (release sv cfg id m r)
  unfolding release
  release-Keeps m r =
      gain_then-Keeps (IsSound-Any i _) (catch-Keeps (arm-Keeps m.version) not_armed-Keeps)
        (arm-Gains m.version)
        (release_armed-Keeps i (λ s. is_armed id s ≡ true) (has_event-IsStable id gate_armed_event)
          sv permitted cfg id (λ s x. x) m r)

  pub not_ready-Keeps :
      {A : Type 0} (e : Exception) → Keeps (IsSound i Any) (not_ready sv cfg id {A = A} e)
  unfolding not_ready
  not_ready-Keeps e =
      search
        (
          keeps_rules,
          query-Keeps i Any Any-IsStable sv permitted,
          abort_after_failure-Keeps i sv permitted cfg id,
        )
        depth 20

  commit_prepared-Keeps :
      (m : MigrationRecord) → Keeps (IsSound i Any) (commit_prepared sv cfg id m)
  unfolding commit_prepared
  commit_prepared-Keeps m =
      search
        (
          keeps_rules,
          required_context-Keeps i Any Any-IsStable sv permitted cfg,
          make_ready-Keeps i Any Any-IsStable sv permitted cfg id,
          not_ready-Keeps,
          release-Keeps,
        )
        depth 20

  pub commit-Keeps : Keeps (IsSound i Any) (commit sv cfg id)
  unfolding commit
  commit-Keeps = bind-Keeps (query-Keeps i Any Any-IsStable sv permitted _) (λ m.
      choose-Keeps _ (reconcile_commit-Keeps i Any Any-IsStable sv permitted cfg id)
        (commit_prepared-Keeps m))
