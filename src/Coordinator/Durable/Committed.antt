-- ===== src/Coordinator/Durable/Committed.antt =====
-- lineagetx/coordinator.py: `commit` returns the row that the store has at COMMITTED.
use data_lineage_fix_agent.Coordinator.Safety.Statements.{required_context-Keeps}
use data_lineage_fix_agent.State.Terminal.{transition_migration-row}
use data_lineage_fix_agent.Coordinator.Safety.Arming.{not_ready-Keeps, arm-Gains}
use data_lineage_fix_agent.Coordinator.Rules.{catch-Keeps, lift-Keeps}
use data_lineage_fix_agent.Coordinator.Safety.Release.{
  make_ready-Keeps, known_publication-Keeps, revalidate_impact-Keeps, move-Keeps, finish-Keeps,
  publish-Keeps,
}
use data_lineage_fix_agent.Coordinator.Safety.Operations.{reached-IsSound, new_world}
use data_lineage_fix_agent.State.Gate.Quiet.{is_armed}
use data_lineage_fix_agent.Coordinator.Safety.Sound.{
  IsSound-map, has_event-IsStable, on_store-Gains, remember-Keeps, Any-IsStable, query-Keeps, Any,
  IsSound, IsStable,
}
use data_lineage_fix_agent.Coordinator.Detect.{operate_all, Operation}
use data_lineage_fix_agent.State.Calls.{IsPermitted}
use data_lineage_fix_agent.Coordinator.Durable.Rows.{
  check_row-Gains, get_row-Gains, committed-IsStable, IsAt,
}
use data_lineage_fix_agent.Coordinator.Gains.{
  raise-Gains, pure-Gains, choose-Gains, kept_then-Gains, then-Gains, bind-Gains, catch-Gains,
  kept-Gains, Yields-Gains, pure-Yields, bind-Yields, Gains, then-Yields, Yields,
}
use data_lineage_fix_agent.Coordinator.World.{World, Services, Settings, History, Memory}
use data_lineage_fix_agent.Prelude.{◌∙◌, sym, subst, String, ◌≡◌, refl, true, some, ok, All, List}
use data_lineage_fix_agent.Coordinator.World.{World}
use data_lineage_fix_agent.State.Tables.{find_migration, Store, MigrationRecord, gate_armed_event}
use data_lineage_fix_agent.Coordinator.Commit.{
  CommitOutcome, Ready, commit, commit_prepared, release, release_armed, persist, finish,
  reconcile_commit, commit_move,
}
use data_lineage_fix_agent.Models.Status.{same_status_eq, committed}
use data_lineage_fix_agent.Publisher.Requests.{PublicationResult}
use data_lineage_fix_agent.Policy.Context.{DataHubMigrationContext}

-- The row of the outcome is on record, at COMMITTED.
abbrev pub IsCommitted : String → CommitOutcome → World → Type 0
IsCommitted id out w = IsAt id committed out.migration w.store

module _ (sv : Services) (cfg : Settings) (id : String) where
  finish-Yields :
      (m : MigrationRecord) (context : DataHubMigrationContext) (p : PublicationResult)
      (stage error_path snapshot : String)
      → Yields (λ out. out.migration ≡ m) (finish sv cfg id m context p stage error_path snapshot)
  unfolding finish
  finish-Yields m context p stage error_path snapshot =
      then-Yields _
        (then-Yields _ (bind-Yields _ (λ manifest. bind-Yields _ (λ ps. pure-Yields _ refl))))

module _ (sv : Services) (permitted : (h : History) → All IsPermitted (sv.others h))
    (cfg : Settings) (id : String) where
  finish-Gains :
      (m : MigrationRecord) (context : DataHubMigrationContext) (p : PublicationResult)
      (stage error_path snapshot : String)
      → Gains
          (IsSound id (IsAt id committed m))
          (IsCommitted id)
          (finish sv cfg id m context p stage error_path snapshot)
  finish-Gains m context p stage error_path snapshot = record {
    gained = λ w out h same.
        let (kept, row) =
          (Yields-Gains
              (finish-Keeps id (IsAt id committed m) (committed-IsStable id m) sv permitted cfg id m
                context p stage error_path snapshot)
              (finish-Yields sv cfg id m context p stage error_path snapshot)).gained
            w out h same in
        subst
          (λ r.
            IsAt id committed r (finish sv cfg id m context p stage error_path snapshot w).1.store)
          (sym row) kept.also;
  }

  pub reconcile_commit-Gains :
      (R : Store → Type 0)
      → IsStable R
      → Gains (IsSound id R) (IsCommitted id) (reconcile_commit sv cfg id)
  unfolding reconcile_commit
  reconcile_commit-Gains R stable = bind-Gains (get_row-Gains id R stable sv permitted) (λ m.
      then-Gains (check_row-Gains id committed m _) (
        kept-Gains (required_context-Keeps id _ (at m) sv permitted cfg id) (λ context.
          kept_then-Gains (lift-Keeps _) (
            kept-Gains (revalidate_impact-Keeps id _ (at m) sv permitted cfg id context)
              (λ refreshed.
                kept-Gains (known_publication-Keeps id _ (at m) sv permitted cfg id)
                  (λ p. finish-Gains m refreshed p _ _ _))))))
    where
      at : (m : MigrationRecord) → IsStable (IsAt id committed m)
      at = committed-IsStable id

  commit_move-target :
      (m : MigrationRecord) (r : Ready) (p : PublicationResult) (now : String)
      → (commit_move sv cfg id m r p now).target ≡ committed
  unfolding commit_move
  commit_move-target m r p now = refl

  module _ (R : Store → Type 0) (stable : IsStable R) where
    persist-Gains :
        (m : MigrationRecord) (r : Ready) (p : PublicationResult)
        → Gains
            (IsSound id R)
            (λ done. IsSound id (IsAt id committed done))
            (persist sv cfg id m r p)
    unfolding persist
    persist-Gains m r p =
        catch-Gains _ (move-Keeps id R stable sv permitted cfg id m r p)
          (on_store-Gains id R stable sv permitted (IsAt id committed) _
            (move-Keeps id R stable sv permitted cfg id m r p)
            (λ now s done h.
              let (found, at) =
                transition_migration-row id (commit_move sv cfg id m r p now) s done h in
              (found, at ∙ commit_move-target m r p now)))
          (λ _. bind-Gains (get_row-Gains id R stable sv permitted) (λ current.
            choose-Gains _
              (λ same. pure-Gains current (λ w h.
                IsSound-map id _ (IsAt id committed current) w
                  (λ s found. (found, same_status_eq current.status committed same)) h))
              (λ _.
                then-Gains (record { gained = λ w a h same. tt })
                  (raise-Gains {P = λ _. Unit {0}} _))))

    release_armed-Gains :
        ((s : Store) → R s → is_armed id s ≡ true)
        → (m : MigrationRecord) (r : Ready)
        → Gains (IsSound id R) (IsCommitted id) (release_armed sv cfg id m r)
    unfolding release_armed
    release_armed-Gains armed m r =
        kept-Gains (publish-Keeps id R stable sv permitted cfg id armed r) (λ p.
          kept_then-Gains (remember-Keeps id R stable _)
            (bind-Gains (persist-Gains m r p) (λ done. finish-Gains done r.refreshed p _ _ _)))

  release-Gains :
      (m : MigrationRecord) (r : Ready)
      → Gains (IsSound id Any) (IsCommitted id) (release sv cfg id m r)
  unfolding release
  release-Gains m r =
      then-Gains (arm-Gains id sv permitted cfg id m.version)
        (release_armed-Gains _ (has_event-IsStable id gate_armed_event) (λ s x. x) m r)

  commit_prepared-Gains :
      (m : MigrationRecord) → Gains (IsSound id Any) (IsCommitted id) (commit_prepared sv cfg id m)
  unfolding commit_prepared
  commit_prepared-Gains m = kept_then-Gains (lift-Keeps _) (
      kept-Gains (required_context-Keeps id Any Any-IsStable sv permitted cfg id) (λ context.
        kept_then-Gains (lift-Keeps _) (
          kept-Gains
            (catch-Keeps (make_ready-Keeps id Any Any-IsStable sv permitted cfg id m context)
              (not_ready-Keeps id sv permitted cfg id))
            (λ r. release-Gains m r))))

  commit-Gains : Gains (IsSound id Any) (IsCommitted id) (commit sv cfg id)
  unfolding commit
  commit-Gains = kept-Gains (query-Keeps id Any Any-IsStable sv permitted _) (λ m.
      choose-Gains _ (λ _. reconcile_commit-Gains Any Any-IsStable) (λ _. commit_prepared-Gains m))

-- When `commit` returns, whatever operations came before it on a new store and whatever other clients
-- did in between, the store has the migration on record as the outcome says, at COMMITTED.
pub commit_is_durable :
    (sv : Services) (cfg : Settings) (os : List Operation) (m : Memory) (id : String)
    (out : CommitOutcome)
    → ((h : History) → All IsPermitted (sv.others h))
    → (commit sv cfg id (operate_all sv cfg os (new_world m))).0 ≡ ok out
    → (find_migration id (commit sv cfg id (operate_all sv cfg os (new_world m))).1.store.migrations
        ≡ some out.migration)
      × (out.migration.status ≡ committed)
commit_is_durable sv cfg os m id out permitted returned =
    (commit-Gains sv permitted cfg id).gained (operate_all sv cfg os (new_world m)) out
      (reached-IsSound id sv permitted cfg os m) returned
