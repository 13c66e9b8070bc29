-- ===== src/Coordinator/Safety/Release.antt =====
-- lineagetx/coordinator.py: `commit` and `reconcile_commit` keep the invariant: the gate is released
-- only after the store has armed it.
use data_lineage_fix_agent.Prelude.{
  String, ◌≡◌, refl, subst, true, List, [], ◌∷◌, All, eq_of_==, arith,
}
use data_lineage_fix_agent.State.Tables.{Store, MigrationRecord}
use data_lineage_fix_agent.State.Calls.{IsPermitted, perform, move_migration}
use data_lineage_fix_agent.State.Gate.Quiet.{is_armed, literal_open}
use data_lineage_fix_agent.State.Migrations.{transition_migration}
use data_lineage_fix_agent.Policy.Context.{DataHubMigrationContext}
use data_lineage_fix_agent.Publisher.Requests.{PublicationResult}
use data_lineage_fix_agent.Coordinator.World.{reconcile, release_gate, History, Services, Settings}
use data_lineage_fix_agent.Coordinator.Runs.{on_store}
use data_lineage_fix_agent.Coordinator.Rules.{
  Keeps, keeps_rules, pure-Keeps, bind-Keeps, then-Keeps, lift-Keeps, catch-Keeps, raise-Keeps,
  on_option-Keeps,
}
use data_lineage_fix_agent.Coordinator.Requests.{Candidate}
use data_lineage_fix_agent.Coordinator.Commit.{
  release_armed, Ready, revalidate_impact, recheck_approval, validate_candidates, make_ready,
  publish, persist, finish, known_publication, reconcile_commit, commit_move,
}
use data_lineage_fix_agent.Coordinator.Safety.Sound.{
  IsStable, IsSound, on_store-Keeps, query-Keeps, remember-Keeps, ask-Keeps, quiet_ask-Keeps,
}
use data_lineage_fix_agent.Coordinator.Safety.Statements.{
  write_evidence-Keeps, record_evidence-Keeps, capture_and_seal-Keeps, required_context-Keeps,
  writeback-Keeps,
}

module _ (i : String) (R : Store → Type 0) (stable : IsStable R) (sv : Services)
    (permitted : (h : History) → All IsPermitted (sv.others h)) (cfg : Settings) (id : String) where
  pub revalidate_impact-Keeps :
      (context : DataHubMigrationContext)
      → Keeps (IsSound i R) (revalidate_impact sv cfg id context)
  unfolding revalidate_impact
  revalidate_impact-Keeps context = search (keeps_rules, quiet_ask-Keeps i R stable) depth 12

  recheck_approval-Keeps :
      (m : MigrationRecord) → Keeps (IsSound i R) (recheck_approval sv cfg id m)
  unfolding recheck_approval
  recheck_approval-Keeps m =
      search
        (keeps_rules, quiet_ask-Keeps i R stable, record_evidence-Keeps i R stable sv permitted cfg)
        depth 12

  validate_candidates-Keeps :
      (cs : List Candidate) → Keeps (IsSound i R) (validate_candidates sv cfg id cs)
  unfolding validate_candidates
  validate_candidates-Keeps [] = search keeps_rules
  validate_candidates-Keeps (c ∷ cs) =
      then-Keeps (quiet_ask-Keeps i R stable _ _ refl refl) (validate_candidates-Keeps cs)

  pub make_ready-Keeps :
      (m : MigrationRecord) (context : DataHubMigrationContext)
      → Keeps (IsSound i R) (make_ready sv cfg id m context)
  unfolding make_ready
  make_ready-Keeps m context =
      search
        (
          keeps_rules,
          revalidate_impact-Keeps,
          recheck_approval-Keeps,
          validate_candidates-Keeps,
          writeback-Keeps i R stable sv permitted cfg,
          query-Keeps i R stable sv permitted,
          quiet_ask-Keeps i R stable,
        )
        depth 30

  pub finish-Keeps :
      (m : MigrationRecord) (context : DataHubMigrationContext) (p : PublicationResult)
      (stage error_path snapshot : String)
      → Keeps (IsSound i R) (finish sv cfg id m context p stage error_path snapshot)
  unfolding finish
  finish-Keeps m context p stage error_path snapshot =
      search
        (
          keeps_rules,
          writeback-Keeps i R stable sv permitted cfg,
          record_evidence-Keeps i R stable sv permitted cfg,
          write_evidence-Keeps i R stable sv permitted cfg,
          capture_and_seal-Keeps i R stable sv permitted cfg,
          query-Keeps i R stable sv permitted,
        )
        depth 20

  pub known_publication-Keeps : Keeps (IsSound i R) (known_publication sv cfg id)
  unfolding known_publication
  known_publication-Keeps =
      search (keeps_rules, query-Keeps i R stable sv permitted, remember-Keeps i R stable) depth 20

  pub reconcile_commit-Keeps : Keeps (IsSound i R) (reconcile_commit sv cfg id)
  unfolding reconcile_commit
  reconcile_commit-Keeps =
      search
        (
          keeps_rules,
          required_context-Keeps i R stable sv permitted cfg,
          revalidate_impact-Keeps,
          known_publication-Keeps,
          finish-Keeps,
          query-Keeps i R stable sv permitted,
        )
        depth 30

  commit_move-IsOpenType :
      (m : MigrationRecord) (r : Ready) (p : PublicationResult) (now : String)
      → IsPermitted (move_migration id (commit_move sv cfg id m r p now))
  unfolding commit_move
  commit_move-IsOpenType m r p now = literal_open _ refl refl

  perform-commit_move :
      (m : MigrationRecord) (r : Ready) (p : PublicationResult) (now : String) (s : Store)
      → (transition_migration id (commit_move sv cfg id m r p now) s).1
        ≡ perform (move_migration id (commit_move sv cfg id m r p now)) s
  unfolding perform
  perform-commit_move m r p now s = refl

  pub move-Keeps :
      (m : MigrationRecord) (r : Ready) (p : PublicationResult)
      → Keeps
          (IsSound i R)
          (on_store sv (λ now. transition_migration id (commit_move sv cfg id m r p now)))
  move-Keeps m r p =
      on_store-Keeps i R stable sv permitted _
        (λ now. move_migration id (commit_move sv cfg id m r p now)) (commit_move-IsOpenType m r p)
        (perform-commit_move m r p)

  pub persist-Keeps :
      (m : MigrationRecord) (r : Ready) (p : PublicationResult)
      → Keeps (IsSound i R) (persist sv cfg id m r p)
  unfolding persist
  persist-Keeps m r p = catch-Keeps (move-Keeps m r p) (λ _.
      search
        (
          keeps_rules,
          query-Keeps i R stable sv permitted,
          record_evidence-Keeps i R stable sv permitted cfg,
        )
        depth 20)

  -- The one statement that releases: it is run where the store has armed the gate.
  pub publish-Keeps :
      ((s : Store) → R s → is_armed id s ≡ true)
      → (r : Ready) → Keeps (IsSound i R) (publish sv cfg id r)
  unfolding publish
  publish-Keeps armed r =
      catch-Keeps
        (then-Keeps (record_evidence-Keeps i R stable sv permitted cfg _) (
          bind-Keeps (quiet_ask-Keeps i R stable (reconcile id) _ refl refl) (λ found.
            bind-Keeps
              (on_option-Keeps found
                (ask-Keeps i R stable (release_gate id) _
                  (λ s x e. subst (λ k. is_armed k s ≡ true) (eq_of_== id i e) (armed s x))
                  (λ s x e. absurd (ground arith)))
                pure-Keeps)
              (λ p. then-Keeps (lift-Keeps _) (pure-Keeps p)))))
        (λ _. then-Keeps (record_evidence-Keeps i R stable sv permitted cfg _) (raise-Keeps _))

  pub release_armed-Keeps :
      ((s : Store) → R s → is_armed id s ≡ true)
      → (m : MigrationRecord) (r : Ready) → Keeps (IsSound i R) (release_armed sv cfg id m r)
  unfolding release_armed
  release_armed-Keeps armed m r =
      search
        (keeps_rules, publish-Keeps armed, persist-Keeps, finish-Keeps, remember-Keeps i R stable)
        depth 20
