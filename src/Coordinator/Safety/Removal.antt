-- ===== src/Coordinator/Safety/Removal.antt =====
-- lineagetx/coordinator.py: `abort` and what calls it keep the invariant: worktrees are removed only
-- after the store has reserved the cleanup.
use data_lineage_fix_agent.Coordinator.Safety.Reached.{reserve-is_reserved}
use data_lineage_fix_agent.Coordinator.Safety.Statements.{
  write_evidence-Keeps, capture_and_seal-Keeps, record_evidence-Keeps, writeback-Keeps,
}
use data_lineage_fix_agent.Coordinator.Runs.{on_store}
use data_lineage_fix_agent.Coordinator.Gains.{Gains, gain_then-Keeps}
use data_lineage_fix_agent.Coordinator.Rules.{
  lift-Keeps, then-Keeps, bind-Keeps, when-Keeps, keeps_rules, pure-Keeps, catch-Keeps, Keeps,
}
use data_lineage_fix_agent.Coordinator.Safety.Sound.{
  on_store-Gains, IsSound-Any, Any-IsStable, Any, has_event-IsStable, query-Keeps, ask-Keeps,
  on_store-Keeps, IsSound, IsStable,
}
use data_lineage_fix_agent.Coordinator.World.{
  remove_worktree, RepositorySession, Settings, History, Services,
}
use data_lineage_fix_agent.Prelude.{
  String, ◌≡◌, refl, subst, true, List, [], ◌∷◌, Exception, All, eq_of_==, arith,
}
use data_lineage_fix_agent.State.Tables.{Store, MigrationRecord, abort_reserved_event}
use data_lineage_fix_agent.State.Gate.Quiet.{is_reserved, literal_open}
use data_lineage_fix_agent.State.Calls.{IsPermitted, perform, abort, reserve, move_participant}
use data_lineage_fix_agent.State.Participants.{transition_participant}
use data_lineage_fix_agent.Models.Participants.{Participant}
use data_lineage_fix_agent.State.Migrations.{abort_migration, reserve_abort_cleanup}
use data_lineage_fix_agent.Models.Receipts.{AbortCleanupReceipt}
use data_lineage_fix_agent.Coordinator.Abort as A
use data_lineage_fix_agent.Coordinator.Abort.{
  clean_up, clean_session, clean_sessions, Cleanup, new_cleanup_receipt, mark_failed,
  abort_after_failure, reconcile_abort, failed_move,
}

module _ (i : String) (R : Store → Type 0) (stable : IsStable R) (sv : Services)
    (permitted : (h : History) → All IsPermitted (sv.others h)) (cfg : Settings) (id : String) where
  clean_session-Keeps :
      ((s : Store) → R s → is_reserved id s ≡ true)
      → (session : RepositorySession) (c : Cleanup)
      → Keeps (IsSound i R) (clean_session sv cfg id session c)
  unfolding clean_session
  clean_session-Keeps reserved session c =
      catch-Keeps
        (then-Keeps
          (ask-Keeps i R stable (remove_worktree id session) _ (λ s x e. absurd (ground arith))
            (λ s x e. subst (λ k. is_reserved k s ≡ true) (eq_of_== id i e) (reserved s x)))
          (search keeps_rules))
        (λ _. pure-Keeps _)

  pub clean_sessions-Keeps :
      ((s : Store) → R s → is_reserved id s ≡ true)
      → (sessions : List RepositorySession) (c : Cleanup)
      → Keeps (IsSound i R) (clean_sessions sv cfg id sessions c)
  unfolding clean_sessions
  clean_sessions-Keeps reserved [] c = pure-Keeps c
  clean_sessions-Keeps reserved (session ∷ sessions) c =
      bind-Keeps (clean_session-Keeps reserved session c)
        (λ c'. clean_sessions-Keeps reserved sessions c')

  perform-abort :
      (receipt : AbortCleanupReceipt) (m : MigrationRecord) (now : String) (s : Store)
      → (abort_migration id receipt m.status m.version now s).1
        ≡ perform (abort id receipt m.status m.version now) s
  unfolding perform
  perform-abort receipt m now s = refl

  perform-reserve :
      (m : MigrationRecord) (now : String) (s : Store)
      → (reserve_abort_cleanup id m.status m.version now s).1
        ≡ perform (reserve id m.status m.version now) s
  unfolding perform
  perform-reserve m now s = refl

  pub reserve-Keeps :
      (m : MigrationRecord)
      → Keeps (IsSound i R) (on_store sv (reserve_abort_cleanup id m.status m.version))
  reserve-Keeps m =
      on_store-Keeps i R stable sv permitted _ (reserve id m.status m.version) (λ _. tt)
        (perform-reserve m)

  pub abort_migration-Keeps :
      (receipt : AbortCleanupReceipt) (m : MigrationRecord)
      → Keeps (IsSound i R) (on_store sv (abort_migration id receipt m.status m.version))
  abort_migration-Keeps receipt m =
      on_store-Keeps i R stable sv permitted _ (abort id receipt m.status m.version) (λ _. tt)
        (perform-abort receipt m)

  pub new_cleanup_receipt-Keeps :
      (c : Cleanup) → Keeps (IsSound i R) (new_cleanup_receipt sv cfg id c)
  unfolding new_cleanup_receipt
  new_cleanup_receipt-Keeps c = search keeps_rules

  failed_move-IsOpenType :
      (p : Participant) (participant_id : String) (error : Exception) (phase now : String)
      → IsPermitted (move_participant participant_id (failed_move sv cfg id p error phase now))
  unfolding failed_move
  failed_move-IsOpenType p participant_id error phase now = literal_open _ refl refl

  perform-failed_move :
      (p : Participant) (participant_id : String) (error : Exception) (phase now : String)
      (s : Store)
      → (transition_participant participant_id (failed_move sv cfg id p error phase now) s).1
        ≡ perform (move_participant participant_id (failed_move sv cfg id p error phase now)) s
  unfolding perform
  perform-failed_move p participant_id error phase now s = refl

  -- The worktrees are removed where the store has reserved the cleanup.
  pub clean_up-Keeps :
      ((s : Store) → R s → is_reserved id s ≡ true)
      → (m : MigrationRecord) → Keeps (IsSound i R) (clean_up sv cfg id m)
  unfolding clean_up
  clean_up-Keeps reserved m =
      search
        (
          keeps_rules,
          clean_sessions-Keeps reserved,
          new_cleanup_receipt-Keeps,
          abort_migration-Keeps,
          write_evidence-Keeps i R stable sv permitted cfg,
          writeback-Keeps i R stable sv permitted cfg,
          record_evidence-Keeps i R stable sv permitted cfg,
          capture_and_seal-Keeps i R stable sv permitted cfg,
        )
        depth 30

  mark_failed-Keeps :
      (participant_id : String) (error : Exception) (phase : String)
      → Keeps (IsSound i R) (mark_failed sv cfg id participant_id error phase)
  unfolding mark_failed
  mark_failed-Keeps participant_id error phase = when-Keeps _ (
      catch-Keeps
        (bind-Keeps (query-Keeps i R stable sv permitted _) (λ p. when-Keeps _ (
          then-Keeps
            (on_store-Keeps i R stable sv permitted _
              (λ now. move_participant participant_id (failed_move sv cfg id p error phase now))
              (failed_move-IsOpenType p participant_id error phase)
              (perform-failed_move p participant_id error phase))
            (pure-Keeps tt))))
        (λ _. pure-Keeps tt))

  pub reconcile_abort-Keeps : Keeps (IsSound i R) (reconcile_abort sv cfg id)
  unfolding reconcile_abort
  reconcile_abort-Keeps =
      search
        (
          keeps_rules,
          writeback-Keeps i R stable sv permitted cfg,
          record_evidence-Keeps i R stable sv permitted cfg,
          capture_and_seal-Keeps i R stable sv permitted cfg,
          query-Keeps i R stable sv permitted,
        )
        depth 20

module _ (i : String) (sv : Services) (permitted : (h : History) → All IsPermitted (sv.others h))
    (cfg : Settings) (id : String) where
  -- The cleanup is reserved, or what follows is not run.
  pub reserve-Gains :
      (m : MigrationRecord)
      → Gains
          (IsSound i Any)
          (λ _. IsSound i (λ s. is_reserved id s ≡ true))
          (on_store sv (reserve_abort_cleanup id m.status m.version))
  reserve-Gains m =
      on_store-Gains i Any Any-IsStable sv permitted (λ _ s. is_reserved id s ≡ true) _
        (reserve-Keeps i Any Any-IsStable sv permitted cfg id m)
        (λ now s a h. reserve-is_reserved id m.version now s m.status h)

  pub abort-Keeps : Keeps (IsSound i Any) (A.abort sv cfg id)
  unfolding A.abort
  abort-Keeps = bind-Keeps (query-Keeps i Any Any-IsStable sv permitted _) (λ m.
      then-Keeps (lift-Keeps _) (
        gain_then-Keeps (IsSound-Any i _) (reserve-Keeps i Any Any-IsStable sv permitted cfg id m)
          (reserve-Gains m)
          (clean_up-Keeps i (λ s. is_reserved id s ≡ true)
            (has_event-IsStable id abort_reserved_event) sv permitted cfg id (λ s x. x) m)))

  pub abort_after_failure-Keeps :
      {A : Type 0} (participant_id : String) (error : Exception) (phase : String)
      → Keeps (IsSound i Any) (abort_after_failure sv cfg id {A = A} participant_id error phase)
  unfolding abort_after_failure
  abort_after_failure-Keeps participant_id error phase =
      search (keeps_rules, mark_failed-Keeps i Any Any-IsStable sv permitted cfg id, abort-Keeps)
        depth 20
