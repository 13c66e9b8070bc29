-- ===== src/Coordinator/Safety/Operations.antt =====
-- lineagetx/coordinator.py: every operation keeps the invariant, and what it gives in the end.
use data_lineage_fix_agent.Coordinator.Safety.Approval.{
  approve_from_github-Keeps, approve-Keeps, prepare-Keeps,
}
use data_lineage_fix_agent.Coordinator.Safety.Statements.{
  writeback-Keeps, capture_and_seal-Keeps, write_evidence-Keeps,
}
use data_lineage_fix_agent.Coordinator.Safety.Removal.{reconcile_abort-Keeps, abort-Keeps}
use data_lineage_fix_agent.Coordinator.Safety.Release.{reconcile_commit-Keeps}
use data_lineage_fix_agent.Coordinator.Safety.Arming.{commit-Keeps}
use data_lineage_fix_agent.State.Gate.Quiet.{IsHeld}
use data_lineage_fix_agent.Coordinator.Rules.{
  keeps_rules, bind-Keeps, lift-Keeps, then-Keeps, Keeps,
}
use data_lineage_fix_agent.Coordinator.Safety.Sound.{
  remember-Keeps, on_store-Keeps, Any-IsStable, has_removal, Any, IsSound, has_release,
}
use data_lineage_fix_agent.Prelude.{
  inr, inl, Bool-cases, arith, String, ◌≡◌, refl, true, false, List, [], ◌∷◌, All,
}
use data_lineage_fix_agent.Models.Intent.{ChangeIntent}
use data_lineage_fix_agent.Models.Participants.{Participant}
use data_lineage_fix_agent.Policy.Discovery.{DiscoveryAttestation}
use data_lineage_fix_agent.State.Tables.{Store, empty, has_event}
use data_lineage_fix_agent.State.Migrations.{create_migration}
use data_lineage_fix_agent.State.Calls.{IsPermitted, perform, create}
use data_lineage_fix_agent.Coordinator.World.{History, Memory, World, Services, Settings}
use data_lineage_fix_agent.Coordinator.Detect.{
  Operation, detect_migration, prepare_candidates, approve_for_test, approve_on_github,
  commit_migration, reconcile_committed, abort_candidates, reconcile_aborted, detect, operate,
  operate_all,
}

perform-create :
    (intent : ChangeIntent) (ps : List Participant) (s : Store)
    → (create_migration intent ps s).1 ≡ perform (create intent ps) s
unfolding perform
perform-create intent ps s = refl

module _ (i : String) (sv : Services) (permitted : (h : History) → All IsPermitted (sv.others h))
    (cfg : Settings) where
  detect-Keeps :
      (intent : ChangeIntent) (attestation : DiscoveryAttestation) (ps : List Participant)
      → Keeps (IsSound i Any) (detect sv cfg intent attestation ps)
  unfolding detect
  detect-Keeps intent attestation ps = then-Keeps (lift-Keeps _) (
      bind-Keeps (lift-Keeps _) (λ d.
        bind-Keeps
          (on_store-Keeps i Any Any-IsStable sv permitted _ (λ _. create intent ps) (λ _. tt)
            (λ _. perform-create intent ps))
          (λ m.
            search
              (
                keeps_rules,
                remember-Keeps i Any Any-IsStable,
                write_evidence-Keeps i Any Any-IsStable sv permitted cfg,
                capture_and_seal-Keeps i Any Any-IsStable sv permitted cfg,
                writeback-Keeps i Any Any-IsStable sv permitted cfg,
              )
              depth 20)))

  operate-keeps : (o : Operation) (w : World) → IsSound i Any w → IsSound i Any (operate sv cfg o w)
  unfolding operate
  operate-keeps (detect_migration intent attestation ps) w =
      (detect-Keeps intent attestation ps).holds w
  operate-keeps (prepare_candidates id roots) w =
      (prepare-Keeps i sv permitted cfg id roots).holds w
  operate-keeps (approve_for_test id approval) w =
      (approve-Keeps i sv permitted cfg id approval).holds w
  operate-keeps (approve_on_github id source_api_url) w =
      (approve_from_github-Keeps i sv permitted cfg id source_api_url).holds w
  operate-keeps (commit_migration id) w = (commit-Keeps i sv permitted cfg id).holds w
  operate-keeps (reconcile_committed id) w =
      (reconcile_commit-Keeps i Any Any-IsStable sv permitted cfg id).holds w
  operate-keeps (abort_candidates id) w = (abort-Keeps i sv permitted cfg id).holds w
  operate-keeps (reconcile_aborted id) w =
      (reconcile_abort-Keeps i Any Any-IsStable sv permitted cfg id).holds w

  operate_all-keeps :
      (os : List Operation) (w : World) → IsSound i Any w → IsSound i Any (operate_all sv cfg os w)
  unfolding operate_all
  operate_all-keeps [] w h = h
  operate_all-keeps (o ∷ os) w h = operate_all-keeps os (operate sv cfg o w) (operate-keeps o w h)

-- A new store, and nothing called yet.
abbrev pub new_world : Memory → World
new_world m = record { store = empty; memory = m; history = [] }

new_world-IsSound : (i : String) (m : Memory) → IsSound i Any (new_world m)
unfolding has_event
new_world-IsSound i m = record {
  exclusive = record { apart = λ a. absurd (ground arith); held = λ a. absurd (ground arith) };
  released = λ r. absurd (ground arith);
  removed = λ r. absurd (ground arith);
  also = tt;
}

-- Every world that the operations reach is sound.
pub reached-IsSound :
    (i : String) (sv : Services) (permitted : (h : History) → All IsPermitted (sv.others h))
    (cfg : Settings) (os : List Operation) (m : Memory)
    → IsSound i Any (operate_all sv cfg os (new_world m))
reached-IsSound i sv permitted cfg os m =
    operate_all-keeps i sv permitted cfg os (new_world m) (new_world-IsSound i m)

-- Whatever operations clients ask of the coordinator over a new store, in whatever order, whatever it
-- remembers and whatever the collaborators answer or raise, while other clients make permitted calls of
-- the same store between its statements: if the publisher was ever asked to release the Producer gate
-- of a migration, then no candidate worktree of that migration was ever removed, and the migration is
-- on record at PREPARED or COMMITTED.
pub released_never_removed :
    (i : String) (sv : Services) (cfg : Settings) (os : List Operation) (m : Memory)
    → ((h : History) → All IsPermitted (sv.others h))
    → has_release i (operate_all sv cfg os (new_world m)).history ≡ true
    → (has_removal i (operate_all sv cfg os (new_world m)).history ≡ false)
      × IsHeld i (operate_all sv cfg os (new_world m)).store
released_never_removed i sv cfg os m permitted released =
    let h = reached-IsSound i sv permitted cfg os m in
    let armed = h.released released in
    (
      elim (Bool-cases (has_removal i (operate_all sv cfg os (new_world m)).history)) [
        | inl removed ↦ absurd (ground (arith, h.removed removed, h.exclusive.apart armed))
        | inr none_removed ↦ none_removed
      ],
      h.exclusive.held armed,
    )
