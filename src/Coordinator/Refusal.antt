-- ===== src/Coordinator/Refusal.antt =====
-- lineagetx/coordinator.py: an approval that is not verified leaves everything as it was.
use data_lineage_fix_agent.Coordinator.Rules.{
  catch-Keeps, bind-Keeps, lift-Keeps, raise-Keeps, then-Keeps, Keeps,
}
use data_lineage_fix_agent.Coordinator.Gains.{raising_bind-Keeps, IsRaising}
use data_lineage_fix_agent.Prelude.{
  arith, approval_verification_error, String, ◌≡◌, refl, ap, ◌∙◌, Exception, Result, ok, err, [],
  ◌∷◌,
}
use data_lineage_fix_agent.State.Tables.{Store}
use data_lineage_fix_agent.State.Calls.{perform_all}
use data_lineage_fix_agent.Coordinator.World.{
  History, World, Services, Settings, Action, GitHubApprovalExpectation,
}
use data_lineage_fix_agent.Coordinator.Runs.{raise, query, on_store, ask, catch}
use data_lineage_fix_agent.Coordinator.Approve.{approve_from_github, not_verified}

-- The store and the dicts are what they were.
abbrev Untouched : World → World → Type 0
Untouched w v = (v.store ≡ w.store) × (v.memory ≡ w.memory)

not_verified-IsRaising :
    (sv : Services) (cfg : Settings) (id : String) {A : Type 0} (e : Exception)
    → IsRaising (not_verified sv cfg id {A = A} e)
unfolding not_verified raise
not_verified-IsRaising sv cfg id approval_verification_error w = (_, refl)
not_verified-IsRaising sv cfg id e w = (_, refl)

module _ (w : World) (sv : Services) where
  -- No other client is at work.
  query-Untouched :
      ((h : History) → sv.others h ≡ [])
      → {A : Type 0} (f : Store → Result A) → Keeps (Untouched w) (query sv f)
  unfolding query on_store perform_all
  query-Untouched alone f = record {
    holds = λ v h. (ap (λ cs. perform_all cs v.store) (alone v.history) ∙ h.0, h.1);
  }

  ask-Untouched :
      {A : Type 0} (action : Action) (answer : History → Result A)
      → Keeps (Untouched w) (ask action answer)
  unfolding ask
  ask-Untouched action answer = record { holds = λ v h. h }

  not_verified-Untouched :
      (cfg : Settings) (id : String) {A : Type 0} (e : Exception)
      → Keeps (Untouched w) (not_verified sv cfg id {A = A} e)
  unfolding not_verified
  not_verified-Untouched cfg id approval_verification_error = raise-Keeps _
  not_verified-Untouched cfg id e = raise-Keeps _

  -- A verification that fails.
  refused :
      (cfg : Settings) (id : String) {A : Type 0} (action : Action) (answer : History → Result A)
      → ((h : History) → (e : Exception) × (answer h ≡ err e))
      → IsRaising (catch (ask action answer) (not_verified sv cfg id))
  unfolding catch ask
  refused cfg id {A = A} action answer fails v = go (answer v.history) (fails v.history)
    where
      go :
          (r : Result A)
          → (e : Exception) × (r ≡ err e)
          → (e : Exception) × ((elim r as (λ _. Result A × World) [
            | ok a ↦ (ok a, record v { history = action ∷ v.history })
            | err x ↦ not_verified sv cfg id x (record v { history = action ∷ v.history })
          ]).0
              ≡ err e)
      go (err x) f = not_verified-IsRaising sv cfg id x _
      go (ok a) (e, f) = absurd (ground arith)

approve_from_github-Untouched :
    (sv : Services) (cfg : Settings) (id source_api_url : String) (w : World)
    → ((h : History) → sv.others h ≡ [])
    → ((h : History) (x : GitHubApprovalExpectation)
        → (e : Exception) × (sv.verify h x source_api_url ≡ err e))
    → Keeps (Untouched w) (approve_from_github sv cfg id source_api_url)
unfolding approve_from_github
approve_from_github-Untouched sv cfg id source_api_url w alone fails = then-Keeps (lift-Keeps _) (
    bind-Keeps (query-Untouched w sv alone _) (λ m. then-Keeps (lift-Keeps _) (
      bind-Keeps (query-Untouched w sv alone _) (λ ps. bind-Keeps (lift-Keeps _) (λ p.
        then-Keeps (lift-Keeps _) (
          bind-Keeps (lift-Keeps _) (λ owner.
            raising_bind-Keeps _ _
              (catch-Keeps (ask-Untouched w sv _ _) (not_verified-Untouched w sv cfg id))
              (refused w sv cfg id _ _ (λ h. fails h _)))))))))

-- When GitHub does not verify the owner's decision, and no other client is at work, `approve_from_github`
-- leaves the store and what the coordinator remembers as they were, so that the real owner can still
-- approve: nothing is aborted.
pub refused_approval_changes_nothing :
    (sv : Services) (cfg : Settings) (id source_api_url : String) (w : World)
    → ((h : History) → sv.others h ≡ [])
    → ((h : History) (x : GitHubApprovalExpectation)
        → (e : Exception) × (sv.verify h x source_api_url ≡ err e))
    → ((approve_from_github sv cfg id source_api_url w).1.store ≡ w.store)
      × ((approve_from_github sv cfg id source_api_url w).1.memory ≡ w.memory)
refused_approval_changes_nothing sv cfg id source_api_url w alone fails =
    (approve_from_github-Untouched sv cfg id source_api_url w alone fails).holds w (refl, refl)
