-- ===== src/Coordinator/Safety/Approval.antt =====
-- lineagetx/coordinator.py: `prepare`, `approve` and `approve_from_github` keep the invariant.
use data_lineage_fix_agent.Coordinator.Safety.Statements.{writeback-Keeps, required_context-Keeps}
use data_lineage_fix_agent.Coordinator.Safety.Removal.{abort_after_failure-Keeps}
use data_lineage_fix_agent.Coordinator.Safety.Preparation.{
  prepare_participant-Keeps, move_migration-Keeps, finish_prepare-Keeps, required_discovery-Keeps,
  apply_accepted-Keeps,
}
use data_lineage_fix_agent.Coordinator.Safety.Sound.{
  quiet_ask-Keeps, query-Keeps, Any-IsStable, remember-Keeps, Any, IsSound,
}
use data_lineage_fix_agent.Coordinator.Rules.{
  lift-Keeps, bind-Keeps, then-Keeps, catch-Keeps, keeps_rules, raise-Keeps, Keeps,
}
use data_lineage_fix_agent.Prelude.{
  String, Option, List, [], ◌∷◌, Exception, All, approval_verification_error, refl,
}
use data_lineage_fix_agent.State.Tables.{MigrationRecord}
use data_lineage_fix_agent.State.Calls.{IsPermitted}
use data_lineage_fix_agent.Policy.Approval.{OwnerApproval}
use data_lineage_fix_agent.Policy.Context.{DataHubMigrationContext}
use data_lineage_fix_agent.Policy.Discovery.{DiscoveryDecision}
use data_lineage_fix_agent.Coordinator.World.{History, Services, Settings, VerifiedGitHubApproval}
use data_lineage_fix_agent.Coordinator.Approve as A
use data_lineage_fix_agent.Coordinator.Prepare.{prepare, prepare_from}

module _ (i : String) (sv : Services) (permitted : (h : History) → All IsPermitted (sv.others h))
    (cfg : Settings) (id : String) where
  prepare_from-Keeps :
      (roots : List (String × String)) (m : MigrationRecord) (context : DataHubMigrationContext)
      (decision : DiscoveryDecision) (active : String) (ids : List String)
      → Keeps (IsSound i Any) (prepare_from sv cfg id roots m context decision active ids)
  unfolding prepare_from
  prepare_from-Keeps roots m context decision active [] =
      catch-Keeps (finish_prepare-Keeps i Any Any-IsStable sv permitted cfg id m.version decision)
        (λ e. abort_after_failure-Keeps i sv permitted cfg id active e "prepare")
  prepare_from-Keeps roots m context decision active (p ∷ ps) =
      then-Keeps
        (catch-Keeps
          (prepare_participant-Keeps i Any Any-IsStable sv permitted cfg id roots m.intent context
            p)
          (λ e. abort_after_failure-Keeps i sv permitted cfg id p e "prepare"))
        (prepare_from-Keeps roots m context decision p ps)

  pub prepare-Keeps :
      (roots : List (String × String)) → Keeps (IsSound i Any) (prepare sv cfg id roots)
  unfolding prepare
  prepare-Keeps roots = bind-Keeps (query-Keeps i Any Any-IsStable sv permitted _) (λ m.
      then-Keeps (lift-Keeps _) (
        bind-Keeps (required_context-Keeps i Any Any-IsStable sv permitted cfg id) (λ context.
          bind-Keeps (required_discovery-Keeps i Any Any-IsStable sv permitted cfg id) (λ decision.
            bind-Keeps
              (move_migration-Keeps i Any Any-IsStable sv permitted cfg id _ _ _ _ _ refl refl)
              (λ preparing.
                then-Keeps
                  (catch-Keeps (writeback-Keeps i Any Any-IsStable sv permitted cfg preparing _ _)
                    (λ e. abort_after_failure-Keeps i sv permitted cfg id "" e "prepare"))
                  (prepare_from-Keeps roots preparing context decision "" _))))))

  apply_approval-Keeps :
      (approval : OwnerApproval) (verified : Option VerifiedGitHubApproval)
      → Keeps (IsSound i Any) (A.apply_approval sv cfg id approval verified)
  unfolding A.apply_approval
  apply_approval-Keeps approval verified =
      search
        (
          keeps_rules,
          apply_accepted-Keeps i Any Any-IsStable sv permitted cfg id,
          abort_after_failure-Keeps i sv permitted cfg id,
          query-Keeps i Any Any-IsStable sv permitted,
        )
        depth 30

  pub approve-Keeps :
      (approval : OwnerApproval) → Keeps (IsSound i Any) (A.approve sv cfg id approval)
  unfolding A.approve
  approve-Keeps approval = search (keeps_rules, apply_approval-Keeps)

  not_verified-Keeps :
      {T : Type 0} (e : Exception) → Keeps (IsSound i Any) (A.not_verified sv cfg id {A = T} e)
  unfolding A.not_verified
  not_verified-Keeps approval_verification_error = raise-Keeps _
  not_verified-Keeps e = raise-Keeps _

  pub approve_from_github-Keeps :
      (source_api_url : String)
      → Keeps (IsSound i Any) (A.approve_from_github sv cfg id source_api_url)
  unfolding A.approve_from_github
  approve_from_github-Keeps source_api_url =
      search
        (
          keeps_rules,
          apply_approval-Keeps,
          not_verified-Keeps,
          remember-Keeps i Any Any-IsStable,
          query-Keeps i Any Any-IsStable sv permitted,
          quiet_ask-Keeps i Any Any-IsStable,
        )
        depth 30
