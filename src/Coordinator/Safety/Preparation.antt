-- ===== src/Coordinator/Safety/Preparation.antt =====
-- lineagetx/coordinator.py: `prepare` and `approve` keep the invariant: they release nothing, and
-- remove worktrees only through `abort`.
use data_lineage_fix_agent.Coordinator.Safety.Statements.{
  writeback-Keeps, capture_and_seal-Keeps, write_evidence-Keeps,
}
use data_lineage_fix_agent.Candidates.{CandidateEnvelope}
use data_lineage_fix_agent.Coordinator.Runs.{on_store}
use data_lineage_fix_agent.Policy.Discovery.{DiscoveryDecision}
use data_lineage_fix_agent.Policy.Context.{DataHubMigrationContext}
use data_lineage_fix_agent.Coordinator.Rules.{keeps_rules, Keeps}
use data_lineage_fix_agent.Coordinator.Prepare.{
  prepare_participant, required_discovery, proposal_request, finish_prepare, settle,
}
use data_lineage_fix_agent.Coordinator.Safety.Sound.{
  query-Keeps, remember-Keeps, quiet_ask-Keeps, on_store-Keeps, IsSound, IsStable,
}
use data_lineage_fix_agent.Prelude.{ℕ, String, ◌≡◌, refl, false, Option, List, All, ◌==◌}
use data_lineage_fix_agent.Models.Status.{MigrationStatus, ParticipantStatus}
use data_lineage_fix_agent.Models.Intent.{ChangeIntent}
use data_lineage_fix_agent.Models.Participants.{Participant}
use data_lineage_fix_agent.Models.Receipts.{ApprovalReceipt}
use data_lineage_fix_agent.State.Tables.{
  Store, MigrationRecord, Payload, gate_armed_event, abort_reserved_event,
}
use data_lineage_fix_agent.State.Calls.{IsPermitted, perform, approve}
use data_lineage_fix_agent.State.Calls as S
use data_lineage_fix_agent.State.Migrations.{transition_migration}
use data_lineage_fix_agent.State.Migrations as M
use data_lineage_fix_agent.State.Participants.{transition_participant}
use data_lineage_fix_agent.State.Participants as P
use data_lineage_fix_agent.State.Approvals.{record_approval}
use data_lineage_fix_agent.State.Gate.Quiet.{literal_open}
use data_lineage_fix_agent.Policy.Approval.{OwnerApproval}
use data_lineage_fix_agent.Coordinator.World.{
  RepositorySession, PreparationResult, VerifiedGitHubApproval, History, Services, Settings,
}
use data_lineage_fix_agent.Coordinator.Verify.{
  move_participant, move_migration, record_preparation, commit_verified_candidate, participant_move,
  migration_move,
}
use data_lineage_fix_agent.Coordinator.Approve as A

perform-transition_participant :
    (id : String) (m : P.Move) (s : Store)
    → (transition_participant id m s).1 ≡ perform (S.move_participant id m) s
unfolding perform
perform-transition_participant id m s = refl

perform-transition_migration :
    (id : String) (m : M.Move) (s : Store)
    → (transition_migration id m s).1 ≡ perform (S.move_migration id m) s
unfolding perform
perform-transition_migration id m s = refl

perform-record_approval :
    (receipt : ApprovalReceipt) (s : Store)
    → (record_approval receipt s).1 ≡ perform (S.approve receipt) s
unfolding perform
perform-record_approval receipt s = refl

module _ (i : String) (R : Store → Type 0) (stable : IsStable R) (sv : Services)
    (permitted : (h : History) → All IsPermitted (sv.others h)) (cfg : Settings) where
  move_participant-Keeps :
      (id : String) (target from : ParticipantStatus) (version : ℕ) (event_type : String)
      (payload : Payload) (sha : Option String) (links : Option (List String))
      → (event_type == gate_armed_event) ≡ false
      → (event_type == abort_reserved_event) ≡ false
      → Keeps
          (IsSound i R)
          (move_participant sv cfg id target from version event_type payload sha links)
  unfolding move_participant
  move_participant-Keeps id target from version event_type payload sha links a b =
      on_store-Keeps i R stable sv permitted _
        (λ now.
          S.move_participant id
            (participant_move target from version event_type payload sha links now))
        (λ _. literal_open event_type a b)
        (λ now.
          perform-transition_participant id
            (participant_move target from version event_type payload sha links now))

  pub move_migration-Keeps :
      (id : String) (target from : MigrationStatus) (version : ℕ) (event_type : String)
      (payload : Payload)
      → (event_type == gate_armed_event) ≡ false
      → (event_type == abort_reserved_event) ≡ false
      → Keeps (IsSound i R) (move_migration sv cfg id target from version event_type payload)
  unfolding move_migration
  move_migration-Keeps id target from version event_type payload a b =
      on_store-Keeps i R stable sv permitted _
        (λ now. S.move_migration id (migration_move target from version event_type payload now))
        (λ _. literal_open event_type a b)
        (λ now.
          perform-transition_migration id
            (migration_move target from version event_type payload now))

  record_approval-Keeps :
      (receipt : ApprovalReceipt) → Keeps (IsSound i R) (on_store sv (λ _. record_approval receipt))
  record_approval-Keeps receipt =
      on_store-Keeps i R stable sv permitted _ (λ _. S.approve receipt) (λ _. tt)
        (λ _. perform-record_approval receipt)

  record_preparation-Keeps :
      (p : Participant) (suffix : String) → Keeps (IsSound i R) (record_preparation sv cfg p suffix)
  unfolding record_preparation
  record_preparation-Keeps p suffix =
      search (keeps_rules, write_evidence-Keeps i R stable sv permitted cfg)

  commit_verified_candidate-Keeps :
      (p : Participant) (version : ℕ) (result : PreparationResult) (session : RepositorySession)
      (envelope : CandidateEnvelope)
      → Keeps (IsSound i R) (commit_verified_candidate sv cfg p version result session envelope)
  unfolding commit_verified_candidate
  commit_verified_candidate-Keeps p version result session envelope =
      search
        (
          keeps_rules,
          write_evidence-Keeps i R stable sv permitted cfg,
          move_participant-Keeps,
          quiet_ask-Keeps i R stable,
        )
        depth 20

  module _ (id : String) where
    proposal_request-Keeps :
        (intent : ChangeIntent) (p : Participant) (session : RepositorySession)
        (context : DataHubMigrationContext)
        → Keeps (IsSound i R) (proposal_request sv cfg id intent p session context)
    unfolding proposal_request
    proposal_request-Keeps intent p session context =
        search (keeps_rules, quiet_ask-Keeps i R stable) depth 12

    settle-Keeps :
        (p : Participant) (version : ℕ) (result : PreparationResult) (session : RepositorySession)
        (envelope : CandidateEnvelope)
        → Keeps (IsSound i R) (settle sv cfg id p version result session envelope)
    unfolding settle
    settle-Keeps p version result session envelope =
        search
          (
            keeps_rules,
            commit_verified_candidate-Keeps,
            move_participant-Keeps,
            quiet_ask-Keeps i R stable,
          )
          depth 20

    pub prepare_participant-Keeps :
        (roots : List (String × String)) (intent : ChangeIntent) (context : DataHubMigrationContext)
        (participant_id : String)
        → Keeps (IsSound i R) (prepare_participant sv cfg id roots intent context participant_id)
    unfolding prepare_participant
    prepare_participant-Keeps roots intent context participant_id =
        search
          (
            keeps_rules,
            proposal_request-Keeps,
            record_preparation-Keeps,
            settle-Keeps,
            move_participant-Keeps,
            remember-Keeps i R stable,
            query-Keeps i R stable sv permitted,
            quiet_ask-Keeps i R stable,
          )
          depth 30

    pub finish_prepare-Keeps :
        (version : ℕ) (decision : DiscoveryDecision)
        → Keeps (IsSound i R) (finish_prepare sv cfg id version decision)
    unfolding finish_prepare
    finish_prepare-Keeps version decision =
        search
          (
            keeps_rules,
            move_migration-Keeps,
            capture_and_seal-Keeps i R stable sv permitted cfg,
            writeback-Keeps i R stable sv permitted cfg,
            query-Keeps i R stable sv permitted,
          )
          depth 30

    pub required_discovery-Keeps : Keeps (IsSound i R) (required_discovery sv cfg id)
    unfolding required_discovery
    required_discovery-Keeps = search keeps_rules

    pub apply_accepted-Keeps :
        (m : MigrationRecord) (p : Participant) (approval : OwnerApproval)
        (verified : Option VerifiedGitHubApproval) (pending : A.Pending)
        → Keeps (IsSound i R) (A.apply_accepted sv cfg id m p approval verified pending)
    unfolding A.apply_accepted
    apply_accepted-Keeps m p approval verified pending =
        search
          (
            keeps_rules,
            record_approval-Keeps,
            move_participant-Keeps,
            move_migration-Keeps,
            record_preparation-Keeps,
            commit_verified_candidate-Keeps,
            required_discovery-Keeps,
            write_evidence-Keeps i R stable sv permitted cfg,
            capture_and_seal-Keeps i R stable sv permitted cfg,
            writeback-Keeps i R stable sv permitted cfg,
            remember-Keeps i R stable,
            query-Keeps i R stable sv permitted,
            quiet_ask-Keeps i R stable,
          )
          depth 40
