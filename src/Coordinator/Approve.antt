-- ===== src/Coordinator/Approve.antt =====
-- lineagetx/coordinator.py: `approve`, `approve_from_github` and `_apply_approval`.
use data_lineage_fix_agent.Prelude.{
  set_entry, String, Bool, true, false, ◌&&◌, Option, none, some, List, [], ◌∷◌, filter, all,
  Exception, Result, ok, err, coordination_error, approval_verification_error, guard, require, ◌=ℕ◌,
  length,
}
use data_lineage_fix_agent.Models.Runtime.{Mapping, text, number}
use data_lineage_fix_agent.Models.Status.{
  MigrationStatus, ParticipantStatus, semantic_approval, same_status, same_participant_status,
  same_kind,
}
use data_lineage_fix_agent.Models.Participants.{Participant}
use data_lineage_fix_agent.Models.Receipts.{check_approval_receipt}
use data_lineage_fix_agent.State.Tables.{MigrationRecord, plain}
use data_lineage_fix_agent.State.Migrations.{get_migration}
use data_lineage_fix_agent.State.Participants.{get_participant, list_participants}
use data_lineage_fix_agent.State.Approvals.{record_approval}
use data_lineage_fix_agent.Policy.Approval.{OwnerApproval, validate_owner_approval}
use data_lineage_fix_agent.Policy.Recording.{receipt_for}
use data_lineage_fix_agent.Candidates.{
  CandidateEnvelope, CandidateProposal, TrustedParticipantPolicy, semantic_mapping_proposal,
}
use data_lineage_fix_agent.Coordinator.World.{
  RepositorySession, VerifiedGitHubApproval, GitHubApprovalExpectation, Services, Settings, Memory,
  verify_approval, run_adapter,
}
use data_lineage_fix_agent.Coordinator.Runs.{
  Run, pure, raise, lift, catch, ask, on_store, query, recall, remember, when, ◌>>=◌, ◌>>◌,
}
use data_lineage_fix_agent.Coordinator.Records.{is_there, first}
use data_lineage_fix_agent.Coordinator.Requests.{find_keyed}
use data_lineage_fix_agent.Coordinator.Writeback.{write_evidence, capture_and_seal, writeback}
use data_lineage_fix_agent.Coordinator.Abort.{abort_after_failure}
use data_lineage_fix_agent.Coordinator.Verify.{
  PrepareOutcome, set_keyed, results_of, move_participant, move_migration, record_preparation,
  commit_verified_candidate,
}
use data_lineage_fix_agent.Coordinator.Prepare.{required_discovery}

-- `to_owner_approval` of lineagetx/github_approval.py
unfoldable pub to_owner_approval : VerifiedGitHubApproval → OwnerApproval
to_owner_approval v = record {
  migration_id = v.migration_id;
  participant_id = v.participant_id;
  owner_urn = v.owner_urn;
  old_field = v.old_field;
  new_field = v.new_field;
  approved_at = v.approved_at;
  evidence_url = v.evidence_url;
  decision = v.decision;
}

-- The dict `verification` of the receipt.
unfoldable pub verification_of : Option VerifiedGitHubApproval → Mapping
verification_of none = []
verification_of (some v) =
    ("actor_id", number v.actor_id)
    ∷ ("actor_login", text v.actor_login)
    ∷ ("author_association", text v.author_association)
    ∷ ("evidence_sha256", text v.evidence_sha256)
    ∷ ("provider", text v.verification_provider)
    ∷ ("resource_id", number v.resource_id)
    ∷ ("resource_kind", text v.resource_kind)
    ∷ ("source_api_url", text v.source_api_url)
    ∷ []

-- What `_apply_approval` finds in the coordinator's dicts.
pub record Pending : Type 0 where
  pub session : RepositorySession
  pub envelope : CandidateEnvelope
  pub trusted : TrustedParticipantPolicy

abbrev is_semantic : CandidateProposal → Bool
is_semantic (semantic_mapping_proposal _) = true
is_semantic _ = false

unfoldable pub pending_candidate : Memory → String → String → Option Pending
unfolding find_keyed
pending_candidate m id participant_id = elim (find_keyed id participant_id m.sessions) [
  | none ↦ none
  | some session ↦ elim (find_keyed id participant_id m.proposals) [
    | none ↦ none
    | some envelope ↦ elim (find_keyed id participant_id m.trusted_policies) [
      | none ↦ none
      | some trusted ↦ some (record { session = session; envelope = envelope; trusted = trusted })
    ]
  ]
]

abbrev is_verified : Participant → Bool
is_verified p = same_participant_status p.status ParticipantStatus.verified

abbrev waits : Participant → Bool
waits p = same_participant_status p.status ParticipantStatus.needs_approval

-- The only element.
abbrev only : List Participant → Result Participant
only (p ∷ []) = ok p
only _ = err coordination_error

module _ (sv : Services) (cfg : Settings) (id : String) where
  -- The `try` of `_apply_approval`.
  unfoldable pub apply_accepted :
      MigrationRecord
      → Participant
      → OwnerApproval
      → Option VerifiedGitHubApproval
      → Pending
      → Run PrepareOutcome
  unfolding verification_of
  apply_accepted m p approval verified pending = do
    let receipt = receipt_for id m.intent p approval (verification_of verified)
    lift (check_approval_receipt sv.runtime receipt)
    on_store sv (λ _. record_approval receipt)
    moved ←
        move_participant sv cfg p.participant_id ParticipantStatus.preparing
          ParticipantStatus.needs_approval p.version "APPROVED_SEMANTIC_CANDIDATE_PREPARING"
          (("approval_evidence_url", plain (text approval.evidence_url)) ∷ []) none none
    result ← ask (run_adapter id) (λ h.
        sv.prepare_candidate h pending.session pending.envelope.proposal pending.trusted
          (some approval))
    lift
        (guard (same_participant_status result.state ParticipantStatus.verified) coordination_error)
    remember (λ w. record w { results = set_keyed id p.participant_id result w.results })
    record_preparation sv cfg moved "approved"
    current ← query sv (get_participant moved.participant_id)
    commit_verified_candidate sv cfg moved current.version result pending.session pending.envelope
    participants ← query sv (list_participants id)
    lift (guard (all is_verified participants) coordination_error)
    done ←
        move_migration sv cfg id MigrationStatus.prepared MigrationStatus.needs_approval m.version
          "ALL_CONSUMERS_PREPARED_AFTER_OWNER_APPROVAL"
          (("approved_by", plain (text approval.owner_urn)) ∷ [])
    when (is_there cfg.evidence_migration) (do
      write_evidence sv cfg "approval/owner-receipt.json"
      when (is_there verified) (write_evidence sv cfg "approval/github-verification.json"))
    capture_and_seal sv cfg "04-prepared"
    writeback sv cfg done "prepared" none
    decision ← required_discovery sv cfg id
    memory ← recall (λ w. w)
    results ← lift (results_of memory id decision.ordered_participant_ids)
    pure (record {
      migration = done;
      participants = participants;
      results = results;
      pending_approval_participant_ids = [];
    })

  -- `_apply_approval`
  unfoldable pub apply_approval : OwnerApproval → Option VerifiedGitHubApproval → Run PrepareOutcome
  unfolding pending_candidate apply_accepted
  apply_approval approval verified = do
    m ← query sv (get_migration id)
    lift (guard (same_status m.status MigrationStatus.needs_approval) coordination_error)
    p ← query sv (get_participant approval.participant_id)
    lift (guard (waits p) coordination_error)
    lift (validate_owner_approval sv.runtime m.intent p approval)
    memory ← recall (λ w. w)
    pending ← lift (require (pending_candidate memory id p.participant_id) coordination_error)
    lift (guard (is_semantic pending.envelope.proposal) coordination_error)
    catch (apply_accepted m p approval verified pending)
        (λ e. abort_after_failure sv cfg id p.participant_id e "approval")

  unfoldable pub approve : OwnerApproval → Run PrepareOutcome
  unfolding apply_approval
  approve approval = do
    lift (guard cfg.allow_test_approvals coordination_error)
    apply_approval approval none

  -- `except ApprovalVerificationError`
  unfoldable pub not_verified : {A : Type 0} → Exception → Run A
  not_verified approval_verification_error = raise coordination_error
  not_verified e = raise e

  unfoldable pub approve_from_github : String → Run PrepareOutcome
  unfolding apply_approval not_verified to_owner_approval
  approve_from_github source_api_url = do
    lift (guard cfg.has_verifier coordination_error)
    m ← query sv (get_migration id)
    lift (guard (same_status m.status MigrationStatus.needs_approval) coordination_error)
    participants ← query sv (list_participants id)
    p ← lift (only (filter waits participants))
    lift (guard (same_kind p.kind semantic_approval && length p.owner_urns =ℕ 1) coordination_error)
    owner ← lift (first p.owner_urns)
    let expectation : GitHubApprovalExpectation = record {
      migration_id = id;
      participant_id = p.participant_id;
      owner_urn = owner;
      old_field = m.intent.old_field;
      new_field = m.intent.new_field;
    }
    verified ←
        catch (ask (verify_approval id) (λ h. sv.verify h expectation source_api_url)) not_verified
    outcome ← apply_approval (to_owner_approval verified) (some verified)
    remember (λ w. record w {
      verified_github_approvals = set_entry id verified w.verified_github_approvals;
    })
    pure outcome
