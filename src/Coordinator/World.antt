-- ===== src/Coordinator/World.antt =====
-- lineagetx/coordinator.py: what the coordinator holds and what it calls. The collaborators that the
-- constructor takes are an interface, `Services`: each answer may depend on every call made before
-- it, so nothing is assumed of them, nor of the other clients of the store.
use data_lineage_fix_agent.Prelude.{ℕ, String, Bool, Option, List, Result}
use data_lineage_fix_agent.Models.Runtime.{Runtime}
use data_lineage_fix_agent.Models.Status.{ParticipantStatus}
use data_lineage_fix_agent.State.Tables.{Store}
use data_lineage_fix_agent.State.Calls.{Call}
use data_lineage_fix_agent.Models.Participants.{Participant}
use data_lineage_fix_agent.Policy.Approval.{OwnerApproval}
use data_lineage_fix_agent.Candidates.{
  Readers, FileSnapshot, ProposalRequest, CandidateEnvelope, CandidateProposal,
  TrustedParticipantPolicy,
}
use data_lineage_fix_agent.Policy.Context.{DataHubMigrationContext, Interpreter}
use data_lineage_fix_agent.Policy.Discovery.{DiscoveryDecision, LineageTxSafetyPolicy}
use data_lineage_fix_agent.Publisher.Requests.{
  PublicationRequest, PublicationStage, PublicationResult,
}

-- `RepositorySession` of worktrees.py; a path is its text.
pub record RepositorySession : Type 0 where
  pub repo_id : String
  pub candidate_id : String
  pub migration_id : String
  pub base_repo : String
  pub worktree : String
  pub branch : String
  pub base_sha : String
  pub base_status : String

-- `PreparationResult` of participants/base.py, without its free-form evidence.
pub record PreparationResult : Type 0 where
  pub participant_id : String
  pub state : ParticipantStatus
  pub changed_files : List String
  pub checks : List String
  pub required_owner_urn : Option String

-- `GitHubApprovalExpectation` of github_approval.py.
pub record GitHubApprovalExpectation : Type 0 where
  pub migration_id : String
  pub participant_id : String
  pub owner_urn : String
  pub old_field : String
  pub new_field : String

-- `VerifiedGitHubApproval` of github_approval.py.
pub record VerifiedGitHubApproval : Type 0 where
  pub migration_id : String
  pub participant_id : String
  pub owner_urn : String
  pub old_field : String
  pub new_field : String
  pub approved_at : String
  pub evidence_url : String
  pub browser_url : String
  pub source_api_url : String
  pub resource_kind : String
  pub resource_id : ℕ
  pub resource_node_id : String
  pub actor_login : String
  pub actor_id : ℕ
  pub author_association : String
  pub evidence_sha256 : String
  pub verified_at : String
  pub decision : String
  pub verification_provider : String

-- `EvidenceFile` and `EvidenceManifest` of evidence.py.
pub record EvidenceFile : Type 0 where
  pub path : String
  pub sha256 : String
  pub size_bytes : ℕ

pub record EvidenceManifest : Type 0 where
  pub migration_id : String
  pub generated_at : String
  pub files : List EvidenceFile
  pub aggregate_sha256 : String
  pub schema_version : ℕ
  pub manifest_self_hash_excluded : Bool

-- `MigrationWriteback` of writeback.py.
pub record MigrationWriteback : Type 0 where
  pub migration_id : String
  pub status : String
  pub owner : String
  pub evidence_url : String

-- The calls that leave the coordinator. A worktree is removed on behalf of the migration under whose
-- key the session is known.
pub data Action : Type 0 where
  use_store : Action
  revalidate : String → Action
  write_assets : String → String → Action
  verify_approval : String → Action
  validate_candidate : RepositorySession → Action
  stage_request : String → Action
  reconcile : String → Action
  release_gate : String → Action
  remove_worktree : String → RepositorySession → Action
  prepare_worktree : String → Action
  read_files : String → Action
  propose_candidate : String → Action
  run_adapter : String → Action
  list_changes : String → Action
  commit_branch : String → Action
  read_diff : String → Action
  write_json : String → Action
  capture_state : String → Action
  seal : Action

-- The calls so far, the last one first.
abbrev pub History : Type 0
History = List Action

-- The dicts of the coordinator. A key (migration, participant) is the two fields of an entry.
pub record Keyed {ℓ} (A : Type ℓ) : Type ℓ where
  pub migration : String
  pub participant : String
  pub value : A

pub record Memory : Type 0 where
  pub contexts : List (String × DataHubMigrationContext)
  pub discoveries : List (String × DiscoveryDecision)
  pub sessions : List (Keyed RepositorySession)
  pub requests : List (Keyed ProposalRequest)
  pub proposals : List (Keyed CandidateEnvelope)
  pub trusted_policies : List (Keyed TrustedParticipantPolicy)
  pub results : List (Keyed PreparationResult)
  pub verified_github_approvals : List (String × VerifiedGitHubApproval)
  pub publications : List (String × PublicationResult)

pub record World : Type 0 where
  pub store : Store
  pub memory : Memory
  pub history : History

-- What `assert_impact_unchanged` returns, and whether it is the object that it was given.
pub record Refreshed : Type 0 where
  pub context : DataHubMigrationContext
  pub is_frozen_object : Bool

pub record Services : Type 0 where
  pub runtime : Runtime
  pub python : Interpreter
  -- utc_now()
  pub utc_now : History → String
  -- the calls of other clients that the store lets in before the next one of the coordinator
  pub others : History → List Call
  -- impact_revalidator.assert_impact_unchanged
  pub assert_impact_unchanged : History → DataHubMigrationContext → Result Refreshed
  -- migration_writer.write_assets
  pub write_back :
      History
      → List (String × MigrationWriteback)
      → Option DataHubMigrationContext
      → Result (Unit {0})
  -- approval_verifier.verify
  pub verify : History → GitHubApprovalExpectation → String → Result VerifiedGitHubApproval
  -- worktrees.validate_committed_candidate
  pub validate_committed_candidate :
      History → RepositorySession → String → List String → Result (Unit {0})
  -- worktrees.prepare of a participant, its migration, the base repository and the base commit
  pub prepare_worktree_of :
      History → Participant → String → String → Option String → Result RepositorySession
  -- the files of proposal_request_from_session
  pub read_snapshots : History → RepositorySession → List String → Result (List FileSnapshot)
  pub readers : Readers
  -- proposal_model.propose
  pub propose : History → ProposalRequest → Result CandidateEnvelope
  -- proposal_fingerprint of proposals.py
  pub proposal_fingerprint : CandidateEnvelope → String
  -- prepare of the adapter that is made for the proposal
  pub prepare_candidate :
      History
      → RepositorySession
      → CandidateProposal
      → TrustedParticipantPolicy
      → Option OwnerApproval
      → Result PreparationResult
  -- worktrees.changed_files, worktrees.commit_candidate, worktrees.diff
  pub changed_files : History → RepositorySession → Result (List String)
  pub commit_candidate : History → RepositorySession → List String → String → Result String
  pub diff : History → RepositorySession → Result String
  -- worktrees.abort
  pub abort_worktree : History → RepositorySession → Result (Unit {0})
  -- session.worktree.relative_to(self.worktrees.root).as_posix()
  pub relative_to_root : String → Result String
  -- publisher.stage, publisher.reconcile, publisher.release_gate
  pub publisher_stage : History → PublicationRequest → Result PublicationStage
  pub publisher_reconcile :
      History → PublicationRequest → PublicationStage → Result (Option PublicationResult)
  pub publisher_release_gate :
      History → PublicationRequest → PublicationStage → Result PublicationResult
  -- evidence.write_json, evidence.capture_state, and build_manifest with verify_manifest
  pub write_evidence : History → String → Result (Unit {0})
  pub capture : History → String → Result (Unit {0})
  pub build_and_verify_manifest : History → Result EvidenceManifest

-- What else the constructor takes: whether an optional collaborator is there, and the settings.
pub record Settings : Type 0 where
  pub has_revalidator : Bool
  pub has_writer : Bool
  pub has_verifier : Bool
  pub evidence_migration : Option String
  pub evidence_base_url : String
  pub allow_test_approvals : Bool
  pub safety_policy : LineageTxSafetyPolicy
