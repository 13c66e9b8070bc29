-- ===== src/Coordinator/Names.antt =====
-- lineagetx/coordinator.py: `type(error).__name__` and `sorted` on texts.
use data_lineage_fix_agent.Prelude.{
  String, true, false, List, [], ◌∷◌, str_leb, Exception, value_error, key_error, integrity_error,
  migration_not_found, migration_already_exists, participant_not_found, state_conflict,
  illegal_state_transition, preparation_guard_failed, commit_guard_failed, approval_guard_failed,
  verification_guard_failed, parent_migration_terminal, abort_cleanup_failed,
  publication_reconciliation_required, policy_violation, publication_error, candidate_rejected,
  coordination_error, resume_snapshot_error, approval_verification_error, proposal_error,
  evidence_error, index_error, other_error,
}

-- type(error).__name__
unfoldable pub exception_name : Exception → String
exception_name value_error = "ValueError"
exception_name key_error = "KeyError"
exception_name integrity_error = "IntegrityError"
exception_name migration_not_found = "MigrationNotFound"
exception_name migration_already_exists = "MigrationAlreadyExists"
exception_name participant_not_found = "ParticipantNotFound"
exception_name state_conflict = "StateConflict"
exception_name illegal_state_transition = "IllegalStateTransition"
exception_name preparation_guard_failed = "PreparationGuardFailed"
exception_name commit_guard_failed = "CommitGuardFailed"
exception_name approval_guard_failed = "ApprovalGuardFailed"
exception_name verification_guard_failed = "VerificationGuardFailed"
exception_name parent_migration_terminal = "ParentMigrationTerminal"
exception_name abort_cleanup_failed = "AbortCleanupFailed"
exception_name publication_reconciliation_required = "PublicationReconciliationRequired"
exception_name policy_violation = "PolicyViolation"
exception_name publication_error = "PublicationError"
exception_name candidate_rejected = "CandidateRejected"
exception_name coordination_error = "CoordinationError"
exception_name resume_snapshot_error = "ResumeSnapshotError"
exception_name approval_verification_error = "ApprovalVerificationError"
exception_name proposal_error = "ProposalError"
exception_name evidence_error = "EvidenceError"
exception_name index_error = "IndexError"
exception_name (other_error name) = name

unfoldable pub insert_text : String → List String → List String
insert_text s [] = s ∷ []
insert_text s (t ∷ ts) = elim (str_leb s t) [ true ↦ s ∷ t ∷ ts | false ↦ t ∷ insert_text s ts ]

-- `sorted(values)`
unfoldable pub sorted_texts : List String → List String
sorted_texts [] = []
sorted_texts (s ∷ ss) = insert_text s (sorted_texts ss)
