-- ===== src/Publisher/Requests.antt =====
-- lineagetx/publisher.py: the request of a publication, and the two sets of receipts with their
-- `validate`.
use Prim.Native.String.{◌++◌ as append}
use text.Mathlib.Text.{starts_with}
use data_lineage_fix_agent.Prelude.{
  String, Bool, true, false, not, ◌&&◌, List, [], ◌∷◌, ◌++◌, map, Result, value_error,
  publication_error, ◌>>◌, guard, ◌==◌, ◌=ℕ◌, any, all, length, distinct,
}
use data_lineage_fix_agent.Models.Text.{has_text, is_commit_sha, is_branch_name}
use data_lineage_fix_agent.Models.Status.{
  candidate_commit, coordinated_pr, producer_gate_released, same_receipt_kind,
}
use data_lineage_fix_agent.Models.Intent.{ChangeIntent}
use data_lineage_fix_agent.Models.Receipts.{CoordinationReceipt}

pub record CandidateCommit : Type 0 where
  pub participant_id : String
  pub repository : String
  pub branch : String
  pub commit_sha : String
  pub changed_files : List String
  pub merged : Bool

abbrev is_some_text : List String → Bool
is_some_text [] = false
is_some_text (_ ∷ _) = true

-- `CandidateCommit.__post_init__`
unfoldable pub check_candidate : CandidateCommit → Result (Unit {0})
check_candidate c = do
  guard
      (has_text c.participant_id
        && has_text c.repository
        && has_text c.branch
        && has_text c.commit_sha)
      value_error
  guard (starts_with c.branch "lineagetx/") value_error
  guard (not c.merged) value_error
  guard (is_commit_sha c.commit_sha) value_error
  guard (is_some_text c.changed_files) value_error

pub record PublicationRequest : Type 0 where
  pub intent : ChangeIntent
  pub candidates : List CandidateCommit
  pub title : String
  pub body : String
  pub coordinated_head_branch : String
  pub coordinated_base_branch : String
  pub auto_merge : Bool

-- `PublicationRequest.__post_init__`
unfoldable pub check_request : PublicationRequest → Result (Unit {0})
check_request q = do
  guard (not q.auto_merge) value_error
  guard (length q.candidates =ℕ 3) value_error
  guard (distinct (map (λ c. c.participant_id) q.candidates)) value_error
  guard (has_text q.title && has_text q.body) value_error
  guard (is_branch_name q.coordinated_head_branch) value_error
  guard (is_branch_name q.coordinated_base_branch) value_error

pub record PublicationStage : Type 0 where
  pub candidate_receipts : List CoordinationReceipt
  pub coordinated_pr_receipt : CoordinationReceipt

-- f"refs/heads/{item.branch}"
unfoldable pub branch_ref : CandidateCommit → String
branch_ref c = append "refs/heads/" c.branch

-- Sets of pairs (reference, SHA).
abbrev pub has_commit : String → String → List (String × String) → Bool
has_commit ref sha = any (λ c. c.0 == ref && c.1 == sha)

abbrev pub commits_subset : List (String × String) → List (String × String) → Bool
commits_subset xs ys = all (λ c. has_commit c.0 c.1 ys) xs

unfoldable pub expected_commits : PublicationRequest → List (String × String)
expected_commits q = map (λ c. (branch_ref c, c.commit_sha)) q.candidates

unfoldable pub actual_commits : List CoordinationReceipt → List (String × String)
actual_commits = map (λ r. (r.reference, r.commit_sha))

-- `PublicationStage.validate`
unfoldable pub validate_stage : PublicationRequest → PublicationStage → Result (Unit {0})
validate_stage q stage = do
  let receipts = stage.candidate_receipts ++ stage.coordinated_pr_receipt ∷ []
  guard (length stage.candidate_receipts =ℕ length q.candidates) publication_error
  guard (all (λ r. r.migration_id == q.intent.migration_id) receipts) publication_error
  guard (all (λ r. not r.merged) receipts) publication_error
  guard (all (λ r. same_receipt_kind r.kind candidate_commit) stage.candidate_receipts)
      publication_error
  guard (same_receipt_kind stage.coordinated_pr_receipt.kind coordinated_pr) publication_error
  guard
      (commits_subset (actual_commits stage.candidate_receipts) (expected_commits q)
        && commits_subset (expected_commits q) (actual_commits stage.candidate_receipts))
      publication_error

pub record PublicationResult : Type 0 where
  pub candidate_receipts : List CoordinationReceipt
  pub coordinated_pr_receipt : CoordinationReceipt
  pub producer_gate_receipt : CoordinationReceipt

-- `PublicationResult.receipts`
unfoldable pub receipts : PublicationResult → List CoordinationReceipt
receipts r = r.candidate_receipts ++ r.coordinated_pr_receipt ∷ r.producer_gate_receipt ∷ []

unfoldable pub stage_of : PublicationResult → PublicationStage
stage_of r = record {
  candidate_receipts = r.candidate_receipts;
  coordinated_pr_receipt = r.coordinated_pr_receipt;
}

-- `PublicationResult.validate`
unfoldable pub validate_result : PublicationRequest → PublicationResult → Result (Unit {0})
validate_result q r = do
  validate_stage q (stage_of r)
  guard (same_receipt_kind r.producer_gate_receipt.kind producer_gate_released) publication_error
  guard (r.producer_gate_receipt.migration_id == q.intent.migration_id) publication_error
  guard (not r.producer_gate_receipt.merged) publication_error
  guard (r.producer_gate_receipt.evidence_url == r.coordinated_pr_receipt.reference)
      publication_error
