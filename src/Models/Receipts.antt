-- ===== src/Models/Receipts.antt =====
-- lineagetx/models.py: the three receipts, each with the checks of its `__post_init__`, and the
-- portable paths of a cleanup receipt.
use Prim.Native.Char.{code}
use Prim.Native.String.{◌++◌ as append}
use text.Mathlib.Text.{starts_with}
use data_lineage_fix_agent.Prelude.{
  String, Bool, true, false, not, ◌&&◌, ◌||◌, List, [], ◌∷◌, Result, ok, value_error, ◌>>◌, guard,
  ◌==◌, ◌=ℕ◌, if◌then◌else◌, any, all, elem, subset, map, some, none,
}
use data_lineage_fix_agent.Models.Runtime.{
  Runtime, Mapping, require_utc_timestamp, require_https_url, as_text,
}
use data_lineage_fix_agent.Models.Text.{is_commit_sha, is_sha256, has_text}
use data_lineage_fix_agent.Models.Intent.{get_item}
use data_lineage_fix_agent.Models.Status.{
  CoordinationReceiptKind, candidate_commit, coordinated_pr, producer_gate_released,
}

pub record CoordinationReceipt : Type 0 where
  pub migration_id : String
  pub kind : CoordinationReceiptKind
  pub reference : String
  pub recorded_at : String
  pub commit_sha : String
  pub evidence_url : String
  pub merged : Bool

-- The check that belongs to the kind of a coordination receipt.
unfoldable pub check_kind :
    Runtime → CoordinationReceipt → CoordinationReceiptKind → Result (Unit {0})
check_kind rt r candidate_commit = guard (is_commit_sha r.commit_sha) value_error
check_kind rt r coordinated_pr = require_https_url rt r.reference
check_kind rt r producer_gate_released = guard (starts_with r.reference "check-run:") value_error

-- `CoordinationReceipt.__post_init__`
unfoldable pub check_coordination_receipt : Runtime → CoordinationReceipt → Result (Unit {0})
unfolding check_kind
check_coordination_receipt rt r = do
  guard (has_text r.reference) value_error
  require_utc_timestamp rt r.recorded_at
  check_kind rt r r.kind
  if r.evidence_url == "" then ok tt else require_https_url rt r.evidence_url
  guard (not r.merged) value_error

pub record ApprovalReceipt : Type 0 where
  pub migration_id : String
  pub participant_id : String
  pub owner_urn : String
  pub approved_mapping : String
  pub approved_at : String
  pub evidence_url : String
  pub verification : Mapping

abbrev required_verification : List String
required_verification =
    "actor_id" ∷ "actor_login" ∷ "author_association" ∷ "evidence_sha256" ∷ "provider"
    ∷ "resource_id" ∷ "resource_kind" ∷ "source_api_url" ∷ []

abbrev keys : Mapping → List String
keys m = map (λ e. e.0) m

-- `str(verification[key])`, with a text that no check accepts for a key that is not there.
abbrev verification_text : Runtime → String → Mapping → String
verification_text rt key m = elim (get_item key m) [ some v ↦ as_text rt v | none ↦ "" ]

unfoldable pub check_verification : Runtime → Mapping → Result (Unit {0})
unfolding get_item
check_verification rt [] = ok tt
check_verification rt (e ∷ rest) = do
  guard
      (subset (keys (e ∷ rest)) required_verification
        && subset required_verification (keys (e ∷ rest)))
      value_error
  require_https_url rt (verification_text rt "source_api_url" (e ∷ rest))
  guard (verification_text rt "provider" (e ∷ rest) == "github-rest-api-v3") value_error
  guard (is_sha256 (verification_text rt "evidence_sha256" (e ∷ rest))) value_error

-- `ApprovalReceipt.__post_init__`
unfoldable pub check_approval_receipt : Runtime → ApprovalReceipt → Result (Unit {0})
unfolding check_verification
check_approval_receipt rt r = do
  guard (starts_with r.owner_urn "urn:li:") value_error
  guard (has_text r.approved_mapping) value_error
  guard (has_text r.approved_at) value_error
  require_utc_timestamp rt r.approved_at
  require_https_url rt r.evidence_url
  check_verification rt r.verification

-- `PurePosixPath(value).parts` without the root: the pieces between slashes, less the empty ones and
-- the single dots. `piece` holds the characters of the piece that is being read, in order.
split_parts : String → String → List String
split_parts piece String.[] = if piece == "" || piece == "." then [] else piece ∷ []
split_parts piece (String.◌∷◌ c s) = elim (code c =ℕ 47) [
  | true ↦ let rest = split_parts "" s in if piece == "" || piece == "." then rest else piece ∷ rest
  | false ↦ split_parts (append piece (String.◌∷◌ c String.[])) s
]

unfoldable pub path_parts : String → List String
unfolding split_parts
path_parts value = split_parts "" value

-- `path.is_absolute() or ".." in path.parts or not path.parts`
unfoldable pub is_unsafe_path : String → Bool
is_unsafe_path value =
    let parts = path_parts value in
    starts_with value "/" || elem ".." parts || elim parts [ [] ↦ true | _ ∷ _ ↦ false ]

pub record AbortCleanupReceipt : Type 0 where
  pub migration_id : String
  pub worktrees_removed : List String
  pub candidate_branches_deleted : List String
  pub cleanup_errors : List String
  pub recorded_at : String
  pub deployed_systems_rolled_back : Bool

-- `AbortCleanupReceipt.__post_init__`
unfoldable pub check_cleanup_receipt : Runtime → AbortCleanupReceipt → Result (Unit {0})
check_cleanup_receipt rt r = do
  require_utc_timestamp rt r.recorded_at
  guard (not (any is_unsafe_path r.worktrees_removed)) value_error
  guard (all (λ branch. starts_with branch "lineagetx/") r.candidate_branches_deleted) value_error
  guard (not r.deployed_systems_rolled_back) value_error
