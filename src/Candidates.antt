-- ===== src/Candidates.antt =====
-- lineagetx/proposals.py and lineagetx/participants: the records that a candidate passes through, and
-- the checks that construct them. Paths are parsed by pathlib and SQL by sqlglot: both are a parameter.
pub mod Structure
pub mod Bound
use data_lineage_fix_agent.Prelude.{
  ℕ, String, Bool, true, false, not, ◌&&◌, Option, none, some, List, [], ◌∷◌, map, Result, ok, err,
  value_error, proposal_error, index_error, candidate_rejected, ◌>>=◌, ◌>>◌, guard, require, ◌==◌,
  elem, subset, distinct,
}
use data_lineage_fix_agent.Models.Status.{
  ParticipantKind, dbt_sql, airflow_mapping, semantic_approval,
}
use data_lineage_fix_agent.Models.Intent.{ChangeIntent}
use data_lineage_fix_agent.Models.Participants.{Participant}

-- What the checks ask of pathlib and sqlglot.
pub record Readers : Type 0 where
  -- PurePosixPath(value).as_posix(); `none` for an absolute path, an empty one or one with ".."
  pub safe_relative_path : String → Option String
  -- the names of the tables that parse_one finds in a text, each once; `none` is its ParseError
  pub table_names : String → Option (List String)

pub record FileSnapshot : Type 0 where
  pub relative_path : String
  pub sha256 : String
  pub content : String

pub record ProposalRequest : Type 0 where
  pub intent : ChangeIntent
  pub participant : Participant
  pub files : List FileSnapshot
  pub expanded_columns : List String
  pub contract_columns : List String

pub record DbtSqlProposal : Type 0 where
  pub migration_id : String
  pub participant_id : String
  pub relative_path : String
  pub expected_sha256 : String
  pub old_field : String
  pub new_field : String
  pub expected_occurrences : ℕ
  pub relation : String
  pub expanded_columns : List String
  pub contract_columns : List String
  pub repository : String
  pub owner_urns : List String
  pub dialect : String

pub record AirflowMappingProposal : Type 0 where
  pub migration_id : String
  pub participant_id : String
  pub python_relative_path : String
  pub json_relative_path : String
  pub expected_python_sha256 : String
  pub expected_json_sha256 : String
  pub old_field : String
  pub new_field : String
  pub expected_mapping : List (String × String)
  pub proposed_mapping : List (String × String)
  pub expanded_columns : List String
  pub contract_columns : List String
  pub repository : String
  pub owner_urns : List String
  pub assignment_name : String
  pub config_key : String

pub record SemanticMappingProposal : Type 0 where
  pub migration_id : String
  pub participant_id : String
  pub relative_path : String
  pub expected_sha256 : String
  pub old_field : String
  pub new_field : String
  pub expected_occurrences : ℕ
  pub required_owner_urn : String
  pub expanded_columns : List String
  pub contract_columns : List String
  pub repository : String
  pub owner_urns : List String

pub data CandidateProposal : Type 0 where
  dbt_sql_proposal : DbtSqlProposal → CandidateProposal
  airflow_mapping_proposal : AirflowMappingProposal → CandidateProposal
  semantic_mapping_proposal : SemanticMappingProposal → CandidateProposal

pub record CandidateEnvelope : Type 0 where
  pub model_id : String
  pub proposal : CandidateProposal
  pub rationale : List String

pub record TrustedParticipantPolicy : Type 0 where
  pub migration_id : String
  pub participant_id : String
  pub kind : ParticipantKind
  pub repository : String
  pub allowed_paths : List String
  pub old_field : String
  pub new_field : String
  pub expanded_columns : List String
  pub contract_columns : List String
  pub owner_urns : List String
  pub asset_urn : String
  pub source_asset_urn : String
  pub intent_sha256 : String
  pub relation : Option String
  pub dialect : Option String
  pub assignment_name : Option String
  pub config_key : Option String
  pub trusted_fixture_scope : Bool

abbrev pub same_set : List String → List String → Bool
same_set xs ys = subset xs ys && subset ys xs

abbrev is_empty {ℓ} : {A : Type ℓ} → List A → Bool
is_empty [] = true
is_empty (_ ∷ _) = false

-- `_safe_relative_path` on each path, with the exception that it raises in its module
unfoldable pub safe_paths : Readers → List String → Option (List String)
safe_paths rd [] = some []
safe_paths rd (p ∷ ps) = elim (rd.safe_relative_path p) [
  | none ↦ none
  | some q ↦ elim (safe_paths rd ps) [ none ↦ none | some qs ↦ some (q ∷ qs) ]
]

-- The columns that both checks ask for.
unfoldable pub check_columns : String → String → List String → List String → Result (Unit {0})
check_columns old new expanded contract = do
  guard (subset (old ∷ new ∷ []) expanded) value_error
  guard (not (elem old contract) && elem new contract) value_error

-- `ProposalRequest.__post_init__`
unfoldable pub check_proposal_request : Readers → ProposalRequest → Result (Unit {0})
unfolding safe_paths check_columns
check_proposal_request rd q = do
  guard (q.participant.migration_id == q.intent.migration_id) value_error
  let paths = map (λ f. f.relative_path) q.files
  expected ← require (safe_paths rd q.participant.files) proposal_error
  guard (distinct paths) value_error
  guard (same_set paths expected) value_error
  check_columns q.intent.old_field q.intent.new_field q.expanded_columns q.contract_columns

abbrev is_some_of : Option String → String → Bool
is_some_of none wanted = false
is_some_of (some value) wanted = value == wanted

abbrev has_value : Option String → Bool
has_value none = false
has_value (some value) = not (value == "")

abbrev is_absent : Option String → Bool
is_absent none = true
is_absent (some _) = false

-- The settings of the adapter, by the kind of the participant.
unfoldable pub check_settings : TrustedParticipantPolicy → Result (Unit {0})
check_settings t = elim t.kind [
  | dbt_sql ↦ (do
    guard (has_value t.relation && is_some_of t.dialect "duckdb") value_error
    guard (is_absent t.assignment_name && is_absent t.config_key) value_error)
  | airflow_mapping ↦ (do
    guard (is_absent t.relation && is_absent t.dialect) value_error
    guard (is_some_of t.assignment_name "FIELD_MAPPING" && is_some_of t.config_key "field_mapping")
        value_error)
  | semantic_approval ↦
      guard
        (is_absent t.relation
          && is_absent t.dialect
          && is_absent t.assignment_name
          && is_absent t.config_key)
        value_error
]

-- `TrustedParticipantPolicy.__post_init__`, which gives back the policy with its paths in normal form
unfoldable pub new_policy_of : Readers → TrustedParticipantPolicy → Result TrustedParticipantPolicy
unfolding safe_paths check_columns check_settings
new_policy_of rd t = do
  paths ← require (safe_paths rd t.allowed_paths) candidate_rejected
  guard (distinct paths && not (is_empty paths)) value_error
  guard (not (t.repository == "") && not (is_empty t.owner_urns)) value_error
  guard (not (t.asset_urn == "") && not (t.source_asset_urn == "") && not (t.intent_sha256 == ""))
      value_error
  guard (not (t.old_field == t.new_field)) value_error
  guard (distinct t.expanded_columns) value_error
  guard (distinct t.contract_columns) value_error
  check_columns t.old_field t.new_field t.expanded_columns t.contract_columns
  check_settings t
  ok (record t { allowed_paths = paths })

-- `TrustedParticipantPolicy.from_records`, whose settings are the last four arguments
unfoldable pub from_records :
    Readers
    → ProposalRequest
    → Option String
    → Option String
    → Option String
    → Option String
    → Result TrustedParticipantPolicy
unfolding new_policy_of
from_records rd q relation dialect assignment_name config_key = do
  guard (q.participant.migration_id == q.intent.migration_id) value_error
  new_policy_of rd (record {
    migration_id = q.intent.migration_id;
    participant_id = q.participant.participant_id;
    kind = q.participant.kind;
    repository = q.participant.repository;
    allowed_paths = q.participant.files;
    old_field = q.intent.old_field;
    new_field = q.intent.new_field;
    expanded_columns = q.expanded_columns;
    contract_columns = q.contract_columns;
    owner_urns = q.participant.owner_urns;
    asset_urn = q.participant.asset_urn;
    source_asset_urn = q.intent.source_asset_urn;
    intent_sha256 = q.intent.intent_sha256;
    relation = relation;
    dialect = dialect;
    assignment_name = assignment_name;
    config_key = config_key;
    trusted_fixture_scope = true;
  })

-- The one relation that the SQL of the first file names.
unfoldable pub trusted_relation : Readers → ProposalRequest → Result String
trusted_relation rd q = elim q.files [
  | [] ↦ err index_error
  | f ∷ _ ↦ elim (rd.table_names f.content) [
    | none ↦ err proposal_error
    | some names ↦ elim names [ name ∷ [] ↦ ok name | _ ↦ err proposal_error ]
  ]
]

-- `_trusted_policy` of lineagetx/coordinator.py
unfoldable pub trusted_policy : Readers → ProposalRequest → Result TrustedParticipantPolicy
unfolding from_records trusted_relation
trusted_policy rd q = elim q.participant.kind [
  | dbt_sql ↦ (do
    relation ← trusted_relation rd q
    from_records rd q (some relation) (some "duckdb") none none)
  | airflow_mapping ↦ from_records rd q none none (some "FIELD_MAPPING") (some "field_mapping")
  | semantic_approval ↦ from_records rd q none none none none
]
