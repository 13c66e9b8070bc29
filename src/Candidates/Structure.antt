-- ===== src/Candidates/Structure.antt =====
-- lineagetx/proposals.py: `assert_structured_candidate`.
use data_lineage_fix_agent.Candidates.{
  semantic_mapping_proposal, same_set, airflow_mapping_proposal, safe_paths, CandidateEnvelope,
  dbt_sql_proposal, CandidateProposal, Readers, ProposalRequest, FileSnapshot,
}
use data_lineage_fix_agent.Prelude.{
  String, Bool, true, false, ◌&&◌, none, some, List, [], ◌∷◌, all, Result, ok, err, proposal_error,
  index_error, ◌>>=◌, ◌>>◌, guard, require, ◌==◌, ◌=ℕ◌, length, lookup, set_entry,
}
use data_lineage_fix_agent.Models.Status.{
  ParticipantKind, dbt_sql, airflow_mapping, semantic_approval,
}

-- What the three proposals have in common; the paths are those of their property `allowed_paths`.
pub record Shared : Type 0 where
  pub migration_id : String
  pub participant_id : String
  pub old_field : String
  pub new_field : String
  pub repository : String
  pub owner_urns : List String
  pub expanded_columns : List String
  pub contract_columns : List String
  pub allowed_paths : List String

unfoldable pub shared : CandidateProposal → Shared
shared (dbt_sql_proposal p) = record {
  migration_id = p.migration_id;
  participant_id = p.participant_id;
  old_field = p.old_field;
  new_field = p.new_field;
  repository = p.repository;
  owner_urns = p.owner_urns;
  expanded_columns = p.expanded_columns;
  contract_columns = p.contract_columns;
  allowed_paths = p.relative_path ∷ [];
}
shared (airflow_mapping_proposal p) = record {
  migration_id = p.migration_id;
  participant_id = p.participant_id;
  old_field = p.old_field;
  new_field = p.new_field;
  repository = p.repository;
  owner_urns = p.owner_urns;
  expanded_columns = p.expanded_columns;
  contract_columns = p.contract_columns;
  allowed_paths = p.python_relative_path ∷ p.json_relative_path ∷ [];
}
shared (semantic_mapping_proposal p) = record {
  migration_id = p.migration_id;
  participant_id = p.participant_id;
  old_field = p.old_field;
  new_field = p.new_field;
  repository = p.repository;
  owner_urns = p.owner_urns;
  expanded_columns = p.expanded_columns;
  contract_columns = p.contract_columns;
  allowed_paths = p.relative_path ∷ [];
}

-- `type(proposal) is expected_type`
unfoldable pub is_expected_type : ParticipantKind → CandidateProposal → Bool
is_expected_type dbt_sql (dbt_sql_proposal _) = true
is_expected_type airflow_mapping (airflow_mapping_proposal _) = true
is_expected_type semantic_approval (semantic_mapping_proposal _) = true
is_expected_type _ _ = false

abbrev same_texts : List String → List String → Bool
same_texts [] [] = true
same_texts (s ∷ ss) (t ∷ ts) = s == t && same_texts ss ts
same_texts _ _ = false

-- A dict from paths to hashes, and the equality of two.
abbrev pub Hashes : Type 0
Hashes = List (String × String)

abbrev has_hash : Hashes → String × String → Bool
has_hash known e = elim (lookup e.0 known) [ none ↦ false | some sha ↦ sha == e.1 ]

unfoldable pub same_hashes : Hashes → Hashes → Bool
same_hashes xs ys = all (has_hash ys) xs && all (has_hash xs) ys

unfoldable pub snapshot_hashes : List FileSnapshot → Hashes → Hashes
snapshot_hashes [] known = known
snapshot_hashes (f ∷ fs) known = snapshot_hashes fs (set_entry f.relative_path f.sha256 known)

-- The hashes that a proposal expects.
unfoldable pub expected_hashes : CandidateProposal → Hashes
expected_hashes (dbt_sql_proposal p) = (p.relative_path, p.expected_sha256) ∷ []
expected_hashes (airflow_mapping_proposal p) =
    set_entry p.json_relative_path p.expected_json_sha256
      ((p.python_relative_path, p.expected_python_sha256) ∷ [])
expected_hashes (semantic_mapping_proposal p) = (p.relative_path, p.expected_sha256) ∷ []

-- The tables of the first file.
unfoldable pub stored_relations : Readers → ProposalRequest → Result (List String)
stored_relations rd q = elim q.files [
  | [] ↦ err index_error
  | f ∷ _ ↦ require (rd.table_names f.content) proposal_error
]

-- The checks of one type of proposal.
unfoldable pub check_type : Readers → ProposalRequest → CandidateProposal → Result (Unit {0})
unfolding stored_relations
check_type rd q (dbt_sql_proposal p) = do
  guard (p.dialect == "duckdb") proposal_error
  relations ← stored_relations rd q
  guard (same_set relations (p.relation ∷ [])) proposal_error
check_type rd q (airflow_mapping_proposal p) = do
  guard (p.assignment_name == "FIELD_MAPPING") proposal_error
  guard (p.config_key == "field_mapping") proposal_error
check_type rd q (semantic_mapping_proposal p) = do
  guard (length q.participant.owner_urns =ℕ 1) proposal_error
  guard (same_texts q.participant.owner_urns (p.required_owner_urn ∷ [])) proposal_error

-- The fields that every proposal repeats.
unfoldable pub check_shared : ProposalRequest → Shared → Result (Unit {0})
check_shared q c = do
  guard (c.migration_id == q.intent.migration_id) proposal_error
  guard (c.participant_id == q.participant.participant_id) proposal_error
  guard (c.old_field == q.intent.old_field) proposal_error
  guard (c.new_field == q.intent.new_field) proposal_error
  guard (c.repository == q.participant.repository) proposal_error
  guard (same_texts c.owner_urns q.participant.owner_urns) proposal_error
  guard (same_texts c.expanded_columns q.expanded_columns) proposal_error
  guard (same_texts c.contract_columns q.contract_columns) proposal_error

unfoldable pub assert_structured_candidate :
    Readers → ProposalRequest → CandidateEnvelope → Result CandidateProposal
unfolding shared is_expected_type same_hashes snapshot_hashes expected_hashes check_type
    check_shared
assert_structured_candidate rd q envelope = do
  let proposal = envelope.proposal
  guard (is_expected_type q.participant.kind proposal) proposal_error
  check_shared q (shared proposal)
  paths ← require (safe_paths rd (shared proposal).allowed_paths) proposal_error
  guard (same_set paths q.participant.files) proposal_error
  check_type rd q proposal
  guard (same_hashes (expected_hashes proposal) (snapshot_hashes q.files [])) proposal_error
  ok proposal
