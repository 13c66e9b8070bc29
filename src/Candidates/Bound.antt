-- ===== src/Candidates/Bound.antt =====
-- lineagetx/proposals.py: what an accepted candidate is bound to.
use data_lineage_fix_agent.Candidates.Structure.{
  snapshot_hashes, expected_hashes, same_hashes, is_expected_type, shared,
}
use data_lineage_fix_agent.Candidates.{
  [], same_set, safe_paths, CandidateProposal, ProposalRequest, Readers,
}
use data_lineage_fix_agent.Prelude.{String, ◌≡◌, true, some, List}

-- The candidate belongs to the participant of the request, renames the fields of the intent, stays
-- within the files of the participant, and expects the files as they were read.
pub record IsBound (rd : Readers) (q : ProposalRequest) (p : CandidateProposal) : Type 0 where
  pub migration : (shared p).migration_id ≡ q.intent.migration_id
  pub participant : (shared p).participant_id ≡ q.participant.participant_id
  pub old : (shared p).old_field ≡ q.intent.old_field
  pub new : (shared p).new_field ≡ q.intent.new_field
  pub kind : is_expected_type q.participant.kind p ≡ true
  pub paths : List String
  pub safe : safe_paths rd (shared p).allowed_paths ≡ some paths
  pub allowed : same_set paths q.participant.files ≡ true
  pub hashes : same_hashes (expected_hashes p) (snapshot_hashes q.files []) ≡ true
