-- ===== src/Examples/CandidateRuns.antt =====
-- A semantic candidate for one document, and the theorem about it.
use data_lineage_fix_agent.Candidates.{
  semantic_mapping_proposal, Readers, CandidateEnvelope, ProposalRequest, CandidateProposal,
}
use data_lineage_fix_agent.Prelude.{some, none, [], ◌∷◌}
use data_lineage_fix_agent.Models.Status.{ParticipantKind}
use data_lineage_fix_agent.Examples.{intent, consumer}

abbrev readers : Readers
readers = record { safe_relative_path = λ p. some p; table_names = λ _. none }

abbrev request : ProposalRequest
request = record {
  intent = intent;
  participant = consumer "c3" ParticipantKind.semantic_approval;
  files = record { relative_path = "models/orders.sql"; sha256 = "hash"; content = "text" } ∷ [];
  expanded_columns = "customer_id" ∷ "customer_key" ∷ [];
  contract_columns = "customer_key" ∷ [];
}

abbrev proposal : CandidateProposal
proposal = semantic_mapping_proposal (record {
  migration_id = "ltx-1";
  participant_id = "c3";
  relative_path = "models/orders.sql";
  expected_sha256 = "hash";
  old_field = "customer_id";
  new_field = "customer_key";
  expected_occurrences = 1;
  required_owner_urn = "urn:li:corpuser:ana";
  expanded_columns = "customer_id" ∷ "customer_key" ∷ [];
  contract_columns = "customer_key" ∷ [];
  repository = "acme/data";
  owner_urns = "urn:li:corpuser:ana" ∷ [];
})

abbrev envelope : CandidateEnvelope
envelope = record { model_id = "reference"; proposal = proposal; rationale = [] }
