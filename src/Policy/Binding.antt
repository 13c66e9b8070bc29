-- ===== src/Policy/Binding.antt =====
-- lineagetx/policy.py: the loop of `validate_discovery` over the participants, and its decision.
use data_lineage_fix_agent.Prelude.{
  ℕ, String, Bool, true, false, ◌&&◌, ◌||◌, List, [], ◌∷◌, map, Result, ok, key_error,
  policy_violation, ◌>>=◌, ◌>>◌, require, ◌==◌, ◌=ℕ◌, ltb, str_leb, any, elem, subset,
}
use data_lineage_fix_agent.Models.Status.{
  ParticipantKind, dbt_sql, airflow_mapping, semantic_approval,
}
use data_lineage_fix_agent.Models.Intent.{ChangeIntent}
use data_lineage_fix_agent.Models.Participants.{Participant}
use data_lineage_fix_agent.Policy.Context.{
  ConsumerLineage, DataHubMigrationContext, Interpreter, degree, find_asset, find_consumer,
}
use data_lineage_fix_agent.Policy.Discovery.{
  LineageTxSafetyPolicy, DiscoveryAttestation, DiscoveryDecision, check_context, check_source,
  check_participants, check_consumers, fields, is_some_list, refuse_unless,
}
use data_lineage_fix_agent.Policy.Traces.{check_traces}

unfoldable pub expected_degree : ParticipantKind → ℕ
expected_degree dbt_sql = 1
expected_degree airflow_mapping = 2
expected_degree semantic_approval = 3

-- One round of the loop: the consumer of a participant, and its hop.
unfoldable pub bind_participant :
    Interpreter
    → ChangeIntent
    → DataHubMigrationContext
    → Participant
    → Result (ConsumerLineage × ℕ)
bind_participant py intent context p = do
  refuse_unless (p.migration_id == intent.migration_id)
  consumer ← require (find_consumer p.asset_urn context.consumers) key_error
  hop ← degree py consumer.degree
  refuse_unless (hop =ℕ expected_degree p.kind)
  refuse_unless (elem intent.old_field consumer.columns)
  refuse_unless (is_some_list consumer.path_evidence)
  asset ← require (find_asset consumer.urn context.assets) policy_violation
  refuse_unless (subset consumer.columns (fields asset))
  refuse_unless (is_some_list asset.governance.owner_urns)
  refuse_unless (is_some_list p.owner_urns)
  refuse_unless (any (λ o. elem o asset.governance.owner_urns) p.owner_urns)
  ok (consumer, hop)

pub record Bound : Type 0 where
  pub id : String
  pub consumer : ConsumerLineage
  pub hop : ℕ

-- The loop. The participants' IDs are distinct by then, so `mapping` takes a new entry in each round.
unfoldable pub bind_participants :
    Interpreter → ChangeIntent → DataHubMigrationContext → List Participant → Result (List Bound)
bind_participants py intent context [] = ok []
bind_participants py intent context (p ∷ ps) = do
  found ← bind_participant py intent context p
  rest ← bind_participants py intent context ps
  ok (record { id = p.participant_id; consumer = found.0; hop = found.1 } ∷ rest)

-- The order of Python's pairs (hop, participant ID).
unfoldable pub bound_leb : Bound → Bound → Bool
bound_leb a b = ltb a.hop b.hop || a.hop =ℕ b.hop && str_leb a.id b.id

unfoldable pub insert_bound : Bound → List Bound → List Bound
insert_bound a [] = a ∷ []
insert_bound a (b ∷ bs) = elim (bound_leb a b) [ true ↦ a ∷ b ∷ bs | false ↦ b ∷ insert_bound a bs ]

-- `sorted(ordered)`
unfoldable pub sorted_bound : List Bound → List Bound
sorted_bound [] = []
sorted_bound (a ∷ bs) = insert_bound a (sorted_bound bs)

unfoldable pub validate_discovery :
    Interpreter
    → LineageTxSafetyPolicy
    → ChangeIntent
    → DiscoveryAttestation
    → List Participant
    → Result DiscoveryDecision
validate_discovery py policy intent attestation participants = do
  let context = attestation.context
  check_context policy intent attestation
  check_source intent context.source
  check_participants policy context.consumers participants
  check_consumers py context participants
  check_traces py context.tool_traces
  bound ← bind_participants py intent context participants
  ok (record {
    source_urn = context.source_urn;
    consumer_by_participant = map (λ b. (b.id, b.consumer)) bound;
    ordered_participant_ids = map (λ b. b.id) (sorted_bound bound);
    checks =
        "full_datahub_oss_official_mcp" ∷ "discovery_complete" ∷ "expanded_schema_old_and_new"
        ∷ "column_lineage_hops_1_2_3" ∷ "all_consumers_mapped_exactly_once"
        ∷ "schema_owner_and_governance_signals" ∷ "lineage_path_evidence" ∷ [];
  })
