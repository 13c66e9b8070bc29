-- ===== src/Examples/PolicyRuns.antt =====
-- A discovery that the policy accepts: tests, and the theorems about it.
use Prim.Native.Char.{code}
use data_lineage_fix_agent.Prelude.{
  ◌-◌, String, true, false, ◌&&◌, none, some, List, [], ◌∷◌, ok, ◌≡◌, refl, inl, inr, In, leb,
  if◌then◌else◌,
}
use data_lineage_fix_agent.Models.Runtime.{text, Mapping}
use data_lineage_fix_agent.Models.Status.{
  ParticipantKind, dbt_sql, airflow_mapping, semantic_approval, same_kind,
}
use data_lineage_fix_agent.Models.Intent.{get_item}
use data_lineage_fix_agent.Models.Participants.{Participant}
use data_lineage_fix_agent.Examples.{intent, consumer}
use data_lineage_fix_agent.Policy.Context.{
  SchemaFieldSnapshot, AssetSnapshot, ConsumerLineage, DataHubMigrationContext, Interpreter,
  findall_numbers, degree, find_asset, find_consumer,
}
use data_lineage_fix_agent.Policy.Discovery.{
  LineageTxSafetyPolicy, DiscoveryAttestation, DiscoveryDecision, new_policy, check_context,
  check_source, check_participants, degrees, check_consumers,
}
use data_lineage_fix_agent.Policy.Traces.{tools, check_traces}
use data_lineage_fix_agent.Policy.Binding.{
  expected_degree, bind_participant, bind_participants, bound_leb, insert_bound, sorted_bound,
  validate_discovery,
}
use data_lineage_fix_agent.Policy.Bindings.{
  IsMapped, discovery_maps_participants, discovery_is_exhaustive,
}
use data_lineage_fix_agent.Policy.Hops.{IsRolloutOrder, discovery_orders_by_hop}

-- The ASCII digits, and no text for other values.
abbrev python : Interpreter
python = record {
  decimal = λ c. if leb 48 (code c) && leb (code c) 57 then some (code c - 48) else none;
  str = λ _. "";
}

abbrev field : String → SchemaFieldSnapshot
field name = record { field_path = name; native_type = "INT"; nullable = none; description = "" }

abbrev asset : String → AssetSnapshot
asset urn = record {
  urn = urn;
  schema = field "customer_id" ∷ field "customer_key" ∷ [];
  governance = record {
    owner_urns = "urn:li:corpuser:ana" ∷ [];
    tag_urns = "urn:li:tag:pii" ∷ [];
    structured_properties = [];
  };
}

abbrev lineage : String → String → ConsumerLineage
lineage urn hops = record {
  urn = urn;
  degree = hops;
  columns = "customer_id" ∷ [];
  path_evidence = (("path", text urn) ∷ []) ∷ [];
}

abbrev call : String → Mapping
call name = ("tool", text name) ∷ []

abbrev context : DataHubMigrationContext
context = record {
  source_urn = "urn:li:orders";
  source_column = "customer_id";
  replacement_column = "customer_key";
  source = asset "urn:li:orders";
  consumers = lineage "b" "2 hops" ∷ lineage "c" "3+" ∷ lineage "a" "1" ∷ [];
  assets =
      ("urn:li:orders", asset "urn:li:orders")
      ∷ ("a", asset "a")
      ∷ ("b", asset "b")
      ∷ ("c", asset "c")
      ∷ [];
  tool_traces =
      call "list_schema_fields"
      ∷ call "list_schema_fields"
      ∷ call "list_schema_fields"
      ∷ call "list_schema_fields"
      ∷ call "get_lineage"
      ∷ call "get_entities"
      ∷ call "get_lineage_paths_between"
      ∷ call "get_lineage_paths_between"
      ∷ call "get_lineage_paths_between"
      ∷ [];
  transport = "datahub-oss+official-mcp";
  discovery_complete = true;
  impact_fingerprint = "";
}

abbrev attestation : DiscoveryAttestation
attestation = record { context = context; discovery_complete = true }

abbrev mapped : String → ParticipantKind → String → Participant
mapped id kind urn = record (consumer id kind) { asset_urn = urn }

abbrev participants : List Participant
participants =
    mapped "p3" semantic_approval "c"
    ∷ mapped "p1" dbt_sql "a"
    ∷ mapped "p2" airflow_mapping "b"
    ∷ []

abbrev policy : LineageTxSafetyPolicy
policy = record { expected_consumer_count = 3; allow_test_transport = false }

policy_made : new_policy 3 false ≡ ok policy
unfolding new_policy
policy_made = refl

abbrev decision : DiscoveryDecision
decision = record {
  source_urn = "urn:li:orders";
  consumer_by_participant =
      ("p3", lineage "c" "3+") ∷ ("p1", lineage "a" "1") ∷ ("p2", lineage "b" "2 hops") ∷ [];
  ordered_participant_ids = "p1" ∷ "p2" ∷ "p3" ∷ [];
  checks =
      "full_datahub_oss_official_mcp" ∷ "discovery_complete" ∷ "expanded_schema_old_and_new"
      ∷ "column_lineage_hops_1_2_3" ∷ "all_consumers_mapped_exactly_once"
      ∷ "schema_owner_and_governance_signals" ∷ "lineage_path_evidence" ∷ [];
}

accepts : validate_discovery python policy intent attestation participants ≡ ok decision
unfolding validate_discovery check_context check_source check_participants check_consumers
    check_traces degrees degree findall_numbers find_asset find_consumer tools bind_participants
    bind_participant expected_degree sorted_bound insert_bound bound_leb same_kind get_item
accepts = refl

discovery_orders_by_hop_example : IsRolloutOrder participants ("p1" ∷ "p2" ∷ "p3" ∷ [])
discovery_orders_by_hop_example =
    discovery_orders_by_hop python 3 false policy intent attestation participants decision
      policy_made accepts

discovery_maps_participants_example :
    IsMapped python intent context decision (mapped "p1" dbt_sql "a")
discovery_maps_participants_example =
    discovery_maps_participants python policy intent attestation participants decision
      (mapped "p1" dbt_sql "a") accepts (inr (inl refl))

discovery_is_exhaustive_example : (p : Participant) × In p participants × (p.asset_urn ≡ "c")
discovery_is_exhaustive_example =
    discovery_is_exhaustive python policy intent attestation participants decision
      (lineage "c" "3+") accepts (inr (inl refl))
