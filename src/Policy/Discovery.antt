-- ===== src/Policy/Discovery.antt =====
-- lineagetx/policy.py: `LineageTXSafetyPolicy.validate_discovery`, in the order of its checks.
use data_lineage_fix_agent.Prelude.{
  ℕ, String, Bool, true, false, ◌&&◌, ◌||◌, List, [], ◌∷◌, map, Result, ok, value_error,
  policy_violation, ◌>>=◌, ◌>>◌, guard, ◌==◌, ◌=ℕ◌, leb, if◌then◌else◌, any, length, distinct,
  subset,
}
use data_lineage_fix_agent.Models.Runtime.{text}
use package.text.Mathlib.Text.{starts_with}
use data_lineage_fix_agent.Models.Status.{
  ParticipantKind, dbt_sql, airflow_mapping, semantic_approval, same_kind,
}
use data_lineage_fix_agent.Models.Intent.{ChangeIntent}
use data_lineage_fix_agent.Models.Participants.{Participant}
use data_lineage_fix_agent.Policy.Context.{
  AssetSnapshot, ConsumerLineage, DataHubMigrationContext, Interpreter, degree,
}

pub record DiscoveryAttestation : Type 0 where
  pub context : DataHubMigrationContext
  pub discovery_complete : Bool

pub record DiscoveryDecision : Type 0 where
  pub source_urn : String
  pub consumer_by_participant : List (String × ConsumerLineage)
  pub ordered_participant_ids : List String
  pub checks : List String

pub record LineageTxSafetyPolicy : Type 0 where
  pub expected_consumer_count : ℕ
  pub allow_test_transport : Bool

-- `LineageTXSafetyPolicy.__init__`
unfoldable pub new_policy : ℕ → Bool → Result LineageTxSafetyPolicy
new_policy count allow = do
  guard (count =ℕ 3) value_error
  ok (record { expected_consumer_count = count; allow_test_transport = allow })

abbrev pub refuse_unless : Bool → Result (Unit {0})
refuse_unless test = guard test policy_violation

-- The context is complete, official and about the intent.
unfoldable pub check_context :
    LineageTxSafetyPolicy → ChangeIntent → DiscoveryAttestation → Result (Unit {0})
check_context policy intent attestation = do
  let context = attestation.context
  refuse_unless attestation.discovery_complete
  refuse_unless context.discovery_complete
  refuse_unless (
      starts_with context.transport "datahub-oss+official-"
      || policy.allow_test_transport
        && starts_with context.transport "test-double-for-official-datahub-mcp")
  refuse_unless (context.source_urn == intent.source_asset_urn)
  refuse_unless (context.source_column == intent.old_field)
  refuse_unless (context.replacement_column == intent.new_field)

abbrev pub fields : AssetSnapshot → List String
fields asset = map (λ f. f.field_path) asset.schema

abbrev pub is_some_list {ℓ} : {A : Type ℓ} → List A → Bool
is_some_list [] = false
is_some_list (_ ∷ _) = true

-- The source has both columns, an owner and a governance signal.
unfoldable pub check_source : ChangeIntent → AssetSnapshot → Result (Unit {0})
check_source intent source = do
  refuse_unless (subset (intent.old_field ∷ intent.new_field ∷ []) (fields source))
  refuse_unless (is_some_list source.governance.owner_urns)
  refuse_unless (
      is_some_list source.governance.tag_urns
      || is_some_list source.governance.structured_properties)

abbrev has_kind : ParticipantKind → List Participant → Bool
has_kind k = any (λ p. same_kind p.kind k)

-- Three consumers, three participants, distinct, one of each kind.
unfoldable pub check_participants :
    LineageTxSafetyPolicy → List ConsumerLineage → List Participant → Result (Unit {0})
check_participants policy consumers participants = do
  refuse_unless (length consumers =ℕ policy.expected_consumer_count)
  refuse_unless (length participants =ℕ policy.expected_consumer_count)
  refuse_unless (distinct (map (λ p. p.participant_id) participants))
  refuse_unless (distinct (map (λ p. p.asset_urn) participants))
  refuse_unless (
      has_kind dbt_sql participants
      && has_kind airflow_mapping participants
      && has_kind semantic_approval participants)

unfoldable pub degrees : Interpreter → List ConsumerLineage → Result (List ℕ)
degrees py [] = ok []
degrees py (c ∷ cs) = do n ← degree py c.degree; rest ← degrees py cs; ok (n ∷ rest)

insert_number : ℕ → List ℕ → List ℕ
insert_number n [] = n ∷ []
insert_number n (m ∷ ms) = let rest = insert_number n ms in if leb n m then n ∷ m ∷ ms else m ∷ rest

sorted_numbers : List ℕ → List ℕ
sorted_numbers [] = []
sorted_numbers (n ∷ ns) = insert_number n (sorted_numbers ns)

abbrev is_one_two_three : List ℕ → Bool
is_one_two_three (a ∷ b ∷ c ∷ []) = a =ℕ 1 && b =ℕ 2 && c =ℕ 3
is_one_two_three _ = false

-- `set(xs) == set(ys)` on texts
abbrev same_set : List String → List String → Bool
same_set xs ys = subset xs ys && subset ys xs

-- The participants cover the consumers exactly, which stand at hops 1, 2 and 3.
unfoldable pub check_consumers :
    Interpreter → DataHubMigrationContext → List Participant → Result (Unit {0})
unfolding insert_number sorted_numbers
check_consumers py context participants = do
  let urns = map (λ c. c.urn) context.consumers
  refuse_unless (distinct urns)
  refuse_unless (same_set (map (λ p. p.asset_urn) participants) urns)
  hops ← degrees py context.consumers
  refuse_unless (is_one_two_three (sorted_numbers hops))
  refuse_unless (same_set (map (λ a. a.0) context.assets) (context.source_urn ∷ urns))
