-- ===== src/Policy/Hops.antt =====
-- lineagetx/policy.py: the order that `validate_discovery` puts the participants in.
use data_lineage_fix_agent.Prelude.{
  ℕ, if◌then◌else◌, String, Bool, false, List, [], ◌∷◌, map, ok, ◌≡◌, refl, sym, subst, ap, ◌∙◌,
  arith, filter,
}
use data_lineage_fix_agent.Models.Status.{
  ParticipantKind, dbt_sql, airflow_mapping, semantic_approval, same_kind,
}
use data_lineage_fix_agent.Models.Intent.{ChangeIntent}
use data_lineage_fix_agent.Models.Participants.{Participant}
use data_lineage_fix_agent.Policy.Context.{ConsumerLineage, DataHubMigrationContext, Interpreter}
use data_lineage_fix_agent.Policy.Discovery.{
  LineageTxSafetyPolicy, DiscoveryAttestation, DiscoveryDecision, check_participants, new_policy,
}
use data_lineage_fix_agent.Policy.Binding.{
  Bound, sorted_bound, insert_bound, bound_leb, expected_degree, validate_discovery,
}
use data_lineage_fix_agent.Policy.Bindings.{
  Binds, bind_participants-Binds, validate_discovery-IsAccepted,
}

-- The IDs of the participants of a kind.
abbrev pub ids_of : ParticipantKind → List Participant → List String
ids_of k ps = map (λ p. p.participant_id) (filter (λ p. same_kind p.kind k) ps)

-- One participant of each kind, in the order of the hops: dbt, Airflow, semantic.
abbrev pub IsRolloutOrder : List Participant → List String → Type 0
IsRolloutOrder ps ids =
    (a : String) × (b : String) × (c : String) × (ids_of dbt_sql ps ≡ a ∷ [])
    × (ids_of airflow_mapping ps ≡ b ∷ [])
    × (ids_of semantic_approval ps ≡ c ∷ [])
    × (ids ≡ a ∷ b ∷ c ∷ [])

-- Three participants, one of each kind.
Permuted : List Participant → Type 0
Permuted ps =
    (p : Participant) × (q : Participant) × (r : Participant) × (ps ≡ p ∷ q ∷ r ∷ [])
    × (same_kind p.kind q.kind ≡ false)
    × (same_kind p.kind r.kind ≡ false)
    × (same_kind q.kind r.kind ≡ false)

check_participants-Permuted :
    (policy : LineageTxSafetyPolicy) (cs : List ConsumerLineage) (ps : List Participant)
    → policy.expected_consumer_count ≡ 3
    → check_participants policy cs ps ≡ ok tt
    → Permuted ps
unfolding check_participants same_kind Permuted
check_participants-Permuted policy cs [] n h = absurd (ground arith)
check_participants-Permuted policy cs (p ∷ []) n h = absurd (ground arith)
check_participants-Permuted policy cs (p ∷ q ∷ []) n h = absurd (ground arith)
check_participants-Permuted policy cs (p ∷ q ∷ r ∷ s ∷ ps) n h = absurd (ground arith)
check_participants-Permuted policy cs (p ∷ q ∷ r ∷ []) n h =
    (p, q, r, refl, ground arith, ground arith, ground arith)

-- The ID of the one of three participants that has a kind.
abbrev id_at : ParticipantKind → Participant → Participant → Participant → String
id_at k p q r =
    if same_kind p.kind k
    then p.participant_id
    else if same_kind q.kind k
    then q.participant_id
    else r.participant_id

module _ (p q r : Participant) (pq : same_kind p.kind q.kind ≡ false)
    (pr : same_kind p.kind r.kind ≡ false) (qr : same_kind q.kind r.kind ≡ false) where
  ids_of-three : (k : ParticipantKind) → ids_of k (p ∷ q ∷ r ∷ []) ≡ id_at k p q r ∷ []
  unfolding same_kind
  ids_of-three dbt_sql = ground arith
  ids_of-three airflow_mapping = ground arith
  ids_of-three semantic_approval = ground arith

  sorted_bound-three :
      (a b c : Bound)
      → a.id ≡ p.participant_id
      → b.id ≡ q.participant_id
      → c.id ≡ r.participant_id
      → a.hop ≡ expected_degree p.kind
      → b.hop ≡ expected_degree q.kind
      → c.hop ≡ expected_degree r.kind
      → map (λ b. b.id) (sorted_bound (a ∷ b ∷ c ∷ []))
        ≡ id_at dbt_sql p q r ∷ id_at airflow_mapping p q r ∷ id_at semantic_approval p q r ∷ []
  unfolding same_kind sorted_bound insert_bound bound_leb expected_degree
  sorted_bound-three a b c i j k l m n = ground arith

  IsRolloutOrder-three :
      (py : Interpreter) (intent : ChangeIntent) (context : DataHubMigrationContext)
      (bs : List Bound) (ids : List String)
      → Binds py intent context (p ∷ q ∷ r ∷ []) bs
      → ids ≡ map (λ b. b.id) (sorted_bound bs)
      → IsRolloutOrder (p ∷ q ∷ r ∷ []) ids
  IsRolloutOrder-three py intent context bs ids binds ordered =
      let (a, bs1, ea, ia, ha, _, (b, bs2, eb, ib, hb, _, (c, bs3, ec, ic, hc, _, en))) = binds in
      let all : bs ≡ a ∷ b ∷ c ∷ [] = ground arith in
      (
        id_at dbt_sql p q r,
        id_at airflow_mapping p q r,
        id_at semantic_approval p q r,
        ids_of-three dbt_sql,
        ids_of-three airflow_mapping,
        ids_of-three semantic_approval,
        ordered
            ∙ ap (λ l. map (λ b. b.id) (sorted_bound l)) all
            ∙ sorted_bound-three a b c ia ib ic ha hb hc,
      )

-- A discovery that a policy as constructed accepts has one participant of each kind and orders them
-- by hop: the dbt consumer, the Airflow consumer, the semantic consumer.
pub discovery_orders_by_hop :
    (py : Interpreter) (count : ℕ) (allow : Bool) (policy : LineageTxSafetyPolicy)
    (intent : ChangeIntent) (att : DiscoveryAttestation) (ps : List Participant)
    (d : DiscoveryDecision)
    → new_policy count allow ≡ ok policy
    → validate_discovery py policy intent att ps ≡ ok d
    → IsRolloutOrder ps d.ordered_participant_ids
unfolding new_policy Permuted
discovery_orders_by_hop py count allow policy intent att ps d made h =
    let accepted = validate_discovery-IsAccepted py policy intent att ps d h in
    let binds = bind_participants-Binds py intent att.context ps accepted.bound accepted.binds in
    let three =
      check_participants-Permuted policy att.context.consumers ps (ground arith)
        accepted.participants in
    let (p, q, r, e, pq, pr, qr) = three in
    subst (λ l. IsRolloutOrder l d.ordered_participant_ids) (sym e)
      (IsRolloutOrder-three p q r pq pr qr py intent att.context accepted.bound
        d.ordered_participant_ids
        (subst (λ l. Binds py intent att.context l accepted.bound) e binds) accepted.ordered)
