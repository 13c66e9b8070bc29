-- ===== src/Policy/Bindings.antt =====
-- lineagetx/policy.py: what an accepted discovery says of every participant.
use data_lineage_fix_agent.Prelude.{
  ℕ, String, true, some, List, [], ◌∷◌, map, Result, ok, err, ◌≡◌, refl, sym, ap, ◌∙◌, inl, inr,
  arith, ◌==◌, eq_iff, eq_of_==, any, In, elem, subset, Bool-cases, Option-cases,
}
use data_lineage_fix_agent.Models.Intent.{ChangeIntent}
use data_lineage_fix_agent.Models.Participants.{Participant}
use data_lineage_fix_agent.Policy.Context.{
  ConsumerLineage, AssetSnapshot, DataHubMigrationContext, Interpreter, degree, find_asset,
  find_consumer,
}
use data_lineage_fix_agent.Policy.Discovery.{
  LineageTxSafetyPolicy, DiscoveryAttestation, DiscoveryDecision, check_participants,
  check_consumers, fields,
}
use data_lineage_fix_agent.Policy.Binding.{
  Bound, bind_participant, bind_participants, sorted_bound, expected_degree, validate_discovery,
}

-- What one round of the loop has checked when it goes on.
pub record IsBinding (py : Interpreter) (intent : ChangeIntent) (context : DataHubMigrationContext)
    (p : Participant) (c : ConsumerLineage) : Type 0 where
  pub asset : AssetSnapshot
  pub owned : p.migration_id ≡ intent.migration_id
  pub found : find_consumer p.asset_urn context.consumers ≡ some c
  pub hop : degree py c.degree ≡ ok (expected_degree p.kind)
  pub column : elem intent.old_field c.columns ≡ true
  pub described : find_asset c.urn context.assets ≡ some asset
  pub complete : subset c.columns (fields asset) ≡ true
  pub shared : any (λ o. elem o asset.governance.owner_urns) p.owner_urns ≡ true

bind_participant-IsBinding :
    (py : Interpreter) (intent : ChangeIntent) (context : DataHubMigrationContext) (p : Participant)
    (c : ConsumerLineage) (n : ℕ)
    → bind_participant py intent context p ≡ ok (c, n)
    → IsBinding py intent context p c × (n ≡ expected_degree p.kind)
unfolding bind_participant
bind_participant-IsBinding py intent context p c n h =
    elim (Option-cases (find_consumer p.asset_urn context.consumers)) [
      | inl e ↦ absurd (ground arith)
      | inr (c', e) ↦ go c' e (degree py c'.degree) refl
    ]
  where
    go :
        (c' : ConsumerLineage)
        → find_consumer p.asset_urn context.consumers ≡ some c'
        → (r : Result ℕ) → degree py c'.degree ≡ r
        → IsBinding py intent context p c × (n ≡ expected_degree p.kind)
    go c' e (err x) d = absurd (ground arith)
    go c' e (ok m) d = elim (Option-cases (find_asset c'.urn context.assets)) [
      | inl none_found ↦ absurd (ground arith)
      | inr (a, described) ↦
          let same : c' ≡ c = ground arith in
          let hop : n ≡ expected_degree p.kind = ground arith in
          (
            record {
              asset = a;
              owned = eq_of_== _ _ (ground arith);
              found = ground arith;
              hop = ground arith;
              column = ground arith;
              described = ground arith;
              complete = ground arith;
              shared = ground arith;
            },
            hop,
          )
    ]

-- A decision comes from checked participants that are all bound.
pub record IsAccepted (py : Interpreter) (policy : LineageTxSafetyPolicy) (intent : ChangeIntent)
    (att : DiscoveryAttestation) (ps : List Participant) (d : DiscoveryDecision) : Type 0 where
  pub bound : List Bound
  pub participants : check_participants policy att.context.consumers ps ≡ ok tt
  pub consumers : check_consumers py att.context ps ≡ ok tt
  pub binds : bind_participants py intent att.context ps ≡ ok bound
  pub ordered : d.ordered_participant_ids ≡ map (λ b. b.id) (sorted_bound bound)
  pub mapping : d.consumer_by_participant ≡ map (λ b. (b.id, b.consumer)) bound

pub validate_discovery-IsAccepted :
    (py : Interpreter) (policy : LineageTxSafetyPolicy) (intent : ChangeIntent)
    (att : DiscoveryAttestation) (ps : List Participant) (d : DiscoveryDecision)
    → validate_discovery py policy intent att ps ≡ ok d
    → IsAccepted py policy intent att ps d
unfolding validate_discovery
validate_discovery-IsAccepted py policy intent att ps d h =
    go (bind_participants py intent att.context ps) refl
  where
    go :
        (r : Result (List Bound))
        → bind_participants py intent att.context ps ≡ r
        → IsAccepted py policy intent att ps d
    go (err e) b = absurd (ground arith)
    go (ok bs) b = record {
      bound = bs;
      participants = ground arith;
      consumers = ground arith;
      binds = b;
      ordered = ground arith;
      mapping = ground arith;
    }

-- Participants and what the loop has bound them to, one by one.
abbrev pub Binds :
    Interpreter → ChangeIntent → DataHubMigrationContext → List Participant → List Bound → Type 0
Binds py intent context [] bs = bs ≡ []
Binds py intent context (p ∷ ps) bs =
    (b : Bound) × (rest : List Bound) × (bs ≡ b ∷ rest)
    × (b.id ≡ p.participant_id)
    × (b.hop ≡ expected_degree p.kind)
    × IsBinding py intent context p b.consumer
    × Binds py intent context ps rest

pub bind_participants-Binds :
    (py : Interpreter) (intent : ChangeIntent) (context : DataHubMigrationContext)
    (ps : List Participant) (bs : List Bound)
    → bind_participants py intent context ps ≡ ok bs
    → Binds py intent context ps bs
unfolding bind_participants
bind_participants-Binds py intent context [] bs h = ground arith
bind_participants-Binds py intent context (p ∷ ps) bs h =
    go (bind_participant py intent context p) refl (bind_participants py intent context ps) refl
      (bind_participants-Binds py intent context ps)
  where
    go :
        (r : Result (ConsumerLineage × ℕ))
        → bind_participant py intent context p ≡ r
        → (t : Result (List Bound)) → bind_participants py intent context ps ≡ t
        → ((rest : List Bound)
            → bind_participants py intent context ps ≡ ok rest
            → Binds py intent context ps rest)
        → Binds py intent context (p ∷ ps) bs
    go (err x) e t f ih = absurd (ground arith)
    go (ok (c, n)) e (err x) f ih = absurd (ground arith)
    go (ok (c, n)) e (ok rest) f ih =
        let one = bind_participant-IsBinding py intent context p c n e in
        (
          record { id = p.participant_id; consumer = c; hop = n },
          rest,
          ground arith,
          refl,
          one.1,
          one.0,
          ih rest f,
        )

-- A participant among them is bound.
Binds-In :
    (py : Interpreter) (intent : ChangeIntent) (context : DataHubMigrationContext)
    (ps : List Participant) (bs : List Bound) (p : Participant)
    → Binds py intent context ps bs
    → In p ps
    → (c : ConsumerLineage) × In {A = String × ConsumerLineage}
        (p.participant_id, c)
        (map (λ b. (b.id, b.consumer)) bs)
      × IsBinding py intent context p c
Binds-In py intent context [] bs p binds here = absurd here
Binds-In py intent context (q ∷ qs) bs p (b, rest, e, i, n, one, more) (inl same) = (
  b.consumer,
  rw (e) (inl (ap (λ x. (x, b.consumer)) (ap (λ x. x.participant_id) same ∙ sym i))),
  rw (same) one,
)
Binds-In py intent context (q ∷ qs) bs p (b, rest, e, i, n, one, more) (inr later) =
    let found = Binds-In py intent context qs rest p more later in
    (found.0, rw (e) (inr found.1), found.2)

-- An owner that a participant and an asset have in common.
any-owner :
    (os ps : List String)
    → any (λ o. elem o os) ps ≡ true
    → (o : String) × (elem o ps ≡ true) × (elem o os ≡ true)
any-owner os [] h = absurd (ground arith)
any-owner os (p ∷ ps) h = elim (Bool-cases (elem p os)) [
  | inl e ↦ (p, ground (arith, eq_iff p p), e)
  | inr e ↦ let later = any-owner os ps (ground arith) in (later.0, ground arith, later.2)
]

find_consumer-In :
    (urn : String) (cs : List ConsumerLineage) (c : ConsumerLineage)
    → find_consumer urn cs ≡ some c
    → In c cs × (c.urn ≡ urn)
unfolding find_consumer
find_consumer-In urn [] c h = absurd (ground arith)
find_consumer-In urn (d ∷ ds) c h = elim (Bool-cases (d.urn == urn)) [
  | inl e ↦ (inl (ground arith), ground (arith, eq_iff d.urn urn))
  | inr e ↦ let later = find_consumer-In urn ds c (ground arith) in (inr later.0, later.1)
]

-- What an accepted discovery says of a participant: it is mapped to a consumer of the context that
-- stands for its asset, at the hop of its kind, with the removed column, and shares an owner with
-- the asset's governance.
pub record IsMapped (py : Interpreter) (intent : ChangeIntent) (context : DataHubMigrationContext)
    (d : DiscoveryDecision) (p : Participant) : Type 0 where
  pub consumer : ConsumerLineage
  pub asset : AssetSnapshot
  pub owner : String
  pub entry :
      In {A = String × ConsumerLineage} (p.participant_id, consumer) d.consumer_by_participant
  pub owned : p.migration_id ≡ intent.migration_id
  pub impacted : In consumer context.consumers
  pub same_asset : consumer.urn ≡ p.asset_urn
  pub hop : degree py consumer.degree ≡ ok (expected_degree p.kind)
  pub column : elem intent.old_field consumer.columns ≡ true
  pub described : find_asset consumer.urn context.assets ≡ some asset
  pub complete : subset consumer.columns (fields asset) ≡ true
  pub accountable : elem owner p.owner_urns ≡ true
  pub governed : elem owner asset.governance.owner_urns ≡ true

-- If a discovery is accepted, every participant is mapped by the decision to a consumer of the
-- context: the consumer of its asset, at the hop of its kind, with the removed column in its
-- lineage, its columns in the asset's schema, and an owner that the asset's governance names too.
pub discovery_maps_participants :
    (py : Interpreter) (policy : LineageTxSafetyPolicy) (intent : ChangeIntent)
    (att : DiscoveryAttestation) (ps : List Participant) (d : DiscoveryDecision) (p : Participant)
    → validate_discovery py policy intent att ps ≡ ok d
    → In p ps
    → IsMapped py intent att.context d p
discovery_maps_participants py policy intent att ps d p h here =
    let accepted = validate_discovery-IsAccepted py policy intent att ps d h in
    let binds = bind_participants-Binds py intent att.context ps accepted.bound accepted.binds in
    let found = Binds-In py intent att.context ps accepted.bound p binds here in
    let one = found.2 in
    let place = find_consumer-In p.asset_urn att.context.consumers found.0 one.found in
    let shared = any-owner one.asset.governance.owner_urns p.owner_urns one.shared in
    record {
      consumer = found.0;
      asset = one.asset;
      owner = shared.0;
      entry = rw accepted.mapping found.1;
      owned = one.owned;
      impacted = place.0;
      same_asset = place.1;
      hop = one.hop;
      column = one.column;
      described = one.described;
      complete = one.complete;
      accountable = shared.1;
      governed = shared.2;
    }

elem-In :
    (u : String) (ps : List Participant)
    → elem u (map (λ p. p.asset_urn) ps) ≡ true
    → (p : Participant) × In p ps × (p.asset_urn ≡ u)
elem-In u [] h = absurd (ground arith)
elem-In u (p ∷ ps) h = elim (Bool-cases (u == p.asset_urn)) [
  | inl e ↦ (p, inl refl, sym (eq_of_== _ _ e))
  | inr e ↦ let later = elem-In u ps (ground arith) in (later.0, inr later.1, later.2)
]

subset-urn :
    (cs : List ConsumerLineage) (c : ConsumerLineage) (us : List String)
    → subset (map (λ c. c.urn) cs) us ≡ true
    → In c cs
    → elem c.urn us ≡ true
subset-urn [] c us h here = absurd here
subset-urn (d ∷ ds) c us h (inl e) = rw (e) (ground arith)
subset-urn (d ∷ ds) c us h (inr later) = subset-urn ds c us (ground arith) later

check_consumers-covers :
    (py : Interpreter) (context : DataHubMigrationContext) (ps : List Participant)
    → check_consumers py context ps ≡ ok tt
    → subset (map (λ c. c.urn) context.consumers) (map (λ p. p.asset_urn) ps) ≡ true
unfolding check_consumers
check_consumers-covers py context ps h = ground arith

-- If a discovery is accepted, no impacted consumer is left out: each is the asset of a participant.
pub discovery_is_exhaustive :
    (py : Interpreter) (policy : LineageTxSafetyPolicy) (intent : ChangeIntent)
    (att : DiscoveryAttestation) (ps : List Participant) (d : DiscoveryDecision)
    (c : ConsumerLineage)
    → validate_discovery py policy intent att ps ≡ ok d
    → In c att.context.consumers
    → (p : Participant) × In p ps × (p.asset_urn ≡ c.urn)
discovery_is_exhaustive py policy intent att ps d c h here =
    let accepted = validate_discovery-IsAccepted py policy intent att ps d h in
    let covered = check_consumers-covers py att.context ps accepted.consumers in
    elem-In c.urn ps (subset-urn att.context.consumers c _ covered here)
