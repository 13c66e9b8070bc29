-- ===== src/State/Tables/Unique.antt =====
-- lineagetx/state.py: the primary key of `participants`, under INSERT and UPDATE.
use mathlib.Core.List.{map-append}
use data_lineage_fix_agent.Prelude.{
  Option-cases, subst, inr, inl, ℕ, String, ◌≡◌, refl, Bool, true, false, ◌||◌, none, some, List,
  [], ◌∷◌, ◌++◌, Result, ok, err, arith, eq_iff, eq_of_==, ==-ne, ◌==◌, ◌=ℕ◌, if◌then◌else◌,
  Bool-cases, map, elem, distinct, count_where,
}
use data_lineage_fix_agent.Models.Status.{
  discovered, ParticipantStatus, same_participant_status_eq, same_participant_status,
}
use data_lineage_fix_agent.Models.Participants.{Participant, new-keeps}
use data_lineage_fix_agent.Models.Text.{is_identifier}
use data_lineage_fix_agent.State.Tables.{
  ParticipantRow, find_participant, participant_matches, update_where,
}
use data_lineage_fix_agent.State.Tables.Queries.{find_participant-append}
use data_lineage_fix_agent.State.Migrations.{
  insert_participants, insert_participant, initial_participant, row_of,
}

abbrev pub ids : List ParticipantRow → List String
ids = map (λ p. p.participant_id)

abbrev pub HasUniqueIds : List ParticipantRow → Type 0
HasUniqueIds rows = distinct (ids rows) ≡ true

pub ids-update :
    (test : ParticipantRow → Bool) (f : ParticipantRow → ParticipantRow)
    → ((q : ParticipantRow) → (f q).participant_id ≡ q.participant_id)
    → (rows : List ParticipantRow) → ids (update_where test f rows) ≡ ids rows
unfolding update_where
ids-update test f keeps [] = refl
ids-update test f keeps (r ∷ rs) = ground (arith, keeps r, ids-update test f keeps rs)

elem-append : (a b : String) (xs : List String) → elem a (xs ++ b ∷ []) ≡ elem a xs || a == b
elem-append a b [] = ground arith
elem-append a b (x ∷ xs) = ground (arith, elem-append a b xs)

find_participant-elem :
    (id : String) (rows : List ParticipantRow)
    → find_participant id rows ≡ none
    → elem id (ids rows) ≡ false
unfolding find_participant
find_participant-elem id [] h = refl
find_participant-elem id (r ∷ rs) h =
    ground
      (arith, eq_iff r.participant_id id, eq_iff id r.participant_id, find_participant-elem id rs)

distinct-append :
    (xs : List String) (b : String)
    → distinct xs ≡ true
    → elem b xs ≡ false
    → distinct (xs ++ b ∷ []) ≡ true
distinct-append [] b h n = refl
distinct-append (x ∷ xs) b h n =
    ground (arith, elem-append x b xs, eq_iff x b, eq_iff b x, distinct-append xs b)

count-absent :
    (id : String) (status : ParticipantStatus) (version : ℕ) (rows : List ParticipantRow)
    → elem id (ids rows) ≡ false
    → count_where (participant_matches id status version) rows ≡ 0
unfolding participant_matches
count-absent id status version [] h = refl
count-absent id status version (r ∷ rs) h = ground (
  arith,
  eq_iff r.participant_id id,
  eq_iff id r.participant_id,
  count-absent id status version rs,
)

head_matches :
    (id : String) (status : ParticipantStatus) (version : ℕ) (r : ParticipantRow)
    (rs : List ParticipantRow)
    → HasUniqueIds (r ∷ rs)
    → r.participant_id ≡ id
    → (count_where (participant_matches id status version) (r ∷ rs) =ℕ 1) ≡ true
    → (same_participant_status r.status status ≡ true) × (r.version ≡ version)
head_matches id status version r rs u e c =
    let rest =
      count-absent id status version rs (subst (λ j. elem j (ids rs) ≡ false) e (ground arith)) in
    unfold participant_matches in (ground (arith, rest), ground (arith, rest))

-- With unique identifiers, the one row that an UPDATE matches is the one that a SELECT finds.
pub found_of_count :
    (id : String) (status : ParticipantStatus) (version : ℕ) (rows : List ParticipantRow)
    → HasUniqueIds rows
    → (count_where (participant_matches id status version) rows =ℕ 1) ≡ true
    → (q : ParticipantRow) × (find_participant id rows ≡ some q)
      × (q.status ≡ status)
      × (q.version ≡ version)
unfolding find_participant
found_of_count id status version [] u c = absurd (ground arith)
found_of_count id status version (r ∷ rs) u c = elim (Bool-cases (r.participant_id == id)) [
  | inl e ↦
      let (st, v) = head_matches id status version r rs u (eq_of_== _ _ e) c in
      (r, ground arith, same_participant_status_eq r.status status st, v)
  | inr n ↦
      let (q, found, st, v) =
        found_of_count id status version rs (ground arith)
          (unfold participant_matches in ground arith) in
      (q, ground arith, st, v)
]

-- What an INSERT of participants leaves: the rows that were there, and rows that are as discovered.
pub record IsInserted (rows rows' : List ParticipantRow) : Type 0 where
  pub unique : HasUniqueIds rows → HasUniqueIds rows'
  pub named : find_participant "" rows ≡ none → find_participant "" rows' ≡ none
  pub kept :
      (id : String) (p : ParticipantRow)
      → find_participant id rows ≡ some p
      → find_participant id rows' ≡ some p
  pub fresh :
      (id : String) (p : ParticipantRow)
      → find_participant id rows ≡ none
      → find_participant id rows' ≡ some p
      → (p.status ≡ discovered) × (p.version ≡ 0)

identifier_has_char : (s : String) → is_identifier s ≡ true → (s == "") ≡ false
unfolding is_identifier
identifier_has_char String.[] h = absurd (ground arith)
identifier_has_char (String.◌∷◌ c s) h = ==-ne (String.◌∷◌ c s) "" (λ e. cc)

append-IsInserted :
    (q : Participant) (rows : List ParticipantRow)
    → find_participant q.participant_id rows ≡ none
    → q.status ≡ discovered
    → (q.participant_id == "") ≡ false
    → IsInserted rows (rows ++ row_of q ∷ [])
unfolding row_of
append-IsInserted q rows absent st named = record {
  unique = λ u. rw map-append (
      distinct-append (ids rows) q.participant_id u
        (find_participant-elem q.participant_id rows absent));
  named = λ n. rw (find_participant-append, n, named) refl;
  kept = λ id p h. rw (find_participant-append, h) refl;
  fresh = λ id p n h.
      let e : (if q.participant_id == id then some (row_of q) else none) ≡ some p =
        rw (find_participant-append, n) at h in
      (ground (arith, e), ground (arith, e));
}

insert_participant-IsInserted :
    (p : Participant) (rows rows' : List ParticipantRow)
    → insert_participant p rows ≡ ok rows'
    → IsInserted rows rows'
unfolding insert_participant
insert_participant-IsInserted p rows rows' h = go (initial_participant p) refl
  where
    go : (r : Result Participant) → initial_participant p ≡ r → IsInserted rows rows'
    go (err e) c = absurd (ground arith)
    go (ok q) c =
        let parts = new-keeps (record p { status = discovered; version = 0 }) c in
        let absent : find_participant q.participant_id rows ≡ none = ground arith in
        let after : rows ++ row_of q ∷ [] ≡ rows' = ground arith in
        subst (IsInserted rows) after (
          append-IsInserted q rows absent parts.4
            (rw parts.2 (identifier_has_char p.participant_id parts.7)))

pub IsInserted-trans :
    (a b c : List ParticipantRow) → IsInserted a b → IsInserted b c → IsInserted a c
IsInserted-trans a b c p q = record {
  unique = λ u. q.unique (p.unique u);
  named = λ n. q.named (p.named n);
  kept = λ id r h. q.kept id r (p.kept id r h);
  fresh = λ id r n h. elim (Option-cases (find_participant id b)) [
    | inl none_yet ↦ q.fresh id r none_yet h
    | inr (x, there) ↦
        let same : x ≡ r = ground (arith, q.kept id x there) in
        subst (λ y. (y.status ≡ discovered) × (y.version ≡ 0)) same (p.fresh id x n there)
  ];
}

pub insert_participants-IsInserted :
    (ps : List Participant) (rows rows' : List ParticipantRow)
    → insert_participants ps rows ≡ ok rows'
    → IsInserted rows rows'
unfolding insert_participants
insert_participants-IsInserted [] rows rows' h = subst (IsInserted rows) (ground arith) (record {
  unique = λ u. u;
  named = λ n. n;
  kept = λ id p f. f;
  fresh = λ id p n f. absurd (ground arith);
})
insert_participants-IsInserted (p ∷ ps) rows rows' h =
    go (insert_participants-IsInserted ps) (insert_participant p rows) refl
  where
    go :
        ((mid rows' : List ParticipantRow)
          → insert_participants ps mid ≡ ok rows'
          → IsInserted mid rows')
        → (r : Result (List ParticipantRow)) → insert_participant p rows ≡ r
        → IsInserted rows rows'
    go rest (err e) c = absurd (ground arith)
    go rest (ok mid) c =
        IsInserted-trans rows mid rows' (insert_participant-IsInserted p rows mid c)
          (rest mid rows' (ground arith))
