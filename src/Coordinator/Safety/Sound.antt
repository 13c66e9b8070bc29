-- ===== src/Coordinator/Safety/Sound.antt =====
-- lineagetx/coordinator.py: the invariant of the coordinator's world, and the calls that keep it.
use data_lineage_fix_agent.Prelude.{
  String, ◌≡◌, refl, sym, ap, ◌∙◌, subst, Bool, true, false, ◌||◌, inl, inr, List, [], ◌∷◌, Result,
  ok, any, All, arith, ◌==◌,
}
use data_lineage_fix_agent.State.Tables.{has_event, Store}
use data_lineage_fix_agent.State.Calls.{Call, IsPermitted, perform, perform_all}
use data_lineage_fix_agent.State.Changes.Inversion.{perform-Effect}
use data_lineage_fix_agent.State.Gate.Quiet.{is_armed, is_reserved, IsExclusive}
use data_lineage_fix_agent.State.Gate.{Effect-IsExclusive}
use data_lineage_fix_agent.State.Growth.{has_event-perform}
use data_lineage_fix_agent.Coordinator.World.{
  Action, release_gate, remove_worktree, History, Memory, World, Services,
}
use data_lineage_fix_agent.Coordinator.Runs.{ask, on_store, query, remember}
use data_lineage_fix_agent.Coordinator.Rules.{Keeps}
use data_lineage_fix_agent.Coordinator.Gains.{Gains}

abbrev pub is_release_of : String → Action → Bool
is_release_of i (release_gate id) = id == i
is_release_of i _ = false

abbrev pub is_removal_of : String → Action → Bool
is_removal_of i (remove_worktree id session) = id == i
is_removal_of i _ = false

-- Whether the publisher was asked to release the gate of a migration, or a worktree of it removed.
abbrev pub has_release : String → History → Bool
has_release i = any (is_release_of i)

abbrev pub has_removal : String → History → Bool
has_removal i = any (is_removal_of i)

-- What the store's calls keep.
abbrev pub IsStable : (Store → Type 0) → Type 0
IsStable R = (c : Call) (s : Store) → R s → R (perform c s)

-- Releases are armed, removals are reserved, and armed and reserved exclude each other; `R` holds too.
pub record IsSound (i : String) (R : Store → Type 0) (w : World) : Type 0 where
  pub exclusive : IsExclusive i w.store
  pub released : has_release i w.history ≡ true → is_armed i w.store ≡ true
  pub removed : has_removal i w.history ≡ true → is_reserved i w.store ≡ true
  pub also : R w.store

-- What a change of the store by calls gives.
record IsKept (i : String) (R : Store → Type 0) (s t : Store) : Type 0 where
  exclusive : IsExclusive i s → IsExclusive i t
  armed : is_armed i s ≡ true → is_armed i t ≡ true
  reserved : is_reserved i s ≡ true → is_reserved i t ≡ true
  also : R s → R t

module _ (i : String) (R : Store → Type 0) (stable : IsStable R) where
  perform-IsKept : (c : Call) (s : Store) → IsPermitted c → IsKept i R s (perform c s)
  perform-IsKept c s permitted = record {
    exclusive = λ x. elim (perform-Effect c s) [
      | inl kept ↦ subst (IsExclusive i) (sym kept) x
      | inr step ↦ Effect-IsExclusive i c s (perform c s) permitted step x
    ];
    armed = has_event-perform i _ c s;
    reserved = has_event-perform i _ c s;
    also = stable c s;
  }

  perform_all-IsKept :
      (cs : List Call) (s : Store) → All IsPermitted cs → IsKept i R s (perform_all cs s)
  unfolding perform_all
  perform_all-IsKept [] s permitted = record {
    exclusive = λ x. x;
    armed = λ x. x;
    reserved = λ x. x;
    also = λ x. x;
  }
  perform_all-IsKept (c ∷ cs) s (here, rest) =
      let one = perform-IsKept c s here in
      let more = perform_all-IsKept cs (perform c s) rest in
      record {
        exclusive = λ x. more.exclusive (one.exclusive x);
        armed = λ x. more.armed (one.armed x);
        reserved = λ x. more.reserved (one.reserved x);
        also = λ x. more.also (one.also x);
      }

  module _ (sv : Services) (permitted : (h : History) → All IsPermitted (sv.others h)) where
    -- A call of the store that is one of the calls of `Call`, or a query.
    pub on_store-Keeps :
        {A : Type 0} (call : String → Store → Result A × Store) (as_call : String → Call)
        → ((now : String) → IsPermitted (as_call now))
        → ((now : String) (s : Store) → (call now s).1 ≡ perform (as_call now) s)
        → Keeps (IsSound i R) (on_store sv call)
    unfolding on_store
    on_store-Keeps call as_call open_type same = record {
      holds = λ w h.
          let now = sv.utc_now w.history in
          let before = perform_all (sv.others w.history) w.store in
          let others = perform_all-IsKept (sv.others w.history) w.store (permitted w.history) in
          let own = perform-IsKept (as_call now) before (open_type now) in
          record {
            exclusive =
                subst (IsExclusive i) (sym (same now before))
                  (own.exclusive (others.exclusive h.exclusive));
            released =
                λ r. ap (is_armed i) (same now before) ∙ own.armed (others.armed (h.released r));
            removed = λ r.
                ap (is_reserved i) (same now before) ∙ own.reserved (others.reserved (h.removed r));
            also = subst R (sym (same now before)) (own.also (others.also h.also));
          };
    }

    -- A call of the store that leaves more behind when it returns.
    pub on_store-Gains :
        {A : Type 0} (Q : A → Store → Type 0) (call : String → Store → Result A × Store)
        → Keeps (IsSound i R) (on_store sv call)
        → ((now : String) (s : Store) (a : A) → (call now s).0 ≡ ok a → Q a (call now s).1)
        → Gains (IsSound i R) (λ a. IsSound i (Q a)) (on_store sv call)
    unfolding on_store
    on_store-Gains Q call keeps gain = record {
      gained = λ w a h same.
          let k = keeps.holds w h in
          record {
            exclusive = k.exclusive;
            released = k.released;
            removed = k.removed;
            also = gain _ _ a same;
          };
    }

    pub query-Keeps : {A : Type 0} (f : Store → Result A) → Keeps (IsSound i R) (query sv f)
    unfolding on_store query
    query-Keeps f = record {
      holds = λ w h.
          let others = perform_all-IsKept (sv.others w.history) w.store (permitted w.history) in
          record {
            exclusive = others.exclusive h.exclusive;
            released = λ r. others.armed (h.released r);
            removed = λ r. others.reserved (h.removed r);
            also = others.also h.also;
          };
    }

    -- What a query has found is so.
    pub query-Gains :
        {A : Type 0} (Q : A → Store → Type 0) (f : Store → Result A)
        → ((s : Store) (a : A) → f s ≡ ok a → Q a s)
        → Gains (IsSound i R) (λ a. IsSound i (Q a)) (query sv f)
    unfolding query
    query-Gains Q f found = on_store-Gains Q _ (query-Keeps f) (λ now s a e. found s a e)

  pub remember-Keeps : (f : Memory → Memory) → Keeps (IsSound i R) (remember f)
  unfolding remember
  remember-Keeps f = record {
    holds = λ w h. record {
      exclusive = h.exclusive;
      released = h.released;
      removed = h.removed;
      also = h.also;
    };
  }

  -- A call of a collaborator, if it may be made where `R` holds.
  pub ask-Keeps :
      {A : Type 0} (action : Action) (answer : History → Result A)
      → ((s : Store) → R s → is_release_of i action ≡ true → is_armed i s ≡ true)
      → ((s : Store) → R s → is_removal_of i action ≡ true → is_reserved i s ≡ true)
      → Keeps (IsSound i R) (ask action answer)
  unfolding ask
  ask-Keeps action answer may_release may_remove = record {
    holds = λ w h. record {
      exclusive = h.exclusive;
      released = λ r. either (is_release_of i action) _ r (may_release w.store h.also) h.released;
      removed = λ r. either (is_removal_of i action) _ r (may_remove w.store h.also) h.removed;
      also = h.also;
    };
  }
    where
      either : {T : Type 0} (a b : Bool) → (a || b) ≡ true → (a ≡ true → T) → (b ≡ true → T) → T
      either true b h f g = f refl
      either false b h f g = g h

  -- Most calls neither release nor remove.
  pub quiet_ask-Keeps :
      {A : Type 0} (action : Action) (answer : History → Result A)
      → is_release_of i action ≡ false
      → is_removal_of i action ≡ false
      → Keeps (IsSound i R) (ask action answer)
  quiet_ask-Keeps action answer no_release no_removal =
      ask-Keeps action answer (λ s _ e. absurd (ground arith)) (λ s _ e. absurd (ground arith))

-- Nothing else.
abbrev pub Any : Store → Type 0
Any _ = Unit

pub Any-IsStable : IsStable Any
Any-IsStable _ _ _ = tt

pub IsSound-map :
    (i : String) (R T : Store → Type 0) (w : World)
    → ((s : Store) → R s → T s)
    → IsSound i R w
    → IsSound i T w
IsSound-map i R T w f h = record {
  exclusive = h.exclusive;
  released = h.released;
  removed = h.removed;
  also = f w.store h.also;
}

pub IsSound-Any : (i : String) (R : Store → Type 0) (w : World) → IsSound i R w → IsSound i Any w
IsSound-Any i R w = IsSound-map i R Any w (λ _ _. tt)

-- What a log has it has for ever.
pub has_event-IsStable : (id ty : String) → IsStable (λ s. has_event id ty s.events ≡ true)
has_event-IsStable id ty = has_event-perform id ty
