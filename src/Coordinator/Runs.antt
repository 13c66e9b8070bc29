-- ===== src/Coordinator/Runs.antt =====
-- lineagetx/coordinator.py: statements that raise, catch, and call the store or a collaborator. What
-- was done before an exception stays done.
use data_lineage_fix_agent.Prelude.{
  String, Bool, true, false, Option, none, some, ◌∷◌, Exception, Result, ok, err,
}
use data_lineage_fix_agent.State.Tables.{Store}
use data_lineage_fix_agent.State.Calls.{perform_all}
use data_lineage_fix_agent.Coordinator.World.{Action, use_store, History, Memory, World, Services}

abbrev pub Run : Type 0 → Type 0
Run A = World → Result A × World

module _ {A : Type 0} where
  unfoldable pub pure : A → Run A
  pure a w = (ok a, w)

  unfoldable pub raise : Exception → Run A
  raise e w = (err e, w)

  -- A check that touches nothing.
  unfoldable pub lift : Result A → Run A
  lift r w = (r, w)

  -- `try: m` with `except Exception as error: handler(error)`
  unfoldable pub catch : Run A → (Exception → Run A) → Run A
  catch m handler w = let (r, w') = m w in elim r [ ok a ↦ (ok a, w') | err e ↦ handler e w' ]

  -- A call of a collaborator.
  unfoldable pub ask : Action → (History → Result A) → Run A
  ask action answer w = (answer w.history, record w { history = action ∷ w.history })

  -- A call of the store, which lets the other clients' calls in first.
  unfoldable pub on_store : Services → (String → Store → Result A × Store) → Run A
  on_store sv call w =
      let (r, s) = call (sv.utc_now w.history) (perform_all (sv.others w.history) w.store) in
      (r, record w { store = s; history = use_store ∷ w.history })

  -- A query of the store.
  unfoldable pub query : Services → (Store → Result A) → Run A
  unfolding on_store
  query sv f = on_store sv (λ _ s. (f s, s))

infixl 5 ◌>>=◌ ◌>>◌
unfoldable pub ◌>>=◌ : {A B : Type 0} → Run A → (A → Run B) → Run B
◌>>=◌ m f w = let (r, w') = m w in elim r [ ok a ↦ f a w' | err e ↦ (err e, w') ]

unfoldable pub ◌>>◌ : {A B : Type 0} → Run A → Run B → Run B
unfolding ◌>>=◌
m >> k = m >>= λ _. k

-- Reading and writing the coordinator's dicts.
unfoldable pub recall : {A : Type 0} → (Memory → A) → Run A
recall f w = (ok (f w.memory), w)

unfoldable pub remember : (Memory → Memory) → Run (Unit {0})
remember f w = (ok tt, record w { memory = f w.memory })

unfoldable pub when : Bool → Run (Unit {0}) → Run (Unit {0})
when test m = elim test [ true ↦ m | false ↦ pure tt ]

-- `utc_now()` outside the store.
unfoldable pub read_clock : Services → Run String
read_clock sv w = (ok (sv.utc_now w.history), w)

-- `if test: m else: n`
unfoldable pub choose : {A : Type 0} → Bool → Run A → Run A → Run A
choose test m n = elim test [ true ↦ m | false ↦ n ]

-- `if value is None: m else: f(value)`
unfoldable pub on_option : {A B : Type 0} → Option A → Run B → (A → Run B) → Run B
on_option value m f = elim value [ none ↦ m | some a ↦ f a ]
