-- ===== src/Coordinator/Rules.antt =====
-- Rules for invariants of the coordinator's statements: what holds before a run holds after it, also
-- when it raises.
use data_lineage_fix_agent.Prelude.{
  Bool, true, false, Option, none, some, Exception, Result, ok, err,
}
use data_lineage_fix_agent.Coordinator.World.{Memory, World, Services}
use data_lineage_fix_agent.Coordinator.Runs.{
  Run, pure, raise, lift, catch, recall, read_clock, when, choose, on_option, ◌>>=◌, ◌>>◌,
}

pub record Keeps {A : Type 0} (P : World → Type 0) (m : Run A) : Type 0 where
  pub holds : (w : World) → P w → P (m w).1

module _ {P : World → Type 0} where
  pub pure-Keeps : {A : Type 0} (a : A) → Keeps P (pure a)
  unfolding pure
  pure-Keeps a = record { holds = λ w h. h }

  pub raise-Keeps : {A : Type 0} (e : Exception) → Keeps P (raise {A = A} e)
  unfolding raise
  raise-Keeps e = record { holds = λ w h. h }

  pub lift-Keeps : {A : Type 0} (r : Result A) → Keeps P (lift r)
  unfolding lift
  lift-Keeps r = record { holds = λ w h. h }

  pub recall-Keeps : {A : Type 0} (f : Memory → A) → Keeps P (recall f)
  unfolding recall
  recall-Keeps f = record { holds = λ w h. h }

  pub read_clock-Keeps : (sv : Services) → Keeps P (read_clock sv)
  unfolding read_clock
  read_clock-Keeps sv = record { holds = λ w h. h }

  bind_after :
      {A B : Type 0} (f : A → Run B) (out : Result A × World)
      → ((a : A) → Keeps P (f a))
      → P out.1
      → P (elim out.0 as (λ _. Result B × World) [ ok a ↦ f a out.1 | err e ↦ (err e, out.1) ]).1
  bind_after f (ok a, w) k h = (k a).holds w h
  bind_after f (err e, w) k h = h

  pub bind-Keeps :
      {A B : Type 0} {m : Run A} {f : A → Run B}
      → Keeps P m
      → ((a : A) → Keeps P (f a))
      → Keeps P (m >>= f)
  unfolding ◌>>=◌
  bind-Keeps {m = m} {f = f} h k = record { holds = λ w p. bind_after f (m w) k (h.holds w p) }

  pub then-Keeps : {A B : Type 0} {m : Run A} {n : Run B} → Keeps P m → Keeps P n → Keeps P (m >> n)
  unfolding ◌>>◌
  then-Keeps h k = bind-Keeps h (λ _. k)

  caught :
      {A : Type 0} (handler : Exception → Run A) (out : Result A × World)
      → ((e : Exception) → Keeps P (handler e))
      → P out.1
      → P
          (elim out.0 as (λ _. Result A × World) [
            | ok a ↦ (ok a, out.1)
            | err e ↦ handler e out.1
          ]).1
  caught handler (ok a, w) k h = h
  caught handler (err e, w) k h = (k e).holds w h

  pub catch-Keeps :
      {A : Type 0} {m : Run A} {handler : Exception → Run A}
      → Keeps P m
      → ((e : Exception) → Keeps P (handler e))
      → Keeps P (catch m handler)
  unfolding catch
  catch-Keeps {m = m} {handler = handler} h k = record {
    holds = λ w p. caught handler (m w) k (h.holds w p);
  }

  pub when-Keeps : (test : Bool) {m : Run (Unit {0})} → Keeps P m → Keeps P (when test m)
  unfolding when
  when-Keeps true h = h
  when-Keeps false h = pure-Keeps tt

module _ {P : World → Type 0} where
  pub choose-Keeps :
      {A : Type 0} (test : Bool) {m n : Run A} → Keeps P m → Keeps P n → Keeps P (choose test m n)
  unfolding choose
  choose-Keeps true h k = h
  choose-Keeps false h k = k

  pub on_option-Keeps :
      {A B : Type 0} (value : Option A) {m : Run B} {f : A → Run B}
      → Keeps P m
      → ((a : A) → Keeps P (f a))
      → Keeps P (on_option value m f)
  unfolding on_option
  on_option-Keeps none h k = h
  on_option-Keeps (some a) h k = k a

pub ruleset keeps_rules = (
  choose-Keeps, on_option-Keeps, pure-Keeps, raise-Keeps, lift-Keeps, recall-Keeps,
  read_clock-Keeps, bind-Keeps, then-Keeps, catch-Keeps, when-Keeps,
)
