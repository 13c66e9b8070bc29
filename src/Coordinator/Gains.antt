-- ===== src/Coordinator/Gains.antt =====
-- Rules for what a statement of the coordinator gives when it returns: of the world (`Gains`), or of
-- the value alone (`Yields`).
use data_lineage_fix_agent.Prelude.{
  subst, ◌≡◌, refl, arith, Bool, true, false, Exception, Result, ok, err,
}
use data_lineage_fix_agent.Coordinator.World.{World}
use data_lineage_fix_agent.Coordinator.Runs.{Run, pure, raise, lift, catch, choose, ◌>>=◌, ◌>>◌}
use data_lineage_fix_agent.Coordinator.Rules.{Keeps}

pub record Gains {A : Type 0} (P : World → Type 0) (Q : A → World → Type 0) (m : Run A)
    : Type 0 where
  pub gained : (w : World) (a : A) → P w → (m w).0 ≡ ok a → Q a (m w).1

-- A statement that only raises.
abbrev pub IsRaising : {A : Type 0} → Run A → Type 0
IsRaising m = (w : World) → (e : Exception) × ((m w).0 ≡ err e)

module _ {P : World → Type 0} where
  pub Keeps-Gains : {A : Type 0} {m : Run A} → Keeps P m → Gains P (λ _. P) m
  Keeps-Gains h = record { gained = λ w a p same. h.holds w p }

module _ {A : Type 0} {P : World → Type 0} {Q : A → World → Type 0} where
  pub pure-Gains : (a : A) → ((w : World) → P w → Q a w) → Gains P Q (pure a)
  unfolding pure
  pure-Gains a h = record { gained = λ w b p same. go a b w (h w p) same }
    where
      go : (a b : A) (w : World) → Q a w → ok a ≡ ok b → Q b w
      go a b w q same = subst (λ c. Q c w) (ground (arith, same)) q

  pub lift-Gains :
      (r : Result A) → ((a : A) → r ≡ ok a → (w : World) → P w → Q a w) → Gains P Q (lift r)
  unfolding lift
  lift-Gains r h = record { gained = λ w a p same. h a same w p }

  pub raising-Gains : (m : Run A) → IsRaising m → Gains P Q m
  raising-Gains m h = record { gained = λ w a p same. absurd (ground (arith, (h w).1, same)) }

  pub raise-Gains : (e : Exception) → Gains P Q (raise e)
  unfolding raise
  raise-Gains e = record { gained = λ w a p same. absurd (ground (arith, same)) }

  gain_caught :
      (handler : Exception → Run A) (out : Result A × World) (a : A)
      → P out.1
      → ((b : A) → out.0 ≡ ok b → Q b out.1)
      → ((e : Exception) → Gains P Q (handler e))
      → (elim out.0 as (λ _. Result A × World) [ ok b ↦ (ok b, out.1) | err e ↦ handler e out.1 ]).0
        ≡ ok a
      → Q a
          (elim out.0 as (λ _. Result A × World) [
            | ok b ↦ (ok b, out.1)
            | err e ↦ handler e out.1
          ]).1
  gain_caught handler (ok b, w) a p g k same = g a same
  gain_caught handler (err e, w) a p g k same = (k e).gained w a p same

  pub catch-Gains :
      {m : Run A} (handler : Exception → Run A)
      → Keeps P m
      → Gains P Q m
      → ((e : Exception) → Gains P Q (handler e))
      → Gains P Q (catch m handler)
  unfolding catch
  catch-Gains {m = m} handler h g k = record {
    gained = λ w a p same. gain_caught handler (m w) a (h.holds w p) (λ b. g.gained w b p) k same;
  }

  pub choose-Gains :
      (test : Bool) {m n : Run A}
      → (test ≡ true → Gains P Q m)
      → (test ≡ false → Gains P Q n)
      → Gains P Q (choose test m n)
  unfolding choose
  choose-Gains true h k = h refl
  choose-Gains false h k = k refl

module _ {A B : Type 0} {R : A → World → Type 0} {Q : B → World → Type 0} where
  gain_after :
      (f : A → Run B) (out : Result A × World) (b : B)
      → ((a : A) → out.0 ≡ ok a → R a out.1)
      → ((a : A) → Gains (R a) Q (f a))
      → (elim out.0 as (λ _. Result B × World) [ ok a ↦ f a out.1 | err e ↦ (err e, out.1) ]).0
        ≡ ok b
      → Q b (elim out.0 as (λ _. Result B × World) [ ok a ↦ f a out.1 | err e ↦ (err e, out.1) ]).1
  gain_after f (ok a, w) b g k same = (k a).gained w b (g a refl) same
  gain_after f (err e, w) b g k same = absurd (ground (arith, same))

  pub bind-Gains :
      {P : World → Type 0} {m : Run A} {f : A → Run B}
      → Gains P R m
      → ((a : A) → Gains (R a) Q (f a))
      → Gains P Q (m >>= f)
  unfolding ◌>>=◌
  bind-Gains {m = m} {f = f} g k = record {
    gained = λ w b p same. gain_after f (m w) b (λ a. g.gained w a p) k same;
  }

module _ {A B : Type 0} {P Q : World → Type 0} where
  keep_after :
      (f : A → Run B) (out : Result A × World)
      → ((w : World) → Q w → P w)
      → ((a : A) → Keeps Q (f a))
      → P out.1
      → ((a : A) → out.0 ≡ ok a → Q out.1)
      → P (elim out.0 as (λ _. Result B × World) [ ok a ↦ f a out.1 | err e ↦ (err e, out.1) ]).1
  keep_after f (ok a, w) less k h g = less _ ((k a).holds w (g a refl))
  keep_after f (err e, w) less k h g = h

  -- What is gained serves the statements that follow.
  pub gain_then-Keeps :
      {m : Run A} {n : Run B}
      → ((w : World) → Q w → P w)
      → Keeps P m
      → Gains P (λ _. Q) m
      → Keeps Q n
      → Keeps P (m >> n)
  unfolding ◌>>=◌ ◌>>◌
  gain_then-Keeps {m = m} {n = n} less h g k = record {
    holds = λ w p. keep_after (λ _. n) (m w) less (λ _. k) (h.holds w p) (λ a. g.gained w a p);
  }

module _ {A B : Type 0} (P : World → Type 0) (f : A → Run B) where
  stop_after :
      (out : Result A × World)
      → (e : Exception) × (out.0 ≡ err e)
      → P out.1
      → P (elim out.0 as (λ _. Result B × World) [ ok a ↦ f a out.1 | err e ↦ (err e, out.1) ]).1
  stop_after (err e, w) raised h = h
  stop_after (ok a, w) (e, raised) h = absurd (ground (arith, raised))

  -- Nothing follows a statement that only raises.
  pub raising_bind-Keeps : {m : Run A} → Keeps P m → IsRaising m → Keeps P (m >>= f)
  unfolding ◌>>=◌
  raising_bind-Keeps {m = m} h raised = record {
    holds = λ w p. stop_after (m w) (raised w) (h.holds w p);
  }

-- What the value of a statement has, if it returns one.
pub record Yields {A : Type 0} (Q : A → Type 0) (m : Run A) : Type 0 where
  pub yielded : (w : World) (a : A) → (m w).0 ≡ ok a → Q a

module _ {A : Type 0} {Q : A → Type 0} where
  pub Gains-Yields : {m : Run A} → Gains (λ _. Unit {0}) (λ a _. Q a) m → Yields Q m
  Gains-Yields g = record { yielded = λ w a. g.gained w a tt }

  pub Yields-Gains :
      {P : World → Type 0} {m : Run A} → Keeps P m → Yields Q m → Gains P (λ a w. P w × Q a) m
  Yields-Gains k y = record { gained = λ w a p same. (k.holds w p, y.yielded w a same) }

module _ {A : Type 0} {Q : A → Type 0} where
  pub pure-Yields : (a : A) → Q a → Yields Q (pure a)
  pure-Yields a q = Gains-Yields (pure-Gains a (λ _ _. q))

module _ {A B : Type 0} {Q : B → Type 0} where
  pub bind-Yields : (m : Run A) {f : A → Run B} → ((a : A) → Yields Q (f a)) → Yields Q (m >>= f)
  bind-Yields m k = Gains-Yields (
      bind-Gains {R = λ _ _. Unit {0}} {m = m} (record { gained = λ w a p same. tt })
        (λ a. record { gained = λ w b p. (k a).yielded w b }))

  pub then-Yields : (m : Run A) {n : Run B} → Yields Q n → Yields Q (m >> n)
  unfolding ◌>>◌
  then-Yields m k = bind-Yields m (λ _. k)

module _ {A B : Type 0} {P : World → Type 0} {Q : B → World → Type 0} where
  -- A statement of which only the invariant is used.
  pub kept-Gains :
      {m : Run A} {f : A → Run B} → Keeps P m → ((a : A) → Gains P Q (f a)) → Gains P Q (m >>= f)
  kept-Gains k g = bind-Gains (Keeps-Gains k) g

  pub kept_then-Gains : {m : Run A} {n : Run B} → Keeps P m → Gains P Q n → Gains P Q (m >> n)
  unfolding ◌>>◌
  kept_then-Gains k g = bind-Gains (Keeps-Gains k) (λ _. g)

  pub then-Gains :
      {R : World → Type 0} {m : Run A} {n : Run B}
      → Gains P (λ _. R) m
      → Gains R Q n
      → Gains P Q (m >> n)
  unfolding ◌>>◌
  then-Gains g h = bind-Gains g (λ _. h)
