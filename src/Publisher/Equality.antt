-- ===== src/Publisher/Equality.antt =====
-- Equality of the frozen dataclasses that the publisher compares, field by field.
use native.Mathlib.Decide.{ℕ_discrete}
use data_lineage_fix_agent.Prelude.{Bool, refl, String, ◌≡◌, true, false, ◌==◌, eq_iff, arith}
use data_lineage_fix_agent.Publisher.Requests.{PublicationRequest, PublicationStage}

unfoldable String-discrete : Discrete String
String-discrete s t = decide (s == t) refl
  where
    decide : (b : Bool) → (s == t) ≡ b → Dec (s ≡ t)
    decide true e = yes ((eq_iff s t).0 e)
    decide false e = no (λ same. ground (arith, eq_iff s t))

unfoldable pub PublicationRequest-discrete : Discrete PublicationRequest
unfolding String-discrete ℕ_discrete
PublicationRequest-discrete = hlevel (ℕ_discrete, String-discrete)

unfoldable pub PublicationStage-discrete : Discrete PublicationStage
unfolding String-discrete
PublicationStage-discrete = hlevel (String-discrete)
