-- ===== src/Models/RoundTrip.antt =====
-- lineagetx/models.py: `ChangeIntent` through its dictionary and back.
use data_lineage_fix_agent.Prelude.{ok, ◌≡◌, refl, sym, subst, ◌∙◌, eq_iff, arith}
use data_lineage_fix_agent.Models.Runtime.{Runtime}
use data_lineage_fix_agent.Models.Status.{RolloutPhase, contract, phase_value, phase_of_value}
use data_lineage_fix_agent.Models.Intent.{
  ChangeIntent, new, to_dict, from_dict, get_item, derive_intent_sha256, identity, check_fields,
}

phase_of_value-phase_value : (p : RolloutPhase) → phase_of_value (phase_value p) ≡ ok p
unfolding phase_of_value phase_value
phase_of_value-phase_value contract = refl

-- The dictionary is read back field by field.
from_dict-to_dict : (rt : Runtime) (i : ChangeIntent) → from_dict rt (to_dict i) ≡ new rt i
unfolding from_dict to_dict get_item
from_dict-to_dict rt i = rw (phase_of_value-phase_value i.rollout_phase) refl

-- The record that construction gives for an intent.
abbrev signed : Runtime → ChangeIntent → ChangeIntent
signed rt i = record i { intent_sha256 = derive_intent_sha256 rt i }

signed-check_fields :
    (rt : Runtime) (i : ChangeIntent) → check_fields rt (signed rt i) ≡ check_fields rt i
unfolding check_fields
signed-check_fields rt i = refl

signed-derive :
    (rt : Runtime) (i : ChangeIntent)
    → derive_intent_sha256 rt (signed rt i) ≡ derive_intent_sha256 rt i
unfolding derive_intent_sha256 identity
signed-derive rt i = refl

signed-new :
    (rt : Runtime) (i j : ChangeIntent)
    → new rt i ≡ ok j
    → (j ≡ signed rt i) × (new rt (signed rt i) ≡ ok (signed rt i))
unfolding new
signed-new rt i j h = (
  ground arith,
  rw (signed-derive rt i, signed-check_fields rt i)
      (ground (arith, eq_iff (derive_intent_sha256 rt i) (derive_intent_sha256 rt i))),
)

-- Construction is repeatable: a constructed intent passes its own checks and comes out unchanged.
new-new : (rt : Runtime) (i j : ChangeIntent) → new rt i ≡ ok j → new rt j ≡ ok j
new-new rt i j h =
    let built = signed-new rt i j h in subst (λ k. new rt k ≡ ok k) (sym built.0) built.1

-- Every intent that the code has constructed is read back from its dictionary as it was.
pub intent_roundtrip :
    (rt : Runtime) (i j : ChangeIntent) → new rt i ≡ ok j → from_dict rt (to_dict j) ≡ ok j
intent_roundtrip rt i j made = from_dict-to_dict rt j ∙ new-new rt i j made
