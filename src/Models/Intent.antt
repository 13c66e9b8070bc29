-- ===== src/Models/Intent.antt =====
-- lineagetx/models.py: `ChangeIntent`, the immutable identity of one schema change.
use Prim.Native.String.{◌++◌ as append}
use data_lineage_fix_agent.Prelude.{
  ℕ, String, not, ◌&&◌, ◌||◌, Option, none, some, [], ◌∷◌, Result, ok, value_error, key_error,
  ◌>>=◌, ◌>>◌, guard, require, ◌==◌, leb, if◌then◌else◌,
}
use data_lineage_fix_agent.Models.Runtime.{
  Runtime, Mapping, Scalar, text, number, require_utc_timestamp, require_https_url, as_text,
  as_number,
}
use data_lineage_fix_agent.Models.Text.{is_identifier, has_text, prefix}
use data_lineage_fix_agent.Models.Status.{RolloutPhase, contract, phase_value, phase_of_value}

-- A record of this type need not be valid: the values that the program holds are results of `new`.
pub record ChangeIntent : Type 0 where
  pub migration_id : String
  pub producer_repository : String
  pub producer_pr_number : ℕ
  pub producer_head_sha : String
  pub source_asset_urn : String
  pub old_field : String
  pub new_field : String
  pub created_at : String
  pub producer_base_sha : String
  pub contract_schema_fingerprint : String
  pub producer_pr_url : String
  pub rollout_phase : RolloutPhase
  pub intent_sha256 : String

unfoldable pub identity : ChangeIntent → Mapping
unfolding phase_value
identity i =
    ("contract_schema_fingerprint", text i.contract_schema_fingerprint)
    ∷ ("new_field", text i.new_field)
    ∷ ("old_field", text i.old_field)
    ∷ ("producer_base_sha", text i.producer_base_sha)
    ∷ ("producer_head_sha", text i.producer_head_sha)
    ∷ ("producer_pr_number", number i.producer_pr_number)
    ∷ ("producer_repository", text i.producer_repository)
    ∷ ("rollout_phase", text (phase_value i.rollout_phase))
    ∷ ("source_asset_urn", text i.source_asset_urn)
    ∷ ("version", number 1)
    ∷ []

-- The arguments of `derive_intent_sha256` are fields of the intent.
unfoldable pub derive_intent_sha256 : Runtime → ChangeIntent → String
derive_intent_sha256 rt i = rt.sha256_hex (rt.canonical_json (identity i))

unfoldable pub expected_migration_id : String → String
unfolding prefix
expected_migration_id identity_sha = append "ltx-" (prefix 24 identity_sha)

-- The checks of `__post_init__` on the fields alone.
unfoldable pub check_fields : Runtime → ChangeIntent → Result (Unit {0})
check_fields rt i = do
  guard (is_identifier i.migration_id) value_error
  guard (has_text i.producer_repository) value_error
  guard (leb 1 i.producer_pr_number) value_error
  guard (has_text i.producer_head_sha) value_error
  guard (has_text i.producer_base_sha) value_error
  guard (not (i.producer_base_sha == i.producer_head_sha)) value_error
  guard (has_text i.contract_schema_fingerprint) value_error
  guard (has_text i.source_asset_urn) value_error
  guard (has_text i.old_field && has_text i.new_field) value_error
  guard (not (i.old_field == i.new_field)) value_error
  guard (has_text i.created_at) value_error
  require_utc_timestamp rt i.created_at
  if i.producer_pr_url == "" then ok tt else require_https_url rt i.producer_pr_url

-- `__post_init__`: the record as it is after construction.
unfoldable pub new : Runtime → ChangeIntent → Result ChangeIntent
new rt i = do
  check_fields rt i
  let identity_sha = derive_intent_sha256 rt i
  guard (i.intent_sha256 == "" || i.intent_sha256 == identity_sha) value_error
  guard (i.migration_id == expected_migration_id identity_sha) value_error
  ok (record i { intent_sha256 = identity_sha })

-- `ChangeIntent.create`: the identifier and digest are derived, whatever the argument has there.
unfoldable pub create : Runtime → ChangeIntent → Result ChangeIntent
create rt i =
    let digest = derive_intent_sha256 rt i in
    new rt (record i { migration_id = expected_migration_id digest; intent_sha256 = digest })

unfoldable pub to_dict : ChangeIntent → Mapping
unfolding phase_value
to_dict i =
    ("created_at", text i.created_at)
    ∷ ("migration_id", text i.migration_id)
    ∷ ("intent_sha256", text i.intent_sha256)
    ∷ ("new_field", text i.new_field)
    ∷ ("old_field", text i.old_field)
    ∷ ("producer_base_sha", text i.producer_base_sha)
    ∷ ("producer_head_sha", text i.producer_head_sha)
    ∷ ("producer_pr_number", number i.producer_pr_number)
    ∷ ("producer_pr_url", text i.producer_pr_url)
    ∷ ("producer_repository", text i.producer_repository)
    ∷ ("rollout_phase", text (phase_value i.rollout_phase))
    ∷ ("source_asset_urn", text i.source_asset_urn)
    ∷ ("contract_schema_fingerprint", text i.contract_schema_fingerprint)
    ∷ []

-- `value[key]`, where `none` is a KeyError
unfoldable pub get_item : String → Mapping → Option Scalar
get_item key [] = none
get_item key ((k, v) ∷ rest) = if k == key then some v else get_item key rest

-- `str(value[key])`
text_item : Runtime → String → Mapping → Result String
text_item rt key value = do item ← require (get_item key value) key_error; ok (as_text rt item)

-- `int(value[key])`
number_item : Runtime → String → Mapping → Result ℕ
number_item rt key value = do
  item ← require (get_item key value) key_error
  require (as_number rt item) value_error

-- `str(value.get(key, default))`
text_or : Runtime → String → String → Mapping → String
text_or rt key default value = elim (get_item key value) [ some v ↦ as_text rt v | none ↦ default ]

unfoldable pub from_dict : Runtime → Mapping → Result ChangeIntent
unfolding get_item text_item number_item text_or
from_dict rt value = do
  migration_id ← text_item rt "migration_id" value
  producer_repository ← text_item rt "producer_repository" value
  producer_pr_number ← number_item rt "producer_pr_number" value
  producer_base_sha ← text_item rt "producer_base_sha" value
  producer_head_sha ← text_item rt "producer_head_sha" value
  source_asset_urn ← text_item rt "source_asset_urn" value
  old_field ← text_item rt "old_field" value
  new_field ← text_item rt "new_field" value
  contract_schema_fingerprint ← text_item rt "contract_schema_fingerprint" value
  created_at ← text_item rt "created_at" value
  let producer_pr_url = text_or rt "producer_pr_url" "" value
  let phase = text_or rt "rollout_phase" (phase_value contract) value
  rollout_phase ← phase_of_value phase
  let intent_sha256 = text_or rt "intent_sha256" "" value
  new rt (record {
    migration_id = migration_id;
    producer_repository = producer_repository;
    producer_pr_number = producer_pr_number;
    producer_head_sha = producer_head_sha;
    source_asset_urn = source_asset_urn;
    old_field = old_field;
    new_field = new_field;
    created_at = created_at;
    producer_base_sha = producer_base_sha;
    contract_schema_fingerprint = contract_schema_fingerprint;
    producer_pr_url = producer_pr_url;
    rollout_phase = rollout_phase;
    intent_sha256 = intent_sha256;
  })
