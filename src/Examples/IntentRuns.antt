-- ===== src/Examples/IntentRuns.antt =====
-- A change intent that is constructed, written and read back.
use data_lineage_fix_agent.Prelude.{ok, ◌≡◌, refl}
use data_lineage_fix_agent.Models.Runtime.{Runtime, require_utc_timestamp, require_https_url}
use data_lineage_fix_agent.Models.Text.{is_identifier, has_text, prefix}
use data_lineage_fix_agent.Models.Status.{phase_value}
use data_lineage_fix_agent.Models.Intent.{
  ChangeIntent, identity, derive_intent_sha256, expected_migration_id, check_fields, new, to_dict,
  from_dict,
}
use data_lineage_fix_agent.Models.RoundTrip.{intent_roundtrip}
use data_lineage_fix_agent.Examples.{intent, parsers}

-- A digest under which the identifier is "ltx-1".
abbrev digesting : Runtime
digesting = record parsers { canonical_json = λ _. "1" }

abbrev unsigned : ChangeIntent
unsigned = record intent { intent_sha256 = "" }

abbrev constructed : ChangeIntent
constructed = record intent { intent_sha256 = "1" }

constructs : new digesting unsigned ≡ ok constructed
unfolding new check_fields derive_intent_sha256 expected_migration_id identity is_identifier
    has_text prefix phase_value require_utc_timestamp require_https_url
constructs = refl

intent_roundtrip_example : from_dict digesting (to_dict constructed) ≡ ok constructed
intent_roundtrip_example = intent_roundtrip digesting unsigned constructed constructs
