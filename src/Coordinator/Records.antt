-- ===== src/Coordinator/Records.antt =====
-- lineagetx/coordinator.py and lineagetx/writeback.py: the values that a write-back sends.
use Prim.Native.String.{◌++◌ as append}
use text.Mathlib.Text.{starts_with}
use data_lineage_fix_agent.Prelude.{
  String, Bool, true, false, Option, none, some, List, [], ◌∷◌, Result, ok, err, value_error,
  index_error, coordination_error, ◌>>=◌, ◌>>◌, guard, ◌=ℕ◌, elem, length, set_entry,
}
use data_lineage_fix_agent.Models.Runtime.{Runtime, require_https_url}
use data_lineage_fix_agent.Models.Text.{has_text}
use data_lineage_fix_agent.Models.Status.{status_value, participant_status_value}
use data_lineage_fix_agent.Models.Participants.{Participant}
use data_lineage_fix_agent.State.Tables.{MigrationRecord}
use data_lineage_fix_agent.Policy.Context.{DataHubMigrationContext}
use data_lineage_fix_agent.Coordinator.World.{MigrationWriteback}

abbrev pub is_there {ℓ} : {A : Type ℓ} → Option A → Bool
is_there none = false
is_there (some _) = true

-- `xs[0]`
abbrev pub first {ℓ} : {A : Type ℓ} → List A → Result A
first [] = err index_error
first (x ∷ _) = ok x

abbrev migration_states : List String
migration_states =
    "DETECTED" ∷ "PREPARING" ∷ "NEEDS_APPROVAL" ∷ "PREPARED" ∷ "COMMITTED" ∷ "ABORTED"
    ∷ "DISCOVERED" ∷ "VERIFIED" ∷ "FAILED" ∷ []

-- `MigrationWriteback.__post_init__`
unfoldable pub check_writeback : Runtime → MigrationWriteback → Result (Unit {0})
check_writeback rt v = do
  guard (has_text v.migration_id) value_error
  guard (elem v.status migration_states) value_error
  guard (starts_with v.owner "urn:li:") value_error
  require_https_url rt v.evidence_url

unfoldable pub new_writeback :
    Runtime → String → String → String → String → Result MigrationWriteback
new_writeback rt id status owner url = do
  let v : MigrationWriteback = record {
    migration_id = id;
    status = status;
    owner = owner;
    evidence_url = url;
  }
  check_writeback rt v
  ok v

-- The rest of the dict `writebacks`, one entry for each participant.
unfoldable pub participant_writebacks :
    Runtime
    → String
    → String
    → List Participant
    → List (String × MigrationWriteback)
    → Result (List (String × MigrationWriteback))
participant_writebacks rt id url [] values = ok values
participant_writebacks rt id url (p ∷ ps) values = do
  owner ← first p.owner_urns
  v ← new_writeback rt id (participant_status_value p.status) owner url
  participant_writebacks rt id url ps (set_entry p.asset_urn v values)

-- f"{self.evidence_base_url}/{migration.migration_id}/writeback/{stage}.json"
unfoldable pub stage_evidence_url : String → String → String → String
stage_evidence_url base id stage =
    append base (append "/" (append id (append "/writeback/" (append stage ".json"))))

-- The dict `writebacks`.
unfoldable pub writebacks :
    Runtime
    → MigrationRecord
    → DataHubMigrationContext
    → List Participant
    → String
    → Result (List (String × MigrationWriteback))
writebacks rt m context participants url = do
  guard (length participants =ℕ 3) coordination_error
  owner ← first context.source.governance.owner_urns
  v ← new_writeback rt m.intent.migration_id (status_value m.status) owner url
  participant_writebacks rt m.intent.migration_id url participants ((context.source_urn, v) ∷ [])
