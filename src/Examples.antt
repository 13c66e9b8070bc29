-- ===== src/Examples.antt =====
-- Test data: one migration with its three consumers, and the calls of its life.
pub mod StateRuns
pub mod PolicyRuns
pub mod PublisherRuns
pub mod ApprovalRuns
pub mod IntentRuns
pub mod Coordinated
pub mod CoordinatorRuns
pub mod EvidenceRuns
pub mod CandidateRuns
pub mod ResumeRuns
use data_lineage_fix_agent.Prelude.{ℕ, String, Option, none, some, List, [], ◌∷◌, ◌++◌, false}
use data_lineage_fix_agent.Models.Status.{
  MigrationStatus, ParticipantStatus, ParticipantKind, CoordinationReceiptKind, contract,
}
use data_lineage_fix_agent.Models.Runtime.{Runtime, UrlParts, utc}
use data_lineage_fix_agent.Models.Intent.{ChangeIntent}
use data_lineage_fix_agent.Models.Participants.{Participant}
use data_lineage_fix_agent.Models.Receipts.{
  CoordinationReceipt, ApprovalReceipt, AbortCleanupReceipt,
}
use data_lineage_fix_agent.State.Migrations as M
use data_lineage_fix_agent.State.Participants as P
use data_lineage_fix_agent.State.Calls.{
  Call, create, arm, reserve, move_migration, abort, move_participant, approve,
}

abbrev pub now : String
now = "2026-07-16T09:15:07Z"

abbrev pub sha_a : String
sha_a = "aaaaaaaaaaaaaaaaaaaaaaaaaaaaaaaaaaaaaaaa"

abbrev pub intent : ChangeIntent
intent = record {
  migration_id = "ltx-1";
  producer_repository = "acme/producer";
  producer_pr_number = 7;
  producer_head_sha = "head";
  source_asset_urn = "urn:li:orders";
  old_field = "customer_id";
  new_field = "customer_key";
  created_at = now;
  producer_base_sha = "base";
  contract_schema_fingerprint = "schema";
  producer_pr_url = "";
  rollout_phase = contract;
  intent_sha256 = "sha";
}

abbrev pub consumer : String → ParticipantKind → Participant
consumer id kind = record {
  participant_id = id;
  migration_id = "ltx-1";
  kind = kind;
  asset_urn = "urn:li:asset";
  repository = "acme/data";
  owner_urns = "urn:li:corpuser:ana" ∷ [];
  files = "models/orders.sql" ∷ [];
  status = ParticipantStatus.discovered;
  version = 0;
  base_sha = "";
  candidate_commit_sha = "";
  evidence_links = [];
  created_at = now;
  updated_at = now;
}

abbrev pub move : MigrationStatus → MigrationStatus → ℕ → List CoordinationReceipt → M.Move
move from to v receipts = record {
  target = to;
  expected_status = from;
  expected_version = v;
  event_type = "MIGRATION_STATE_CHANGED";
  payload = [];
  receipts = receipts;
  now = now;
}

abbrev pub step : ParticipantStatus → ParticipantStatus → ℕ → Option String → P.Move
step from to v sha = record {
  target = to;
  expected_status = from;
  expected_version = v;
  event_type = "PARTICIPANT_STATE_CHANGED";
  payload = [];
  candidate_commit_sha = sha;
  evidence_links = none;
  now = now;
}

abbrev pub receipt : CoordinationReceiptKind → CoordinationReceipt
receipt kind = record {
  migration_id = "ltx-1";
  kind = kind;
  reference = "check-run:lineagetx";
  recorded_at = now;
  commit_sha = sha_a;
  evidence_url = "";
  merged = false;
}

abbrev pub receipts : List CoordinationReceipt
receipts =
    receipt CoordinationReceiptKind.candidate_commit
    ∷ receipt CoordinationReceiptKind.coordinated_pr
    ∷ receipt CoordinationReceiptKind.producer_gate_released
    ∷ []

abbrev pub cleanup : AbortCleanupReceipt
cleanup = record {
  migration_id = "ltx-1";
  worktrees_removed = "ltx-1/c1" ∷ [];
  candidate_branches_deleted = "lineagetx/ltx-1/c1" ∷ [];
  cleanup_errors = [];
  recorded_at = now;
  deployed_systems_rolled_back = false;
}

-- A dbt consumer on its way to VERIFIED, and a semantic one on its way to an approval.
abbrev pub opening : List Call
opening =
    create intent (consumer "c1" ParticipantKind.dbt_sql ∷ [])
    ∷ move_migration "ltx-1" (move MigrationStatus.detected MigrationStatus.preparing 0 [])
    ∷ move_participant "c1" (step ParticipantStatus.discovered ParticipantStatus.preparing 0 none)
    ∷ []

abbrev pub preparing : List Call
preparing =
    opening
    ++ move_participant "c1"
        (step ParticipantStatus.preparing ParticipantStatus.verified 1 (some sha_a))
      ∷ move_migration "ltx-1" (move MigrationStatus.preparing MigrationStatus.prepared 1 [])
      ∷ []

abbrev pub armed : List Call
armed = preparing ++ arm "ltx-1" 2 now ∷ []

abbrev pub committing : List Call
committing =
    armed
    ++ move_migration "ltx-1" (move MigrationStatus.prepared MigrationStatus.committed 2 receipts)
      ∷ []

abbrev pub url : UrlParts
url = record {
  scheme = "https";
  netloc = "replay.lineagetx.invalid";
  path = "/ltx-1";
  query = "";
  fragment = "";
  username = none;
  password = none;
  hostname = some "replay.lineagetx.invalid";
  port = none;
}

-- Parsers that find every time in UTC and every URL sound.
abbrev pub parsers : Runtime
parsers = record {
  sha256_hex = λ s. s;
  canonical_json = λ _. "{}";
  str = λ _. "";
  int = λ _. none;
  fromisoformat = λ _. some utc;
  urlsplit = λ _. some url;
}

-- A semantic consumer that waits for its owner.
abbrev pub waiting : List Call
waiting =
    create intent (consumer "c3" ParticipantKind.semantic_approval ∷ [])
    ∷ move_migration "ltx-1" (move MigrationStatus.detected MigrationStatus.preparing 0 [])
    ∷ move_participant "c3" (step ParticipantStatus.discovered ParticipantStatus.preparing 0 none)
    ∷ move_participant "c3"
        (step ParticipantStatus.preparing ParticipantStatus.needs_approval 1 none)
    ∷ move_migration "ltx-1" (move MigrationStatus.preparing MigrationStatus.needs_approval 1 [])
    ∷ []
