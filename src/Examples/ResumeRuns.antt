-- ===== src/Examples/ResumeRuns.antt =====
-- A snapshot of two repositories, signed and read back.
use data_lineage_fix_agent.Models.Runtime.{require_utc_timestamp}
use data_lineage_fix_agent.Models.Text.{char_count, is_base_sha, is_sha256}
use data_lineage_fix_agent.Resume.{
  sorted_bases, insert_base, snapshot_dict, ApprovalPauseSnapshot, check_snapshot, Crypto, sign,
  write_signed,
}
use data_lineage_fix_agent.Prelude.{some, [], ◌∷◌}
use data_lineage_fix_agent.Examples.{now, sha_a}

abbrev snapshot : ApprovalPauseSnapshot
snapshot = record {
  migration_id = "ltx-1";
  participant_id = "c3";
  owner_urn = "urn:li:corpuser:ana";
  old_field = "customer_id";
  new_field = "customer_key";
  impact_fingerprint = "aaaaaaaaaaaaaaaaaaaaaaaaaaaaaaaaaaaaaaaaaaaaaaaaaaaaaaaaaaaaaaaa";
  repository_base_shas = ("producer", sha_a) ∷ ("data", sha_a) ∷ [];
  paused_at = now;
  schema_version = 1;
}

abbrev ordered : ApprovalPauseSnapshot
ordered = record snapshot { repository_base_shas = ("data", sha_a) ∷ ("producer", sha_a) ∷ [] }

-- A json that knows one envelope.
abbrev crypto : Crypto
crypto = record {
  byte_length = λ _. 32;
  hmac_hex = λ key message. message;
  canonical_payload = λ s. s.migration_id;
  dump_envelope = λ e. e.signature;
  load_envelope =
      λ _. some (record { algorithm = "HMAC-SHA256"; payload = ordered; signature = "ltx-1" });
}

resumed : Unit {0}
unfolding check_snapshot insert_base sorted_bases snapshot_dict sign write_signed is_sha256
    is_base_sha char_count require_utc_timestamp
resumed = tt
