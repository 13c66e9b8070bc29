-- ===== src/Resume.antt =====
-- lineagetx/resume.py: the signed snapshot of a migration that waits for its owner. hmac and json are a
-- parameter; a dict of the snapshot's fields stands as a snapshot.
pub mod Signed
use text.Mathlib.Text.{starts_with}
use data_lineage_fix_agent.Prelude.{
  ℕ, String, Bool, true, false, not, ◌&&◌, Option, none, some, List, [], ◌∷◌, all, Result, ok, err,
  value_error, resume_snapshot_error, ◌>>=◌, ◌>>◌, guard, require, ◌==◌, ◌=ℕ◌, leb, str_leb,
}
use data_lineage_fix_agent.Models.Runtime.{Runtime, require_utc_timestamp}
use data_lineage_fix_agent.Models.Text.{is_sha256, is_base_sha}

pub record ApprovalPauseSnapshot : Type 0 where
  pub migration_id : String
  pub participant_id : String
  pub owner_urn : String
  pub old_field : String
  pub new_field : String
  pub impact_fingerprint : String
  pub repository_base_shas : List (String × String)
  pub paused_at : String
  pub schema_version : ℕ

abbrev pub has_entry : List (String × String) → Bool
has_entry [] = false
has_entry (_ ∷ _) = true

abbrev pub is_base : String × String → Bool
is_base (name, sha) = not (name == "") && is_base_sha sha

-- `ApprovalPauseSnapshot.__post_init__`
unfoldable pub check_snapshot : Runtime → ApprovalPauseSnapshot → Result (Unit {0})
check_snapshot rt s = do
  guard (s.schema_version =ℕ 1) value_error
  guard (starts_with s.owner_urn "urn:li:") value_error
  guard (not (s.migration_id == "") && not (s.participant_id == "")) value_error
  guard (not (s.old_field == "") && not (s.new_field == "")) value_error
  guard (is_sha256 s.impact_fingerprint) value_error
  guard (has_entry s.repository_base_shas) value_error
  guard (all is_base s.repository_base_shas) value_error
  require_utc_timestamp rt s.paused_at

unfoldable pub insert_base : String × String → List (String × String) → List (String × String)
insert_base b [] = b ∷ []
insert_base b (c ∷ cs) = elim (str_leb b.0 c.0) [ true ↦ b ∷ c ∷ cs | false ↦ c ∷ insert_base b cs ]

-- dict(sorted(...items())), of names that are distinct
unfoldable pub sorted_bases : List (String × String) → List (String × String)
unfolding insert_base
sorted_bases [] = []
sorted_bases (b ∷ bs) = insert_base b (sorted_bases bs)

-- `to_dict`
unfoldable pub snapshot_dict : ApprovalPauseSnapshot → ApprovalPauseSnapshot
unfolding sorted_bases
snapshot_dict s = record s { repository_base_shas = sorted_bases s.repository_base_shas }

pub record Envelope : Type 0 where
  pub algorithm : String
  pub payload : ApprovalPauseSnapshot
  pub signature : String

-- What the module asks of hmac and json.
pub record Crypto : Type 0 where
  pub byte_length : String → ℕ
  -- hmac.new(key, message, hashlib.sha256).hexdigest()
  pub hmac_hex : String → String → String
  pub canonical_payload : ApprovalPauseSnapshot → String
  pub dump_envelope : Envelope → String
  -- json.loads; `none` if the text is no object with these keys
  pub load_envelope : String → Option Envelope

module _ (rt : Runtime) (cr : Crypto) (key : String) where
  unfoldable pub sign : ApprovalPauseSnapshot → Envelope
  unfolding snapshot_dict
  sign s = record {
    algorithm = "HMAC-SHA256";
    payload = snapshot_dict s;
    signature = cr.hmac_hex key (cr.canonical_payload (snapshot_dict s));
  }

  -- `write_signed_pause_snapshot`: the text that the file has afterwards
  unfoldable pub write_signed : ApprovalPauseSnapshot → Result String
  unfolding sign
  write_signed s = do
    guard (leb 32 (cr.byte_length key)) value_error
    ok (cr.dump_envelope (sign s))

  -- `from_dict`
  unfoldable pub snapshot_from_dict : ApprovalPauseSnapshot → Result ApprovalPauseSnapshot
  unfolding check_snapshot
  snapshot_from_dict s = elim (check_snapshot rt s) [
    | ok _ ↦ ok s
    | err _ ↦ err resume_snapshot_error
  ]

  -- `read_signed_pause_snapshot`, of the text of the file, if it is there
  unfoldable pub read_signed : Option String → Result ApprovalPauseSnapshot
  unfolding snapshot_from_dict
  read_signed contents = do
    guard (leb 32 (cr.byte_length key)) value_error
    text ← require contents resume_snapshot_error
    envelope ← require (cr.load_envelope text) resume_snapshot_error
    guard (envelope.algorithm == "HMAC-SHA256") resume_snapshot_error
    guard (envelope.signature == cr.hmac_hex key (cr.canonical_payload envelope.payload))
        resume_snapshot_error
    snapshot_from_dict envelope.payload
