-- ===== src/Models/Participants.antt =====
-- lineagetx/models.py: `Participant`, one downstream consumer.
use Prim.Native.String.{◌++◌ as append}
use data_lineage_fix_agent.Prelude.{
  ℕ, String, ◌≡◌, true, arith, ◌||◌, ◌&&◌, List, [], ◌∷◌, Result, ok, value_error, ◌>>◌, guard,
  ◌==◌, if◌then◌else◌,
}
use data_lineage_fix_agent.Models.Runtime.{Runtime, Mapping, text}
use data_lineage_fix_agent.Models.Text.{is_identifier, is_commit_sha, has_text, prefix}
use data_lineage_fix_agent.Models.Status.{
  ParticipantKind, ParticipantStatus, discovered, kind_value,
}

pub record Participant : Type 0 where
  pub participant_id : String
  pub migration_id : String
  pub kind : ParticipantKind
  pub asset_urn : String
  pub repository : String
  pub owner_urns : List String
  pub files : List String
  pub status : ParticipantStatus
  pub version : ℕ
  pub base_sha : String
  pub candidate_commit_sha : String
  pub evidence_links : List String
  pub created_at : String
  pub updated_at : String

-- `__post_init__`: the record as it is after construction. A version is never negative here.
unfoldable pub new : Participant → Result Participant
new p = do
  guard (is_identifier p.participant_id) value_error
  guard (is_identifier p.migration_id) value_error
  guard (has_text p.asset_urn && has_text p.repository) value_error
  guard (p.candidate_commit_sha == "" || is_commit_sha p.candidate_commit_sha) value_error
  ok (if p.updated_at == "" then record p { updated_at = p.created_at } else p)

-- The mapping that `Participant.create` derives the identifier from.
unfoldable pub identity : String → ParticipantKind → String → String → Mapping
identity migration_id kind asset_urn repository =
    ("asset_urn", text asset_urn)
    ∷ ("kind", text (kind_value kind))
    ∷ ("migration_id", text migration_id)
    ∷ ("repository", text repository)
    ∷ []

unfoldable pub create :
    Runtime
    → String
    → ParticipantKind
    → String
    → String
    → List String
    → List String
    → String
    → String
    → Result Participant
create rt migration_id kind asset_urn repository owner_urns files base_sha timestamp =
    let digest =
      rt.sha256_hex (rt.canonical_json (identity migration_id kind asset_urn repository)) in
    new (record {
      participant_id = append "consumer-" (prefix 20 digest);
      migration_id = migration_id;
      kind = kind;
      asset_urn = asset_urn;
      repository = repository;
      owner_urns = owner_urns;
      files = files;
      status = discovered;
      version = 0;
      base_sha = base_sha;
      candidate_commit_sha = "";
      evidence_links = [];
      created_at = timestamp;
      updated_at = timestamp;
    })

-- Construction keeps the fields that decide on an approval, and the identifier has a first character.
pub new-keeps :
    (p : Participant) {q : Participant}
    → new p ≡ ok q
    → (q.kind ≡ p.kind)
      × (q.owner_urns ≡ p.owner_urns)
      × (q.participant_id ≡ p.participant_id)
      × (q.migration_id ≡ p.migration_id)
      × (q.status ≡ p.status)
      × (q.version ≡ p.version)
      × (q.candidate_commit_sha ≡ p.candidate_commit_sha)
      × (is_identifier p.participant_id ≡ true)
unfolding new
new-keeps p h = (
  ground arith,
  ground arith,
  ground arith,
  ground arith,
  ground arith,
  ground arith,
  ground arith,
  ground arith,
)
