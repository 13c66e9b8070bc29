-- ===== src/Evidence.antt =====
-- lineagetx/evidence.py: `build_manifest` and `verify_manifest` of `EvidenceRecorder` over the files of
-- its bundle. hashlib and json are a parameter; a file's bytes are a text.
pub mod Bundle
use text.Mathlib.Text.{starts_with}
use data_lineage_fix_agent.Prelude.{
  ℕ, String, Bool, true, false, not, ◌&&◌, ◌||◌, Option, none, some, List, [], ◌∷◌, Result, ok, err,
  evidence_error, ◌>>=◌, ◌>>◌, guard, ◌==◌, ◌=ℕ◌, str_leb, lookup, set_entry,
}
use data_lineage_fix_agent.Coordinator.World.{EvidenceFile, EvidenceManifest}

-- What `rglob` finds under the root of the bundle, by its path from there.
pub data Node : Type 0 where
  file : String → Node
  directory : Node
  symlink : Node
  special : Node

abbrev pub Disk : Type 0
Disk = List (String × Node)

-- What the recorder asks of hashlib and json, and `utc_now()`.
pub record Tools : Type 0 where
  pub sha256_bytes : String → String
  pub byte_length : String → ℕ
  -- json.dumps of the list of files, and of the dict of a manifest, which stands as a manifest
  pub dump_files : List EvidenceFile → String
  pub dump_manifest : EvidenceManifest → String
  -- json.loads, if it gives a dict that `from_dict` accepts; `none` is a JSONDecodeError, KeyError,
  -- TypeError or ValueError
  pub load_manifest : String → Option EvidenceManifest
  pub now : String

-- `EvidenceManifest.to_dict`
unfoldable pub manifest_dict : EvidenceManifest → EvidenceManifest
manifest_dict m = record m { manifest_self_hash_excluded = true }

abbrev pub manifest_name : String
manifest_name = "manifest.json"

-- value.endswith(suffix)
unfoldable pub ends_with : String → String → Bool
ends_with String.[] suffix = suffix == ""
ends_with (String.◌∷◌ c s) suffix = String.◌∷◌ c s == suffix || ends_with s suffix

unfoldable pub insert_file : EvidenceFile → List EvidenceFile → List EvidenceFile
insert_file f [] = f ∷ []
insert_file f (g ∷ gs) = elim (str_leb f.path g.path) [
  | true ↦ f ∷ g ∷ gs
  | false ↦ g ∷ insert_file f gs
]

-- `==` of two tuples of files.
unfoldable pub same_files : List EvidenceFile → List EvidenceFile → Bool
same_files [] [] = true
same_files (f ∷ fs) (g ∷ gs) =
    f.path == g.path && f.sha256 == g.sha256 && f.size_bytes =ℕ g.size_bytes && same_files fs gs
same_files _ _ = false

module _ (tools : Tools) where
  abbrev pub file_of : String → String → EvidenceFile
  file_of path payload = record {
    path = path;
    sha256 = tools.sha256_bytes payload;
    size_bytes = tools.byte_length payload;
  }

  -- `_artifact_files`, sorted by path; every exception that it raises is an EvidenceError.
  unfoldable pub artifact_files : Disk → Result (List EvidenceFile)
  unfolding insert_file ends_with
  artifact_files [] = ok []
  artifact_files ((path, node) ∷ rest) =
      let others = artifact_files rest in
      elim (path == manifest_name) [
        | true ↦ others
        | false ↦ elim node [
          | symlink ↦ err evidence_error
          | directory ↦ others
          | special ↦ err evidence_error
          | file payload ↦ elim (starts_with path "." && ends_with path ".lineagetx.tmp") [
            | true ↦ err evidence_error
            | false ↦ elim others [
              | ok files ↦ ok (insert_file (file_of path payload) files)
              | err e ↦ err e
            ]
          ]
        ]
      ]

  -- `_aggregate`
  unfoldable pub aggregate : List EvidenceFile → String
  aggregate files = tools.sha256_bytes (tools.dump_files files)

  unfoldable pub manifest_of : String → List EvidenceFile → EvidenceManifest
  unfolding aggregate
  manifest_of migration_id files = record {
    migration_id = migration_id;
    generated_at = tools.now;
    files = files;
    aggregate_sha256 = aggregate files;
    schema_version = 1;
    manifest_self_hash_excluded = true;
  }

  -- `build_manifest`, whose atomic write replaces the manifest
  unfoldable pub build_manifest : String → Disk → Result EvidenceManifest × Disk
  unfolding artifact_files manifest_of manifest_dict
  build_manifest migration_id disk = elim (artifact_files disk) [
    | err e ↦ (err e, disk)
    | ok files ↦ (
      ok (manifest_of migration_id files),
      set_entry manifest_name
          (file (tools.dump_manifest (manifest_dict (manifest_of migration_id files)))) disk,
    )
  ]

  -- The manifest as it is read back.
  unfoldable pub read_manifest : Disk → Result EvidenceManifest
  read_manifest disk = elim (lookup manifest_name disk) [
    | none ↦ err evidence_error
    | some node ↦ elim node [
      | file text ↦ elim (tools.load_manifest text) [ none ↦ err evidence_error | some m ↦ ok m ]
      | _ ↦ err evidence_error
    ]
  ]

  -- `verify_manifest`
  unfoldable pub verify_manifest : String → Disk → Result EvidenceManifest
  unfolding artifact_files aggregate read_manifest same_files
  verify_manifest migration_id disk = do
    manifest ← read_manifest disk
    guard (manifest.migration_id == migration_id) evidence_error
    guard manifest.manifest_self_hash_excluded evidence_error
    actual ← artifact_files disk
    guard (same_files actual manifest.files) evidence_error
    guard (aggregate actual == manifest.aggregate_sha256) evidence_error
    ok manifest
