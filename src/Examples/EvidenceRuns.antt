-- ===== src/Examples/EvidenceRuns.antt =====
-- A bundle of two files and a directory, and the theorems about it.
use data_lineage_fix_agent.Evidence.Bundle.{verified_bundles_agree}
use data_lineage_fix_agent.Examples.{now}
use data_lineage_fix_agent.Evidence.{
  read_manifest, manifest_of, aggregate, same_files, file, insert_file, directory, Disk,
  verify_manifest, artifact_files, ends_with, manifest_dict, build_manifest, Tools,
}
use data_lineage_fix_agent.Examples.{now}
use data_lineage_fix_agent.Prelude.{true, ◌≡◌, refl, some, [], ◌∷◌, ok}
use data_lineage_fix_agent.Coordinator.World.{EvidenceManifest}

abbrev listed : EvidenceManifest
listed = record {
  migration_id = "ltx-1";
  generated_at = now;
  files =
      record { path = "abort/cleanup.json"; sha256 = "{}"; size_bytes = 2 }
      ∷ record { path = "state/99-aborted.json"; sha256 = "[]"; size_bytes = 2 }
      ∷ [];
  aggregate_sha256 = "files";
  schema_version = 1;
  manifest_self_hash_excluded = true;
}

-- A json that knows one manifest.
abbrev tools : Tools
tools = record {
  sha256_bytes = λ s. s;
  byte_length = λ _. 2;
  dump_files = λ _. "files";
  dump_manifest = λ m. m.migration_id;
  load_manifest = λ _. some listed;
  now = now;
}

abbrev disk : Disk
disk =
    ("state", directory)
    ∷ ("state/99-aborted.json", file "[]")
    ∷ ("abort/cleanup.json", file "{}")
    ∷ []

bundled : Unit {0}
unfolding ends_with insert_file same_files artifact_files aggregate manifest_of manifest_dict
    build_manifest read_manifest verify_manifest
bundled = tt

abbrev sealed : Disk
sealed = ("manifest.json", file "ltx-1") ∷ disk

abbrev reordered : Disk
reordered =
    ("abort", directory)
    ∷ ("abort/cleanup.json", file "{}")
    ∷ ("state/99-aborted.json", file "[]")
    ∷ ("manifest.json", file "ltx-1")
    ∷ []

sealed_verifies : verify_manifest tools "ltx-1" sealed ≡ ok listed
unfolding bundled
sealed_verifies = refl

reordered_verifies : verify_manifest tools "ltx-1" reordered ≡ ok listed
unfolding bundled
reordered_verifies = refl

verified_bundles_agree_example : artifact_files tools sealed ≡ artifact_files tools reordered
verified_bundles_agree_example =
    verified_bundles_agree tools "ltx-1" sealed reordered listed sealed_verifies reordered_verifies
