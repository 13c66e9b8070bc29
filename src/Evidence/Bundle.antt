-- ===== src/Evidence/Bundle.antt =====
-- lineagetx/evidence.py: what a manifest says of its bundle.
use data_lineage_fix_agent.Evidence.{
  read_manifest, verify_manifest, Disk, Tools, same_files, artifact_files,
}
use data_lineage_fix_agent.Prelude.{
  String, ◌≡◌, refl, sym, ◌∙◌, true, List, [], ◌∷◌, Result, ok, err, arith, eq_iff,
}
use data_lineage_fix_agent.Coordinator.World.{EvidenceFile, EvidenceManifest}

same_files_eq : (fs gs : List EvidenceFile) → same_files fs gs ≡ true → fs ≡ gs
unfolding same_files
same_files_eq [] [] h = refl
same_files_eq [] (_ ∷ _) h = absurd (ground arith)
same_files_eq (_ ∷ _) [] h = absurd (ground arith)
same_files_eq (f ∷ fs) (g ∷ gs) h =
    ground (arith, eq_iff f.path g.path, eq_iff f.sha256 g.sha256, same_files_eq fs gs)

verified_files :
    (tools : Tools) (migration_id : String) (d : Disk) (m : EvidenceManifest)
    → verify_manifest tools migration_id d ≡ ok m
    → artifact_files tools d ≡ ok m.files
verified_files tools migration_id d m h =
    go (read_manifest tools d) (artifact_files tools d) refl refl
  where
    go :
        (r : Result EvidenceManifest) (fs : Result (List EvidenceFile))
        → read_manifest tools d ≡ r
        → artifact_files tools d ≡ fs
        → artifact_files tools d ≡ ok m.files
    go (err x) fs a b = absurd (unfold verify_manifest in ground (arith, a, h))
    go (ok n) (err x) a b = absurd (unfold verify_manifest in ground (arith, a, b, h))
    go (ok n) (ok fs) a b =
        unfold verify_manifest in ground (arith, a, b, h, same_files_eq fs n.files)

-- Two bundles that verify against the same manifest have the same artifacts: the same paths with the
-- same hashes and sizes, in the order of the paths.
pub verified_bundles_agree :
    (tools : Tools) (migration_id : String) (d e : Disk) (m : EvidenceManifest)
    → verify_manifest tools migration_id d ≡ ok m
    → verify_manifest tools migration_id e ≡ ok m
    → artifact_files tools d ≡ artifact_files tools e
verified_bundles_agree tools migration_id d e m first second =
    verified_files tools migration_id d m first ∙ sym (verified_files tools migration_id e m second)
