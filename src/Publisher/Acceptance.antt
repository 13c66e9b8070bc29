-- ===== src/Publisher/Acceptance.antt =====
-- lineagetx/publisher.py and lineagetx/state.py: the receipts of a publication are those that the
-- store asks for when a migration is committed.
use data_lineage_fix_agent.Prelude.{
  String, Bool, true, ◌&&◌, ◌||◌, List, [], ◌∷◌, ◌++◌, map, ok, ◌≡◌, refl, ap, ◌∙◌, any, all, elem,
  subset, length, arith, eq_iff, ◌==◌,
}
use data_lineage_fix_agent.Models.Status.{
  committed, candidate_commit, coordinated_pr, producer_gate_released, same_receipt_kind,
  same_status,
}
use data_lineage_fix_agent.Models.Receipts.{CoordinationReceipt}
use data_lineage_fix_agent.State.Migrations.{check_move, has_kind, supplied_shas}
use data_lineage_fix_agent.State.Migrations as M
use data_lineage_fix_agent.Publisher.Requests.{
  CandidateCommit, PublicationRequest, PublicationResult, receipts, stage_of, check_request,
  validate_stage, validate_result, branch_ref, has_commit, commits_subset, expected_commits,
  actual_commits,
}
use data_lineage_fix_agent.Publisher.Local.{World, PublisherState, publish}
use data_lineage_fix_agent.Publisher.Retry.{publish-valid}

-- A valid publication of three candidates, in its parts.
record IsComplete (q : PublicationRequest) (r : PublicationResult) : Type 0 where
  some_candidate : has_kind candidate_commit r.candidate_receipts ≡ true
  owned : all (λ c. c.migration_id == q.intent.migration_id) r.candidate_receipts ≡ true
  pr_owned : (r.coordinated_pr_receipt.migration_id == q.intent.migration_id) ≡ true
  gate_owned : (r.producer_gate_receipt.migration_id == q.intent.migration_id) ≡ true
  candidates : all (λ c. same_receipt_kind c.kind candidate_commit) r.candidate_receipts ≡ true
  pr : same_receipt_kind r.coordinated_pr_receipt.kind coordinated_pr ≡ true
  gate : same_receipt_kind r.producer_gate_receipt.kind producer_gate_released ≡ true
  all_covered : commits_subset (expected_commits q) (actual_commits r.candidate_receipts) ≡ true

module _ (p : CoordinationReceipt → Bool) where
  all-append : (xs ys : List CoordinationReceipt) → all p (xs ++ ys) ≡ (all p xs && all p ys)
  all-append [] ys = refl
  all-append (x ∷ xs) ys = ground (arith, all-append xs ys)

  any-append : (xs ys : List CoordinationReceipt) → any p (xs ++ ys) ≡ (any p xs || any p ys)
  any-append [] ys = refl
  any-append (x ∷ xs) ys = ground (arith, any-append xs ys)

some_kind :
    (xs : List CoordinationReceipt)
    → length xs ≡ 3
    → all (λ c. same_receipt_kind c.kind candidate_commit) xs ≡ true
    → has_kind candidate_commit xs ≡ true
some_kind [] n h = absurd (ground arith)
some_kind (x ∷ xs) n h = ground arith

validate_result-IsComplete :
    (q : PublicationRequest) (r : PublicationResult)
    → check_request q ≡ ok tt
    → validate_result q r ≡ ok tt
    → IsComplete q r
unfolding check_request validate_result validate_stage stage_of
validate_result-IsComplete q r c h =
    let split =
      all-append (λ x. x.migration_id == q.intent.migration_id) r.candidate_receipts
        (r.coordinated_pr_receipt ∷ []) in
    let kinds : all (λ c. same_receipt_kind c.kind candidate_commit) r.candidate_receipts ≡ true =
      ground arith in
    let three : length r.candidate_receipts ≡ 3 = ground arith in
    record {
      some_candidate = some_kind r.candidate_receipts three kinds;
      owned = ground (arith, split);
      pr_owned = ground (arith, split);
      gate_owned = ground arith;
      candidates = kinds;
      pr = ground arith;
      gate = ground arith;
      all_covered = ground arith;
    }

-- The candidates' commits are among the SHAs that the store reads off the receipts.
elem-supplied :
    (ref sha : String) (rs rest : List CoordinationReceipt)
    → all (λ c. same_receipt_kind c.kind candidate_commit) rs ≡ true
    → has_commit ref sha (actual_commits rs) ≡ true
    → elem sha (supplied_shas (rs ++ rest)) ≡ true
unfolding actual_commits supplied_shas
elem-supplied ref sha [] rest k h = absurd (ground arith)
elem-supplied ref sha (r ∷ rs) rest k h =
    ground (arith, eq_iff r.commit_sha sha, eq_iff sha r.commit_sha, elem-supplied ref sha rs rest)

supplied :
    (xs : List CandidateCommit) (rs rest : List CoordinationReceipt)
    → all (λ c. same_receipt_kind c.kind candidate_commit) rs ≡ true
    → commits_subset (map (λ c. (branch_ref c, c.commit_sha)) xs) (actual_commits rs) ≡ true
    → subset (map (λ c. c.commit_sha) xs) (supplied_shas (rs ++ rest)) ≡ true
supplied [] rs rest k h = refl
supplied (x ∷ xs) rs rest k h =
    ground (arith, elem-supplied (branch_ref x) x.commit_sha rs rest k, supplied xs rs rest k)

module _ (q : PublicationRequest) (r : PublicationResult) (whole : IsComplete q r) where
  receipts-owned : all (λ c. c.migration_id == q.intent.migration_id) (receipts r) ≡ true
  unfolding receipts
  receipts-owned =
      all-append (λ c. c.migration_id == q.intent.migration_id) r.candidate_receipts
        (r.coordinated_pr_receipt ∷ r.producer_gate_receipt ∷ [])
      ∙ ground (arith, whole.owned, whole.pr_owned, whole.gate_owned)

  receipts_complete :
      (has_kind candidate_commit (receipts r)
        && has_kind coordinated_pr (receipts r)
        && has_kind producer_gate_released (receipts r))
      ≡ true
  unfolding receipts
  receipts_complete =
      let rest = r.coordinated_pr_receipt ∷ r.producer_gate_receipt ∷ [] in
      ground (
        arith,
        whole.some_candidate,
        whole.pr,
        whole.gate,
        any-append (λ c. same_receipt_kind c.kind candidate_commit) r.candidate_receipts rest,
        any-append (λ c. same_receipt_kind c.kind coordinated_pr) r.candidate_receipts rest,
        any-append (λ c. same_receipt_kind c.kind producer_gate_released) r.candidate_receipts rest,
      )

  covered : subset (map (λ c. c.commit_sha) q.candidates) (supplied_shas (receipts r)) ≡ true
  unfolding receipts expected_commits
  covered = supplied q.candidates r.candidate_receipts _ whole.candidates whole.all_covered

check_move_complete :
    (id : String) (m : M.Move)
    → m.target ≡ committed
    → all (λ c. c.migration_id == id) m.receipts ≡ true
    → (has_kind candidate_commit m.receipts
        && has_kind coordinated_pr m.receipts
        && has_kind producer_gate_released m.receipts)
      ≡ true
    → check_move id m ≡ ok tt
unfolding check_move same_status
check_move_complete id m target owned complete = ground arith

-- If a valid request is published, the store's check before COMMITTED accepts the receipts of the
-- result, and every candidate's commit is among the SHAs that it reads off them.
pub publication_satisfies_commit :
    (w : World) (q : PublicationRequest) (st : PublisherState) (r : PublicationResult) (m : M.Move)
    → check_request q ≡ ok tt
    → (publish w q st).0 ≡ ok r
    → m.target ≡ committed
    → m.receipts ≡ receipts r
    → (check_move q.intent.migration_id m ≡ ok tt)
      × (subset (map (λ c. c.commit_sha) q.candidates) (supplied_shas m.receipts) ≡ true)
publication_satisfies_commit w q st r m c h target same =
    let whole = validate_result-IsComplete q r c (publish-valid w q st r h) in
    (
      check_move_complete q.intent.migration_id m target
          (ap (all (λ c. c.migration_id == q.intent.migration_id)) same ∙ receipts-owned q r whole)
          (rw same (receipts_complete q r whole)),
      rw same (covered q r whole),
    )
