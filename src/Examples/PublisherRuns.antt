-- ===== src/Examples/PublisherRuns.antt =====
-- A publication of three candidates: tests, and the theorems about it.
use data_lineage_fix_agent.Prelude.{String, true, false, [], ◌∷◌, map, ok, ◌≡◌, refl, subset}
use data_lineage_fix_agent.Models.Runtime.{require_utc_timestamp, require_https_url}
use data_lineage_fix_agent.Models.Text.{has_text, is_commit_sha, char_count, is_branch_name}
use data_lineage_fix_agent.Models.Status.{MigrationStatus, same_receipt_kind}
use data_lineage_fix_agent.Models.Receipts.{check_kind, check_coordination_receipt}
use data_lineage_fix_agent.State.Migrations.{check_move, supplied_shas}
use data_lineage_fix_agent.State.Migrations as M
use data_lineage_fix_agent.Publisher.Requests.{
  CandidateCommit, PublicationRequest, PublicationStage, PublicationResult, check_request,
  branch_ref, expected_commits, actual_commits, validate_stage, validate_result, stage_of, receipts,
}
use data_lineage_fix_agent.Publisher.Equality.{
  PublicationStage-discrete, PublicationRequest-discrete,
}
use data_lineage_fix_agent.Publisher.Local.{
  World, PublisherState, migration_of, candidate_receipt, coordinated_receipt, gate_receipt,
  check_receipts, new_stage, is_other_request, keep_stage, stage, is_staged, new_result,
  keep_result, release_gate, reconcile, reconcile_or_release, publish,
}
use data_lineage_fix_agent.Publisher.Retry.{publish_idempotent}
use data_lineage_fix_agent.Publisher.Acceptance.{publication_satisfies_commit}
use data_lineage_fix_agent.Examples.{parsers, intent, now, sha_a, move}

-- A disk that takes every write.
abbrev world : World
world = record { runtime = parsers; now = now; write_publication = λ _ _. ok tt }

abbrev candidate : String → CandidateCommit
candidate id = record {
  participant_id = id;
  repository = "acme/data";
  branch = "lineagetx/ltx-1";
  commit_sha = sha_a;
  changed_files = "models/orders.sql" ∷ [];
  merged = false;
}

abbrev request : PublicationRequest
request = record {
  intent = intent;
  candidates = candidate "c1" ∷ candidate "c2" ∷ candidate "c3" ∷ [];
  title = "Rename customer_id";
  body = "Three consumers";
  coordinated_head_branch = "lineagetx/ltx-1";
  coordinated_base_branch = "main";
  auto_merge = false;
}

abbrev fresh : PublisherState
fresh = record { requests = []; stages = []; results = [] }

abbrev staged : PublicationStage
staged = record {
  candidate_receipts = map (candidate_receipt world request) request.candidates;
  coordinated_pr_receipt = coordinated_receipt world request;
}

abbrev result : PublicationResult
result = record {
  candidate_receipts = staged.candidate_receipts;
  coordinated_pr_receipt = staged.coordinated_pr_receipt;
  producer_gate_receipt = gate_receipt world request staged;
}

publishing : Unit {0}
unfolding require_utc_timestamp require_https_url has_text is_commit_sha char_count is_branch_name
    same_receipt_kind check_kind check_coordination_receipt check_request branch_ref
    expected_commits actual_commits validate_stage validate_result stage_of receipts
    PublicationStage-discrete PublicationRequest-discrete migration_of candidate_receipt
    coordinated_receipt gate_receipt check_receipts new_stage is_other_request keep_stage stage
    is_staged new_result keep_result release_gate reconcile reconcile_or_release publish
publishing = tt

request_valid : check_request request ≡ ok tt
unfolding publishing
request_valid = refl

publishes : (publish world request fresh).0 ≡ ok result
unfolding publishing
publishes = refl

publish_idempotent_example :
    publish world request (publish world request fresh).1
    ≡ (ok result, (publish world request fresh).1)
publish_idempotent_example = publish_idempotent world world request fresh result publishes

abbrev committing_move : M.Move
committing_move = move MigrationStatus.prepared MigrationStatus.committed 2 (receipts result)

publication_satisfies_commit_example :
    (check_move "ltx-1" committing_move ≡ ok tt)
    × (subset (map (λ c. c.commit_sha) request.candidates) (supplied_shas committing_move.receipts)
        ≡ true)
publication_satisfies_commit_example =
    publication_satisfies_commit world request fresh result committing_move request_valid publishes
      refl refl
