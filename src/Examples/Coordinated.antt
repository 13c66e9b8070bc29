-- ===== src/Examples/Coordinated.antt =====
-- Test data for the coordinator: a store in which another client has prepared the migration, and
-- collaborators that find everything in order.
use data_lineage_fix_agent.Models.Runtime.{require_utc_timestamp}
use data_lineage_fix_agent.Coordinator.Names.{sorted_texts, insert_text}
use data_lineage_fix_agent.Models.Text.{is_branch_name}
use data_lineage_fix_agent.Coordinator.Commit.{
  Ready, CommitOutcome, commit_prepared, release, release_armed, reconcile_commit,
  known_publication, finish, persist, commit_move, publish, not_armed, not_ready, make_ready,
  validate_candidates, recheck_approval, revalidate_impact,
}
use data_lineage_fix_agent.Coordinator.Requests.{
  new_request, request_of, body_of, candidate_line, join_lines, candidates_of, candidate_of,
  check_refreshed, find_keyed,
}
use data_lineage_fix_agent.Coordinator.Abort.{
  AbortOutcome, failed_move, abort_after_failure, mark_failed, reconcile_abort, new_cleanup_receipt,
  cleanup_receipt_of, sessions_of, clean_sessions, clean_session, clean_up,
}
use data_lineage_fix_agent.Coordinator.Writeback.{
  writeback, required_context, capture_and_seal, record_evidence, seal_evidence, capture,
  write_evidence,
}
use data_lineage_fix_agent.State.Gate.Quiet.{literal_open}
use data_lineage_fix_agent.State.Calls.{IsOpenType, IsPermitted}
use data_lineage_fix_agent.Coordinator.Runs.{
  on_option, choose, read_clock, when, remember, recall, ◌>>◌, ◌>>=◌, query, on_store, ask, catch,
  lift, raise, pure,
}
use data_lineage_fix_agent.Policy.Context.{DataHubMigrationContext}
use data_lineage_fix_agent.Coordinator.Detect.{
  operate, abort_candidates, operate_all, commit_migration, Operation,
}
use data_lineage_fix_agent.Examples.StateRuns.{runs}
use data_lineage_fix_agent.Coordinator.World.{
  RepositorySession, Services, PreparationResult, Memory, Settings, History, Keyed,
}
use data_lineage_fix_agent.Publisher.Requests.{
  stage_of, receipts, validate_result, validate_stage, actual_commits, expected_commits,
  check_request, check_candidate, PublicationResult, branch_ref, PublicationStage,
  PublicationRequest,
}
use data_lineage_fix_agent.Prelude.{
  proposal_error, candidate_rejected, evidence_error, approval_verification_error, err, String,
  true, false, none, some, List, [], ◌∷◌, map, ok, refl, All,
}
use data_lineage_fix_agent.Models.Status.{
  MigrationStatus, ParticipantStatus, ParticipantKind, CoordinationReceiptKind,
}
use data_lineage_fix_agent.State.Calls.{move_migration, create, move_participant, Call}
use data_lineage_fix_agent.Models.Participants.{Participant}
use data_lineage_fix_agent.Models.Receipts.{
  path_parts, is_unsafe_path, check_cleanup_receipt, CoordinationReceipt,
}
use data_lineage_fix_agent.Examples.{intent, consumer, move, step, sha_a, now, parsers}
use data_lineage_fix_agent.Coordinator.Abort as A
use data_lineage_fix_agent.Coordinator.Commit as C

-- Three consumers on their way to VERIFIED.
abbrev pub consumers : List Participant
consumers =
    consumer "c1" ParticipantKind.dbt_sql
    ∷ consumer "c2" ParticipantKind.dbt_sql
    ∷ consumer "c3" ParticipantKind.dbt_sql
    ∷ []

abbrev pub begins : String → Call
begins id =
    move_participant id (step ParticipantStatus.discovered ParticipantStatus.preparing 0 none)

abbrev pub verifies : String → Call
verifies id =
    move_participant id (step ParticipantStatus.preparing ParticipantStatus.verified 1 (some sha_a))

abbrev pub launch : List Call
launch =
    create intent consumers
    ∷ move_migration "ltx-1" (move MigrationStatus.detected MigrationStatus.preparing 0 [])
    ∷ begins "c1"
    ∷ begins "c2"
    ∷ begins "c3"
    ∷ verifies "c1"
    ∷ verifies "c2"
    ∷ verifies "c3"
    ∷ move_migration "ltx-1" (move MigrationStatus.preparing MigrationStatus.prepared 1 [])
    ∷ []

-- What another client does before the first statement.
abbrev pub before_all : List Call → History → List Call
before_all calls [] = calls
before_all calls (_ ∷ _) = []

abbrev pub receipt_of : CoordinationReceiptKind → String → String → String → CoordinationReceipt
receipt_of kind reference sha evidence = record {
  migration_id = "ltx-1";
  kind = kind;
  reference = reference;
  recorded_at = now;
  commit_sha = sha;
  evidence_url = evidence;
  merged = false;
}

abbrev pub staged : PublicationRequest → PublicationStage
staged q = record {
  candidate_receipts =
      map (λ c. receipt_of CoordinationReceiptKind.candidate_commit (branch_ref c) c.commit_sha "")
        q.candidates;
  coordinated_pr_receipt = receipt_of CoordinationReceiptKind.coordinated_pr "pr" "" "";
}

abbrev pub released : PublicationStage → PublicationResult
released stage = record {
  candidate_receipts = stage.candidate_receipts;
  coordinated_pr_receipt = stage.coordinated_pr_receipt;
  producer_gate_receipt =
      receipt_of CoordinationReceiptKind.producer_gate_released "check-run:gate" "" "pr";
}

abbrev pub session : String → Keyed RepositorySession
session id = record {
  migration = "ltx-1";
  participant = id;
  value = record {
    repo_id = id;
    candidate_id = id;
    migration_id = "ltx-1";
    base_repo = "data";
    worktree = id;
    branch = "lineagetx/ltx-1";
    base_sha = sha_a;
    base_status = "";
  };
}

-- Collaborators that find everything in order.
abbrev pub services : List Call → Services
services calls = record {
  runtime = parsers;
  python = record { decimal = λ _. none; str = λ _. "" };
  utc_now = λ _. now;
  others = before_all calls;
  assert_impact_unchanged = λ _ c. ok (record { context = c; is_frozen_object = false });
  write_back = λ _ _ _. ok tt;
  verify = λ _ _ _. err approval_verification_error;
  validate_committed_candidate = λ _ _ _ _. ok tt;
  prepare_worktree_of = λ _ p _ _ _. ok (session p.participant_id).value;
  read_snapshots = λ _ _ _. ok [];
  readers = record { safe_relative_path = λ p. some p; table_names = λ _. some [] };
  propose = λ _ _. err proposal_error;
  proposal_fingerprint = λ _. "fingerprint";
  prepare_candidate = λ _ _ _ _ _. err candidate_rejected;
  changed_files = λ _ _. ok [];
  commit_candidate = λ _ _ _ _. ok sha_a;
  diff = λ _ _. ok "";
  abort_worktree = λ _ _. ok tt;
  relative_to_root = λ path. ok path;
  publisher_stage = λ _ q. ok (staged q);
  publisher_reconcile = λ _ _ _. ok none;
  publisher_release_gate = λ _ _ stage. ok (released stage);
  write_evidence = λ _ _. ok tt;
  capture = λ _ _. ok tt;
  build_and_verify_manifest = λ _. err evidence_error;
}

abbrev pub settings : Settings
settings = record {
  has_revalidator = true;
  has_writer = false;
  has_verifier = false;
  evidence_migration = none;
  evidence_base_url = "https://replay.lineagetx.invalid";
  allow_test_approvals = true;
  safety_policy = record { expected_consumer_count = 3; allow_test_transport = false };
}

abbrev pub prepared_result : String → Keyed PreparationResult
prepared_result id = record {
  migration = "ltx-1";
  participant = id;
  value = record {
    participant_id = id;
    state = ParticipantStatus.verified;
    changed_files = "models/orders.sql" ∷ [];
    checks = [];
    required_owner_urn = none;
  };
}

abbrev pub context : DataHubMigrationContext
context = record {
  source_urn = "urn:li:orders";
  source_column = "customer_id";
  replacement_column = "customer_key";
  source = record {
    urn = "urn:li:orders";
    schema = [];
    governance = record { owner_urns = []; tag_urns = []; structured_properties = [] };
  };
  consumers = [];
  assets = [];
  tool_traces = [];
  transport = "mcp";
  discovery_complete = true;
  impact_fingerprint = "impact";
}

abbrev pub memory : Memory
memory = record {
  contexts = ("ltx-1", context) ∷ [];
  discoveries = [];
  sessions = session "c1" ∷ session "c2" ∷ session "c3" ∷ [];
  requests = [];
  proposals = [];
  trusted_policies = [];
  results = prepared_result "c1" ∷ prepared_result "c2" ∷ prepared_result "c3" ∷ [];
  verified_github_approvals = [];
  publications = [];
}

pub launch-IsPermitted : (h : History) → All IsPermitted (before_all launch h)
launch-IsPermitted [] = (
  tt,
  (
    changed,
    (step_open, (step_open, (step_open, (step_open, (step_open, (step_open, (changed, tt))))))),
  ),
)
  where
    changed : IsOpenType "MIGRATION_STATE_CHANGED"
    changed = literal_open _ refl refl

    step_open : IsOpenType "PARTICIPANT_STATE_CHANGED"
    step_open = literal_open _ refl refl
launch-IsPermitted (_ ∷ _) = tt

abbrev pub commit_it : List Operation
commit_it = commit_migration "ltx-1" ∷ abort_candidates "ltx-1" ∷ []

unfoldable pub coordinated : Unit {0}
unfolding runs pure raise lift catch ask on_store query ◌>>=◌ ◌>>◌ recall remember when read_clock
    choose on_option write_evidence capture seal_evidence record_evidence capture_and_seal
    required_context writeback A.abort clean_up clean_session clean_sessions sessions_of
    cleanup_receipt_of new_cleanup_receipt reconcile_abort mark_failed abort_after_failure
    failed_move find_keyed check_refreshed candidate_of candidates_of join_lines candidate_line
    body_of request_of new_request revalidate_impact recheck_approval validate_candidates make_ready
    not_ready not_armed publish commit_move persist finish known_publication reconcile_commit
    release_armed release commit_prepared C.commit operate operate_all check_candidate check_request
    branch_ref expected_commits actual_commits validate_stage validate_result stage_of receipts
    is_branch_name insert_text sorted_texts check_cleanup_receipt is_unsafe_path path_parts
    require_utc_timestamp
coordinated = tt
