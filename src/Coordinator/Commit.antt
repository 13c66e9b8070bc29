-- ===== src/Coordinator/Commit.antt =====
-- lineagetx/coordinator.py: `commit` and `reconcile_commit`.
use data_lineage_fix_agent.Prelude.{
  String, Bool, true, false, not, Option, some, List, [], ◌∷◌, Exception, coordination_error,
  publication_reconciliation_required, guard, require, lookup, set_entry,
}
use data_lineage_fix_agent.Models.Runtime.{text, number, flag}
use data_lineage_fix_agent.Models.Status.{prepared, committed, same_status}
use data_lineage_fix_agent.Models.Participants.{Participant}
use data_lineage_fix_agent.State.Tables.{MigrationRecord, plain}
use data_lineage_fix_agent.State.Migrations.{
  get_migration, publication_gate_armed, arm_publication_gate, transition_migration,
}
use data_lineage_fix_agent.State.Migrations as M
use data_lineage_fix_agent.State.Participants.{list_participants}
use data_lineage_fix_agent.State.Events.{list_events}
use data_lineage_fix_agent.Policy.Context.{DataHubMigrationContext}
use data_lineage_fix_agent.Publisher.Requests.{
  PublicationRequest, PublicationStage, PublicationResult, validate_stage, validate_result,
  receipts,
}
use data_lineage_fix_agent.Coordinator.World.{
  EvidenceManifest, Services, Settings, revalidate, verify_approval, validate_candidate,
  stage_request, reconcile, release_gate,
}
use data_lineage_fix_agent.Coordinator.Runs.{
  Run, pure, raise, lift, catch, ask, on_store, query, recall, remember, choose, on_option, when,
  ◌>>=◌, ◌>>◌,
}
use data_lineage_fix_agent.Coordinator.Records.{is_there}
use data_lineage_fix_agent.Coordinator.Requests.{
  check_refreshed, expectation_of, check_same_approval, Candidate, candidates_of, new_request,
}
use data_lineage_fix_agent.Coordinator.Writeback.{
  write_evidence, record_evidence, capture_and_seal, required_context, writeback,
}
use data_lineage_fix_agent.Coordinator.Recovery.{publication_from_events}
use data_lineage_fix_agent.Coordinator.Abort.{abort_after_failure}

pub record CommitOutcome : Type 0 where
  pub migration : MigrationRecord
  pub participants : List Participant
  pub publication : PublicationResult
  pub manifest : Option EvidenceManifest
  pub upstream_change_safe_to_merge : Bool
  pub auto_merged : Bool

-- What the first part of `commit` hands to the second.
pub record Ready : Type 0 where
  pub refreshed : DataHubMigrationContext
  pub request : PublicationRequest
  pub stage : PublicationStage

module _ (sv : Services) (cfg : Settings) (id : String) where
  -- The impact is asked for again, and compared.
  unfoldable pub revalidate_impact : DataHubMigrationContext → Run DataHubMigrationContext
  revalidate_impact context = do
    refreshed ← ask (revalidate id) (λ h. sv.assert_impact_unchanged h context)
    lift (check_refreshed context refreshed)
    pure refreshed.context

  -- `if not self.allow_test_approvals:` the approval is fetched again, and compared.
  unfoldable pub recheck_approval : MigrationRecord → Run (Unit {0})
  recheck_approval migration = when (not cfg.allow_test_approvals) (do
    known ← recall (λ m. lookup id m.verified_github_approvals)
    verified ← lift (require known coordination_error)
    lift (guard cfg.has_verifier coordination_error)
    current ←
        ask (verify_approval id)
          (λ h. sv.verify h (expectation_of id migration.intent verified) verified.source_api_url)
    lift (check_same_approval verified current)
    record_evidence sv cfg "approval/github-precommit-revalidation.json")

  -- The final local action before publication.
  unfoldable pub validate_candidates : List Candidate → Run (Unit {0})
  validate_candidates [] = pure tt
  validate_candidates (c ∷ cs) = do
    ask (validate_candidate c.session) (λ h.
        sv.validate_committed_candidate h c.session c.participant.candidate_commit_sha
          c.participant.files)
    validate_candidates cs

  -- The first `try` of `commit`.
  unfoldable pub make_ready : MigrationRecord → DataHubMigrationContext → Run Ready
  unfolding revalidate_impact recheck_approval validate_candidates
  make_ready migration context = do
    refreshed ← revalidate_impact context
    writeback sv cfg migration "precommit-refreshed" (some refreshed)
    recheck_approval migration
    participants ← query sv (list_participants id)
    memory ← recall (λ m. m)
    candidates ← lift (candidates_of memory id participants)
    request ← lift (new_request id migration.intent candidates)
    validate_candidates candidates
    stage ← ask (stage_request id) (λ h. sv.publisher_stage h request)
    lift (validate_stage request stage)
    pure (record { refreshed = refreshed; request = request; stage = stage })

  -- Its handler: the migration is aborted unless the gate release is armed.
  unfoldable pub not_ready : {A : Type 0} → Exception → Run A
  not_ready error = do
    migration ← query sv (get_migration id)
    when (same_status migration.status prepared) (do
      armed ← query sv (publication_gate_armed id)
      when armed (raise coordination_error)
      abort_after_failure sv cfg id "" error "commit")
    raise error

  -- `except PublicationReconciliationRequired`
  unfoldable pub not_armed : {A : Type 0} → Exception → Run A
  not_armed publication_reconciliation_required = raise coordination_error
  not_armed error = raise error

  -- Whatever fails from here on, the candidates are retained.
  unfoldable pub publish : Ready → Run PublicationResult
  publish r =
      catch
        (do
          record_evidence sv cfg "publication/staged.json"
          found ← ask (reconcile id) (λ h. sv.publisher_reconcile h r.request r.stage)
          publication ←
              on_option found
                (ask (release_gate id) (λ h. sv.publisher_release_gate h r.request r.stage)) pure
          lift (validate_result r.request publication)
          pure publication)
        (λ _. do
          record_evidence sv cfg "publication/reconciliation-required.json"
          raise coordination_error)

  unfoldable pub commit_move : MigrationRecord → Ready → PublicationResult → String → M.Move
  commit_move migration r publication now = record {
    target = committed;
    expected_status = prepared;
    expected_version = migration.version;
    event_type = "COORDINATED_PR_CREATED_AND_PRODUCER_GATE_RELEASED";
    payload =
        ("impact_fingerprint", plain (text r.refreshed.impact_fingerprint))
        ∷ ("unverified_consumers", plain (number 0))
        ∷ ("auto_merge", plain (flag false))
        ∷ [];
    receipts = receipts publication;
    now = now;
  }

  -- The COMMITTED state; a conflict is fine if another client has committed.
  unfoldable pub persist : MigrationRecord → Ready → PublicationResult → Run MigrationRecord
  unfolding commit_move
  persist migration r publication =
      catch (on_store sv (λ now. transition_migration id (commit_move migration r publication now)))
        (λ _. do
          current ← query sv (get_migration id)
          choose (same_status current.status committed) (pure current) (do
            record_evidence sv cfg "publication/state-reconciliation-required.json"
            raise coordination_error))

  -- The write-back, the evidence and the outcome, with the names of `commit` or `reconcile_commit`.
  unfoldable pub finish :
      MigrationRecord
      → DataHubMigrationContext
      → PublicationResult
      → String
      → String
      → String
      → Run CommitOutcome
  finish migration refreshed publication stage error_path snapshot = do
    catch (writeback sv cfg migration stage (some refreshed))
        (λ _. do record_evidence sv cfg error_path; raise coordination_error)
    when (is_there cfg.evidence_migration) (write_evidence sv cfg "publication/receipts.json")
    manifest ← capture_and_seal sv cfg snapshot
    participants ← query sv (list_participants id)
    pure (record {
      migration = migration;
      participants = participants;
      publication = publication;
      manifest = manifest;
      upstream_change_safe_to_merge = true;
      auto_merged = false;
    })

  -- self._publications.get(migration_id), or the durable receipts, which are then remembered
  unfoldable pub known_publication : Run PublicationResult
  known_publication = do
    known ← recall (λ m. lookup id m.publications)
    on_option known
        (do
          events ← query sv (list_events id)
          publication ← lift (publication_from_events sv.runtime events)
          remember (λ m. record m { publications = set_entry id publication m.publications })
          pure publication)
        pure

  unfoldable pub reconcile_commit : Run CommitOutcome
  unfolding revalidate_impact known_publication finish
  reconcile_commit = do
    migration ← query sv (get_migration id)
    lift (guard (same_status migration.status committed) coordination_error)
    context ← required_context sv cfg id
    lift (guard cfg.has_revalidator coordination_error)
    refreshed ← revalidate_impact context
    publication ← known_publication
    finish migration refreshed publication "committed-reconciled"
        "writeback/committed-reconciliation-error.json" "05-committed-reconciled"

  -- Once the gate is armed.
  unfoldable pub release_armed : MigrationRecord → Ready → Run CommitOutcome
  unfolding publish persist finish
  release_armed migration r = do
    publication ← publish r
    remember (λ m. record m { publications = set_entry id publication m.publications })
    done ← persist migration r publication
    finish done r.refreshed publication "committed" "writeback/committed-error.json" "05-committed"

  unfoldable pub release : MigrationRecord → Ready → Run CommitOutcome
  unfolding release_armed not_armed
  release migration r = do
    catch (on_store sv (arm_publication_gate id migration.version)) not_armed
    release_armed migration r

  unfoldable pub commit_prepared : MigrationRecord → Run CommitOutcome
  unfolding make_ready not_ready release
  commit_prepared migration = do
    lift (guard (same_status migration.status prepared) coordination_error)
    context ← required_context sv cfg id
    lift (guard cfg.has_revalidator coordination_error)
    ready ← catch (make_ready migration context) not_ready
    release migration ready

  unfoldable pub commit : Run CommitOutcome
  unfolding reconcile_commit commit_prepared
  commit = do
    migration ← query sv (get_migration id)
    choose (same_status migration.status committed) reconcile_commit (commit_prepared migration)
