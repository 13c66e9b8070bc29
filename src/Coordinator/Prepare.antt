-- ===== src/Coordinator/Prepare.antt =====
-- lineagetx/coordinator.py: `prepare`.
use data_lineage_fix_agent.Prelude.{
  ℕ, String, Bool, true, false, not, Option, none, some, List, [], ◌∷◌, map, filter,
  coordination_error, proposal_error, guard, require, lookup, ◌==◌, ◌=ℕ◌, length, if◌then◌else◌,
}
use data_lineage_fix_agent.Models.Runtime.{text, texts, flag, null}
use data_lineage_fix_agent.Models.Status.{
  MigrationStatus, ParticipantStatus, semantic_approval, same_status, same_participant_status,
  same_kind,
}
use data_lineage_fix_agent.Models.Intent.{ChangeIntent}
use data_lineage_fix_agent.Models.Participants.{Participant}
use data_lineage_fix_agent.State.Tables.{MigrationRecord, plain}
use data_lineage_fix_agent.State.Migrations.{get_migration}
use data_lineage_fix_agent.State.Participants.{get_participant, list_participants}
use data_lineage_fix_agent.Policy.Context.{DataHubMigrationContext}
use data_lineage_fix_agent.Policy.Discovery.{DiscoveryDecision}
use data_lineage_fix_agent.Candidates.{
  ProposalRequest, CandidateEnvelope, check_proposal_request, trusted_policy,
}
use data_lineage_fix_agent.Coordinator.World.{
  RepositorySession, PreparationResult, Services, Settings, prepare_worktree, read_files,
  propose_candidate, run_adapter, list_changes,
}
use data_lineage_fix_agent.Coordinator.Runs.{
  Run, pure, raise, lift, catch, ask, query, recall, remember, choose, ◌>>=◌, ◌>>◌,
}
use data_lineage_fix_agent.Coordinator.Writeback.{capture_and_seal, required_context, writeback}
use data_lineage_fix_agent.Coordinator.Abort.{abort_after_failure}
use data_lineage_fix_agent.Coordinator.Verify.{
  PrepareOutcome, set_keyed, results_of, validate_candidate, move_participant, move_migration,
  record_preparation, commit_verified_candidate,
}

abbrev is_nothing {ℓ} : {A : Type ℓ} → List A → Bool
is_nothing [] = true
is_nothing (_ ∷ _) = false

abbrev or_none : String → Option String
or_none value = if value == "" then none else some value

-- The ids of the participants that wait for an approval.
unfoldable pub pending_of : List Participant → List String
pending_of ps =
    map (λ p. p.participant_id)
      (filter (λ p. same_participant_status p.status ParticipantStatus.needs_approval) ps)

-- `migration.status.value.lower()` of the two statuses that `prepare` ends in
abbrev lower_status : Bool → String
lower_status true = "prepared"
lower_status false = "needs_approval"

module _ (sv : Services) (cfg : Settings) (id : String) where
  -- `_required_discovery`
  unfoldable pub required_discovery : Run DiscoveryDecision
  required_discovery = do
    known ← recall (λ m. lookup id m.discoveries)
    lift (require known coordination_error)

  -- `_proposal_request`, with proposal_request_from_session of lineagetx/proposals.py
  unfoldable pub proposal_request :
      ChangeIntent → Participant → RepositorySession → DataHubMigrationContext → Run ProposalRequest
  proposal_request intent p session context = do
    lift (guard (session.migration_id == intent.migration_id) proposal_error)
    files ← ask (read_files id) (λ h. sv.read_snapshots h session p.files)
    let expanded = map (λ f. f.field_path) context.source.schema
    let request : ProposalRequest = record {
      intent = intent;
      participant = p;
      files = files;
      expanded_columns = expanded;
      contract_columns = filter (λ c. not (c == intent.old_field)) expanded;
    }
    lift (check_proposal_request sv.readers request)
    pure request

  -- What becomes of the adapter's result.
  unfoldable pub settle :
      Participant → ℕ → PreparationResult → RepositorySession → CandidateEnvelope → Run (Unit {0})
  settle p version result session envelope =
      choose (same_participant_status result.state ParticipantStatus.needs_approval)
        (do
          lift (guard (same_kind p.kind semantic_approval) coordination_error)
          lift (guard (is_nothing result.changed_files) coordination_error)
          changed ← ask (list_changes id) (λ h. sv.changed_files h session)
          lift (guard (is_nothing changed) coordination_error)
          move_participant sv cfg p.participant_id ParticipantStatus.needs_approval
              ParticipantStatus.preparing version "SEMANTIC_OWNER_APPROVAL_REQUIRED"
              ((
                "required_owner_urn",
                plain (elim result.required_owner_urn [ none ↦ null | some urn ↦ text urn ]),
              )
                ∷ ("zero_write", plain (flag true))
                ∷ [])
              none none
          pure tt)
        (choose (same_participant_status result.state ParticipantStatus.verified)
          (do commit_verified_candidate sv cfg p version result session envelope; pure tt)
          (raise coordination_error))

  -- One round of the loop over the participants.
  unfoldable pub prepare_participant :
      List (String × String) → ChangeIntent → DataHubMigrationContext → String → Run (Unit {0})
  unfolding proposal_request settle
  prepare_participant roots intent context participant_id = do
    known ← query sv (get_participant participant_id)
    p ←
        move_participant sv cfg participant_id ParticipantStatus.preparing
          ParticipantStatus.discovered known.version "PARTICIPANT_PREPARING_IN_ISOLATED_WORKTREE"
          (("repository", plain (text known.repository)) ∷ []) none none
    base_repo ← lift (require (lookup p.repository roots) coordination_error)
    session ←
        ask (prepare_worktree id)
          (λ h. sv.prepare_worktree_of h p id base_repo (or_none p.base_sha))
    remember (λ m. record m { sessions = set_keyed id participant_id session m.sessions })
    request ← proposal_request intent p session context
    trusted ← lift (trusted_policy sv.readers request)
    envelope ← ask (propose_candidate id) (λ h. sv.propose h request)
    proposal ← lift (validate_candidate sv.readers request envelope)
    result ← ask (run_adapter id) (λ h. sv.prepare_candidate h session proposal trusted none)
    remember (λ m. record m {
      requests = set_keyed id participant_id request m.requests;
      proposals = set_keyed id participant_id envelope m.proposals;
      trusted_policies = set_keyed id participant_id trusted m.trusted_policies;
      results = set_keyed id participant_id result m.results;
    })
    record_preparation sv cfg p "initial"
    current ← query sv (get_participant participant_id)
    settle p current.version result session envelope

  -- What follows the loop.
  unfoldable pub finish_prepare : ℕ → DiscoveryDecision → Run PrepareOutcome
  unfolding pending_of
  finish_prepare version decision = do
    records ← query sv (list_participants id)
    let pending = pending_of records
    migration ←
        choose (is_nothing pending)
          (move_migration sv cfg id MigrationStatus.prepared MigrationStatus.preparing version
            "ALL_CONSUMERS_PREPARED" [])
          (do
            lift (guard (length pending =ℕ 1) coordination_error)
            move_migration sv cfg id MigrationStatus.needs_approval MigrationStatus.preparing
                version "MIGRATION_WAITING_FOR_OWNER"
                (("participant_ids", plain (texts pending)) ∷ []))
    capture_and_seal sv cfg (if is_nothing pending then "03-prepared" else "03-needs-approval")
    writeback sv cfg migration (lower_status (is_nothing pending)) none
    participants ← query sv (list_participants id)
    memory ← recall (λ m. m)
    results ← lift (results_of memory id decision.ordered_participant_ids)
    pure (record {
      migration = migration;
      participants = participants;
      results = results;
      pending_approval_participant_ids = pending;
    })

  -- The loop; what is raised while a participant is active aborts the migration on its behalf.
  unfoldable pub prepare_from :
      List (String × String)
      → MigrationRecord
      → DataHubMigrationContext
      → DiscoveryDecision
      → String
      → List String
      → Run PrepareOutcome
  unfolding prepare_participant finish_prepare
  prepare_from roots m context decision active [] =
      catch (finish_prepare m.version decision)
        (λ e. abort_after_failure sv cfg id active e "prepare")
  prepare_from roots m context decision active (p ∷ ps) = do
    catch (prepare_participant roots m.intent context p)
        (λ e. abort_after_failure sv cfg id p e "prepare")
    prepare_from roots m context decision p ps

  unfoldable pub prepare : List (String × String) → Run PrepareOutcome
  unfolding required_discovery prepare_from
  prepare roots = do
    migration ← query sv (get_migration id)
    lift (guard (same_status migration.status MigrationStatus.detected) coordination_error)
    context ← required_context sv cfg id
    decision ← required_discovery
    preparing ←
        move_migration sv cfg id MigrationStatus.preparing MigrationStatus.detected
          migration.version "LINEAGETX_PREPARING"
          (("isolated_worktrees", plain (flag true)) ∷ ("auto_merge", plain (flag false)) ∷ [])
    catch (writeback sv cfg preparing "preparing" none)
        (λ e. abort_after_failure sv cfg id "" e "prepare")
    prepare_from roots preparing context decision "" decision.ordered_participant_ids
