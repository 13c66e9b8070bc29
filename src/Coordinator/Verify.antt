-- ===== src/Coordinator/Verify.antt =====
-- lineagetx/coordinator.py: `_record_preparation`, `_commit_verified_candidate` and the values that
-- `prepare` and `approve` share.
use Prim.Native.String.{◌++◌ as append}
use data_lineage_fix_agent.Prelude.{
  ℕ, String, Bool, true, false, ◌&&◌, Option, none, some, List, [], ◌∷◌, Result, ok, err, key_error,
  coordination_error, value_error, proposal_error, policy_violation, other_error, Exception, guard,
  ◌==◌, subset, if◌then◌else◌,
}
use data_lineage_fix_agent.Models.Runtime.{text, texts, flag}
use data_lineage_fix_agent.Models.Status.{MigrationStatus, ParticipantStatus, kind_value}
use data_lineage_fix_agent.Models.Participants.{Participant}
use data_lineage_fix_agent.State.Tables.{MigrationRecord, Payload, plain}
use data_lineage_fix_agent.State.Migrations.{transition_migration}
use data_lineage_fix_agent.State.Migrations as M
use data_lineage_fix_agent.State.Participants.{transition_participant}
use data_lineage_fix_agent.State.Participants as P
use data_lineage_fix_agent.Candidates.Structure.{assert_structured_candidate}
use data_lineage_fix_agent.Candidates.{
  Readers, ProposalRequest, CandidateEnvelope, CandidateProposal,
}
use data_lineage_fix_agent.Coordinator.World.{
  RepositorySession, PreparationResult, Keyed, Memory, Services, Settings, commit_branch, read_diff,
}
use data_lineage_fix_agent.Coordinator.Runs.{Run, pure, lift, ask, on_store, when, ◌>>=◌, ◌>>◌}
use data_lineage_fix_agent.Coordinator.Records.{is_there}
use data_lineage_fix_agent.Coordinator.Requests.{find_keyed}
use data_lineage_fix_agent.Coordinator.Writeback.{write_evidence}

pub record PrepareOutcome : Type 0 where
  pub migration : MigrationRecord
  pub participants : List Participant
  pub results : List (String × PreparationResult)
  pub pending_approval_participant_ids : List String

-- self._results[(migration_id, participant_id)] = result, and the same of the other dicts
unfoldable pub set_keyed {ℓ} : {A : Type ℓ} → String → String → A → List (Keyed A) → List (Keyed A)
set_keyed migration participant value [] =
    record { migration = migration; participant = participant; value = value } ∷ []
set_keyed migration participant value (k ∷ ks) =
    elim (k.migration == migration && k.participant == participant) [
      | true ↦ record k { value = value } ∷ ks
      | false ↦ k ∷ set_keyed migration participant value ks
    ]

-- The dict `results` of an outcome.
unfoldable pub results_of :
    Memory → String → List String → Result (List (String × PreparationResult))
unfolding find_keyed
results_of m id [] = ok []
results_of m id (p ∷ ps) = elim (find_keyed id p m.results) [
  | none ↦ err key_error
  | some result ↦ elim (results_of m id ps) [ ok rest ↦ ok ((p, result) ∷ rest) | err e ↦ err e ]
]

-- `except (ProposalError, ValueError, TypeError)`
abbrev is_candidate_error : Exception → Bool
is_candidate_error proposal_error = true
is_candidate_error value_error = true
is_candidate_error (other_error name) = name == "TypeError"
is_candidate_error _ = false

abbrev as_policy_violation {ℓ} : {A : Type ℓ} → Result A → Result A
as_policy_violation (ok a) = ok a
as_policy_violation (err e) = if is_candidate_error e then err policy_violation else err e

-- `validate_candidate` of lineagetx/policy.py
unfoldable pub validate_candidate :
    Readers → ProposalRequest → CandidateEnvelope → Result CandidateProposal
validate_candidate rd request envelope =
    as_policy_violation (assert_structured_candidate rd request envelope)

-- The arguments of a participant's transition, and those of a migration's.
abbrev pub participant_move :
    ParticipantStatus
    → ParticipantStatus
    → ℕ
    → String
    → Payload
    → Option String
    → Option (List String)
    → String
    → P.Move
participant_move target from version event_type payload sha links now = record {
  target = target;
  expected_status = from;
  expected_version = version;
  event_type = event_type;
  payload = payload;
  candidate_commit_sha = sha;
  evidence_links = links;
  now = now;
}

abbrev pub migration_move :
    MigrationStatus → MigrationStatus → ℕ → String → Payload → String → M.Move
migration_move target from version event_type payload now = record {
  target = target;
  expected_status = from;
  expected_version = version;
  event_type = event_type;
  payload = payload;
  receipts = [];
  now = now;
}

module _ (sv : Services) (cfg : Settings) where
  -- A call of `transition_participant`, and one of `transition_migration`.
  unfoldable pub move_participant :
      String
      → ParticipantStatus
      → ParticipantStatus
      → ℕ
      → String
      → Payload
      → Option String
      → Option (List String)
      → Run Participant
  move_participant id target from version event_type payload sha links = on_store sv (λ now.
      transition_participant id
        (participant_move target from version event_type payload sha links now))

  unfoldable pub move_migration :
      String → MigrationStatus → MigrationStatus → ℕ → String → Payload → Run MigrationRecord
  move_migration id target from version event_type payload =
      on_store sv
        (λ now. transition_migration id (migration_move target from version event_type payload now))

  -- `_record_preparation`
  unfoldable pub record_preparation : Participant → String → Run (Unit {0})
  record_preparation p suffix = when (is_there cfg.evidence_migration) (do
    write_evidence sv cfg (append "proposals/" (append p.participant_id ".json"))
    write_evidence sv cfg
        (append "verification/" (append p.participant_id (append "-" (append suffix ".json")))))

  unfoldable pub candidate_message : Participant → String
  candidate_message p =
      append "LineageTX " (append (kind_value p.kind) (append ": prepare " p.participant_id))

  unfoldable pub evidence_link : Participant → String
  evidence_link p = append cfg.evidence_base_url (
      append "/"
        (append p.migration_id (append "/participants/" (append p.participant_id ".json"))))

  unfoldable pub verified_payload : String → PreparationResult → CandidateEnvelope → Payload
  verified_payload sha result envelope =
      ("candidate_commit_sha", plain (text sha))
      ∷ ("checks", plain (texts result.checks))
      ∷ ("proposal_sha256", plain (text (sv.proposal_fingerprint envelope)))
      ∷ ("unmerged", plain (flag true))
      ∷ []

  -- `_commit_verified_candidate`, for the participant at its current version
  unfoldable pub commit_verified_candidate :
      Participant → ℕ → PreparationResult → RepositorySession → CandidateEnvelope → Run Participant
  unfolding move_participant candidate_message evidence_link verified_payload
  commit_verified_candidate p version result session envelope = do
    lift (guard (result.participant_id == p.participant_id) coordination_error)
    lift (
        guard (subset result.changed_files p.files && subset p.files result.changed_files)
          coordination_error)
    sha ←
        ask (commit_branch p.migration_id)
          (λ h. sv.commit_candidate h session p.files (candidate_message p))
    when (is_there cfg.evidence_migration)
        (write_evidence sv cfg (append "participants/" (append p.participant_id ".json")))
    verified ←
        move_participant p.participant_id ParticipantStatus.verified ParticipantStatus.preparing
          version "CANDIDATE_COMMITTED_AND_VERIFIED" (verified_payload sha result envelope)
          (some sha) (some (evidence_link p ∷ []))
    when (is_there cfg.evidence_migration) (do
      ask (read_diff p.migration_id) (λ h. sv.diff h session)
      write_evidence sv cfg (append "diffs/" (append p.participant_id ".patch")))
    pure verified
