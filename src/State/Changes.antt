-- ===== src/State/Changes.antt =====
-- lineagetx/state.py: what each operation of the store has found when it succeeds, and the store
-- that it leaves: the steps that the operations refine. `Inversion` proves that they do.
pub mod MigrationSteps
pub mod ParticipantSteps
pub mod Inversion
pub mod Invariants
use data_lineage_fix_agent.Prelude.{
  ℕ, ◌+◌, String, ◌≡◌, ◌⊎◌, Bool, true, false, Option, none, some, List, [], ◌∷◌, ◌++◌, Result, ok,
  ◌==◌, any, elem, all, map, distinct, if◌then◌else◌, not, ◌||◌,
}
use data_lineage_fix_agent.Models.Runtime.{flag, text, texts}
use data_lineage_fix_agent.Models.Text.{is_commit_sha}
use data_lineage_fix_agent.Models.Status.{
  MigrationStatus, detected, prepared, committed, aborted, ParticipantStatus, ParticipantKind,
  same_participant_status, can_transition, can_transition_participant,
}
use data_lineage_fix_agent.Models.Intent.{ChangeIntent}
use data_lineage_fix_agent.Models.Participants.{Participant, new}
use data_lineage_fix_agent.Models.Receipts.{ApprovalReceipt, AbortCleanupReceipt}
use data_lineage_fix_agent.State.Tables.{
  MigrationRecord, ParticipantRow, of_migration, of_participant, plain, cleanup_receipt,
  approval_receipt, Store, find_migration, find_participant, has_event, append_event,
  participants_of, order_by_id, gate_armed_event, abort_reserved_event,
}
use data_lineage_fix_agent.State.Migrations.{
  insert_participants, new_migration, check_move, check_target, update_migration, move_payload,
  abort_participants,
}
use data_lineage_fix_agent.State.Migrations as M
use data_lineage_fix_agent.State.Participants.{
  is_terminal, next_sha, next_value, update_participant, participant_from_row,
}
use data_lineage_fix_agent.State.Participants as P
use data_lineage_fix_agent.State.Approvals.{expected_mapping, same_approval}
use data_lineage_fix_agent.State.Calls.{
  Call, create, arm, reserve, move_migration, abort, move_participant, approve,
}

pub record IsCreated (intent : ChangeIntent) (ps : List Participant) (s t : Store) : Type 0 where
  pub rows : List ParticipantRow
  pub owned : all (λ p. p.migration_id == intent.migration_id) ps ≡ true
  pub apart : distinct (map (λ p. p.participant_id) ps) ≡ true
  pub absent : find_migration intent.migration_id s.migrations ≡ none
  pub inserted : insert_participants ps s.participants ≡ ok rows
  pub after :
      t
      ≡ append_event intent.migration_id "" "MIGRATION_DETECTED" none
          (of_migration detected)
          0
          (("participant_ids", plain (texts (map (λ p. p.participant_id) ps))) ∷ [])
          intent.created_at
          (record s { migrations = s.migrations ++ new_migration intent ∷ []; participants = rows })

pub record IsArmed (id : String) (version : ℕ) (now : String) (s t : Store) : Type 0 where
  pub row : MigrationRecord
  pub found : find_migration id s.migrations ≡ some row
  pub expected : row.status ≡ prepared
  pub fresh : row.version ≡ version
  pub unreserved : has_event id abort_reserved_event s.events ≡ false
  pub unarmed : has_event id gate_armed_event s.events ≡ false
  pub after :
      t
      ≡ append_event id "" gate_armed_event
          (some (of_migration row.status))
          (of_migration row.status)
          row.version
          (("candidate_cleanup_permitted", plain (flag false))
            ∷ ("recovery", plain (text "reconcile_publication"))
            ∷ [])
          now
          s

pub record IsReserved (id : String) (status : MigrationStatus) (version : ℕ) (now : String)
    (s t : Store) : Type 0 where
  pub row : MigrationRecord
  pub found : find_migration id s.migrations ≡ some row
  pub expected : row.status ≡ status
  pub fresh : row.version ≡ version
  pub unarmed : has_event id gate_armed_event s.events ≡ false
  pub unreserved : has_event id abort_reserved_event s.events ≡ false
  pub after :
      t
      ≡ append_event id "" abort_reserved_event
          (some (of_migration row.status))
          (of_migration row.status)
          row.version
          (("scope", plain (text "unmerged_candidate_changes_only")) ∷ [])
          now
          s

pub record IsMoved (id : String) (m : M.Move) (s t : Store) : Type 0 where
  pub row : MigrationRecord
  pub found : find_migration id s.migrations ≡ some row
  pub expected : row.status ≡ m.expected_status
  pub fresh : row.version ≡ m.expected_version
  pub allowed : can_transition row.status m.target ≡ true
  pub checked : check_move id m ≡ ok tt
  pub met :
      check_target m.target m.receipts (order_by_id (participants_of id s.participants)) ≡ ok tt
  pub after :
      t
      ≡ append_event id "" m.event_type
          (some (of_migration row.status))
          (of_migration m.target)
          (row.version + 1)
          (move_payload m)
          m.now
          (record s { migrations = update_migration row m.target m.now s.migrations })

-- The store of `abort_migration` when its loop over the participants begins.
unfoldable pub mark_aborted :
    String → MigrationRecord → AbortCleanupReceipt → String → Store → Store
mark_aborted id row receipt now s =
    append_event id "" "MIGRATION_ABORTED" (some (of_migration row.status)) (of_migration aborted)
      (row.version + 1) (("cleanup", cleanup_receipt receipt) ∷ []) now
      (record s { migrations = update_migration row aborted now s.migrations })

pub record IsAborted (id : String) (receipt : AbortCleanupReceipt) (status : MigrationStatus)
    (version : ℕ) (now : String) (s t : Store) : Type 0 where
  pub row : MigrationRecord
  pub found : find_migration id s.migrations ≡ some row
  pub expected : row.status ≡ status
  pub fresh : row.version ≡ version
  pub unarmed : has_event id gate_armed_event s.events ≡ false
  pub allowed : can_transition row.status aborted ≡ true
  pub clean : receipt.cleanup_errors ≡ []
  pub after :
      abort_participants id now
        (order_by_id (participants_of id s.participants))
        (mark_aborted id row receipt now s)
      ≡ ok t

pub record IsParticipantMoved (id : String) (m : P.Move) (s t : Store) : Type 0 where
  pub row : ParticipantRow
  pub migration : MigrationRecord
  pub sha : String
  pub found : find_participant id s.participants ≡ some row
  pub parent : find_migration row.migration_id s.migrations ≡ some migration
  pub live : is_terminal migration.status ≡ false
  pub expected : row.status ≡ m.expected_status
  pub fresh : row.version ≡ m.expected_version
  pub allowed : can_transition_participant row.status m.target ≡ true
  pub chosen : next_sha m.candidate_commit_sha row.participant_json.candidate_commit_sha ≡ ok sha
  pub proved :
      not (same_participant_status m.target ParticipantStatus.verified) || is_commit_sha sha ≡ true
  pub after :
      t
      ≡ append_event row.migration_id id m.event_type
          (some (of_participant row.status))
          (of_participant m.target)
          (row.version + 1)
          m.payload
          m.now
          (record s { participants = update_participant row (next_value m row sha) s.participants })

pub record IsApproved (receipt : ApprovalReceipt) (s t : Store) : Type 0 where
  pub row : ParticipantRow
  pub migration : MigrationRecord
  pub found : find_participant receipt.participant_id s.participants ≡ some row
  pub parent : find_migration receipt.migration_id s.migrations ≡ some migration
  pub belongs : row.migration_id ≡ receipt.migration_id
  pub live : is_terminal migration.status ≡ false
  pub waiting : row.status ≡ ParticipantStatus.needs_approval
  pub semantic : row.participant_json.kind ≡ ParticipantKind.semantic_approval
  pub owner : elem receipt.owner_urn row.participant_json.owner_urns ≡ true
  pub mapping : receipt.approved_mapping ≡ expected_mapping migration.intent
  pub new_approval : any (same_approval receipt) s.approvals ≡ false
  pub after :
      t
      ≡ append_event receipt.migration_id receipt.participant_id "OWNER_APPROVAL_RECORDED"
          (some (of_participant row.status))
          (of_participant row.status)
          row.version
          (("approval", approval_receipt receipt) ∷ [])
          receipt.approved_at
          (record s { approvals = s.approvals ++ receipt ∷ [] })

-- The step of each call.
abbrev pub Effect : Call → Store → Store → Type 0
Effect (create intent ps) = IsCreated intent ps
Effect (arm id version now) = IsArmed id version now
Effect (reserve id status version now) = IsReserved id status version now
Effect (move_migration id m) = IsMoved id m
Effect (abort id receipt status version now) = IsAborted id receipt status version now
Effect (move_participant id m) = IsParticipantMoved id m
Effect (approve receipt) = IsApproved receipt
