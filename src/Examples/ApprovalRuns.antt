-- ===== src/Examples/ApprovalRuns.antt =====
-- An owner approval that the policy accepts and the store records.
use data_lineage_fix_agent.Prelude.{[], ◌∷◌, ◌++◌, ◌≡◌, refl}
use data_lineage_fix_agent.Models.Status.{MigrationStatus, ParticipantStatus, ParticipantKind}
use data_lineage_fix_agent.Models.Participants.{Participant}
use data_lineage_fix_agent.State.Tables.{MigrationRecord, ParticipantRow, empty}
use data_lineage_fix_agent.State.Calls.{Call, approve, perform_all}
use data_lineage_fix_agent.State.Ledger.{AreApart, approvals_unique}
use data_lineage_fix_agent.Policy.Approval.{OwnerApproval}
use data_lineage_fix_agent.Policy.Recording.{receipt_for}
use data_lineage_fix_agent.Examples.{List, intent, consumer, now, waiting}
use data_lineage_fix_agent.Examples.StateRuns.{runs}

abbrev approval : OwnerApproval
approval = record {
  migration_id = "ltx-1";
  participant_id = "c3";
  owner_urn = "urn:li:corpuser:ana";
  old_field = "customer_id";
  new_field = "customer_key";
  approved_at = now;
  evidence_url = "https://github.com/acme/data/pull/7#issuecomment-1";
  decision = "APPROVED";
}

abbrev pending_migration : MigrationRecord
pending_migration = record {
  intent = intent;
  status = MigrationStatus.needs_approval;
  version = 2;
  created_at = now;
  updated_at = now;
}

abbrev pending : Participant
pending = record (consumer "c3" ParticipantKind.semantic_approval) {
  status = ParticipantStatus.needs_approval;
  version = 2;
}

abbrev pending_row : ParticipantRow
pending_row = record {
  participant_id = "c3";
  migration_id = "ltx-1";
  participant_json = pending;
  status = ParticipantStatus.needs_approval;
  version = 2;
  created_at = now;
  updated_at = now;
}

-- The approval is recorded, and a second attempt at it is refused.
abbrev approving : List Call
approving =
    waiting
    ++ approve (receipt_for "ltx-1" intent pending approval [])
      ∷ approve (receipt_for "ltx-1" intent pending approval [])
      ∷ []

one_approval :
    (perform_all approving empty).approvals ≡ receipt_for "ltx-1" intent pending approval [] ∷ []
unfolding runs receipt_for
one_approval = refl

approvals_unique_example : AreApart (perform_all approving empty).approvals
approvals_unique_example = approvals_unique approving
