-- ===== src/Policy/Recording.antt =====
-- lineagetx/policy.py, lineagetx/coordinator.py and lineagetx/state.py: an owner approval on its way
-- from the policy's check to the store.
use Prim.Native.String.{◌++◌ as append}
use data_lineage_fix_agent.Prelude.{String, true, ◌++◌, ◌≡◌, elem}
use data_lineage_fix_agent.Models.Runtime.{Runtime, Mapping}
use data_lineage_fix_agent.Models.Status.{ParticipantKind, same_kind}
use data_lineage_fix_agent.Models.Intent.{ChangeIntent}
use data_lineage_fix_agent.Models.Participants.{Participant}
use data_lineage_fix_agent.Models.Receipts.{ApprovalReceipt}
use data_lineage_fix_agent.Policy.Approval.{OwnerApproval}

-- The receipt that `_apply_approval` builds from an approval.
unfoldable pub receipt_for :
    String → ChangeIntent → Participant → OwnerApproval → Mapping → ApprovalReceipt
receipt_for migration_id intent participant approval verification = record {
  migration_id = migration_id;
  participant_id = participant.participant_id;
  owner_urn = approval.owner_urn;
  approved_mapping = append intent.old_field (append " -> " intent.new_field);
  approved_at = approval.approved_at;
  evidence_url = approval.evidence_url;
  verification = verification;
}

-- What the policy has checked of an approval.
record IsOwnerApproval (intent : ChangeIntent) (p : Participant) (a : OwnerApproval) : Type 0 where
  semantic : same_kind p.kind ParticipantKind.semantic_approval ≡ true
  same_participant : a.participant_id ≡ p.participant_id
  owner : elem a.owner_urn p.owner_urns ≡ true
