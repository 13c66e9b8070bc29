-- ===== src/State/Approvals.antt =====
-- lineagetx/state.py: `SQLiteStateStore.record_approval`.
use Prim.Native.String.{◌++◌ as append}
use data_lineage_fix_agent.Prelude.{
  String, Bool, ◌&&◌, not, some, [], ◌∷◌, ◌++◌, Result, ok, state_conflict, participant_not_found,
  parent_migration_terminal, approval_guard_failed, ◌>>=◌, ◌>>◌, guard, require, ◌==◌, any, elem,
}
use data_lineage_fix_agent.Models.Status.{
  ParticipantStatus, ParticipantKind, same_participant_status, same_kind,
}
use data_lineage_fix_agent.Models.Intent.{ChangeIntent}
use data_lineage_fix_agent.Models.Receipts.{ApprovalReceipt}
use data_lineage_fix_agent.State.Tables.{
  of_participant, approval_receipt, Store, append_event, write_transaction,
}
use data_lineage_fix_agent.State.Participants.{join_participant, is_terminal, participant_from_row}

-- f"{intent.old_field} -> {intent.new_field}"
unfoldable pub expected_mapping : ChangeIntent → String
expected_mapping intent = append intent.old_field (append " -> " intent.new_field)

-- The primary key of `approvals`.
unfoldable pub same_approval : ApprovalReceipt → ApprovalReceipt → Bool
same_approval a b =
    a.migration_id == b.migration_id
    && a.participant_id == b.participant_id
    && a.owner_urn == b.owner_urn

unfoldable pub approval_body : ApprovalReceipt → Store → Result (Unit {0} × Store)
approval_body receipt s = do
  joined ← require (join_participant receipt.participant_id s) participant_not_found
  let row = joined.row
  guard (row.migration_id == receipt.migration_id) participant_not_found
  guard (not (is_terminal joined.migration.status)) parent_migration_terminal
  guard (same_participant_status row.status ParticipantStatus.needs_approval) approval_guard_failed
  participant ← participant_from_row row
  guard (same_kind participant.kind ParticipantKind.semantic_approval) approval_guard_failed
  guard (elem receipt.owner_urn participant.owner_urns) approval_guard_failed
  guard (receipt.approved_mapping == expected_mapping joined.migration.intent) approval_guard_failed
  guard (not (any (same_approval receipt) s.approvals)) state_conflict
  ok (
    tt,
    append_event receipt.migration_id receipt.participant_id "OWNER_APPROVAL_RECORDED"
        (some (of_participant row.status)) (of_participant row.status) row.version
        (("approval", approval_receipt receipt) ∷ []) receipt.approved_at
        (record s { approvals = s.approvals ++ receipt ∷ [] }),
  )

unfoldable pub record_approval : ApprovalReceipt → Store → Result (Unit {0}) × Store
unfolding write_transaction
record_approval receipt = write_transaction (approval_body receipt)
