-- ===== src/Coordinator/Recovery/Receipts.antt =====
-- lineagetx/coordinator.py: the receipts of a publication, from the payload of COMMITTED and back.
use data_lineage_fix_agent.Prelude.{◌≡◌, true, all, length, ok}
use data_lineage_fix_agent.Models.Runtime.{Runtime}
use data_lineage_fix_agent.Models.Status.{
  candidate_commit, coordinated_pr, producer_gate_released, same_receipt_kind,
}
use data_lineage_fix_agent.Models.Receipts.{CoordinationReceipt, check_coordination_receipt}
use data_lineage_fix_agent.Publisher.Requests.{PublicationResult}

-- A receipt as `from_dict` accepts it.
abbrev pub IsReadable : Runtime → CoordinationReceipt → Type 0
IsReadable rt r = check_coordination_receipt rt r ≡ ok tt

-- What `validate` and the check of the request have found.
record IsValid (p : PublicationResult) : Type 0 where
  count : length p.candidate_receipts ≡ 3
  kinds : all (λ r. same_receipt_kind r.kind candidate_commit) p.candidate_receipts ≡ true
  pr : same_receipt_kind p.coordinated_pr_receipt.kind coordinated_pr ≡ true
  gate : same_receipt_kind p.producer_gate_receipt.kind producer_gate_released ≡ true
