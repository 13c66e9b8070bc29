-- ===== src/Coordinator/Recovery.antt =====
-- lineagetx/coordinator.py: `_publication_from_state` and `_abort_cleanup_from_state`, which read the
-- durable receipts back from the event log.
pub mod Receipts
use data_lineage_fix_agent.Prelude.{
  Bool, true, false, ◌&&◌, Option, none, some, List, [], ◌∷◌, Result, ok, err, coordination_error,
  ◌>>=◌, ◌>>◌, require, ◌==◌, filter, lookup,
}
use data_lineage_fix_agent.Models.Runtime.{Runtime}
use data_lineage_fix_agent.Models.Status.{
  CoordinationReceiptKind, candidate_commit, coordinated_pr, producer_gate_released,
  same_receipt_kind, committed, aborted, same_status,
}
use data_lineage_fix_agent.Models.Receipts.{
  CoordinationReceipt, AbortCleanupReceipt, check_coordination_receipt, check_cleanup_receipt,
}
use data_lineage_fix_agent.State.Tables.{
  StateEvent, Status, of_migration, of_participant, Payload, coordination_receipts, cleanup_receipt,
}
use data_lineage_fix_agent.Publisher.Requests.{PublicationResult}

abbrev pub is_committed : Status → Bool
is_committed (of_migration s) = same_status s committed
is_committed (of_participant _) = false

abbrev is_aborted : Status → Bool
is_aborted (of_migration s) = same_status s aborted
is_aborted (of_participant _) = false

-- `next((event for event in reversed(events) if test(event)), None)`
unfoldable pub last_event : (StateEvent → Bool) → List StateEvent → Option StateEvent
last_event test [] = none
last_event test (e ∷ es) = elim (last_event test es) [
  | some later ↦ some later
  | none ↦ elim (test e) [ true ↦ some e | false ↦ none ]
]

-- Any exception becomes a CoordinationError.
abbrev as_coordination_error {ℓ} : {A : Type ℓ} → Result A → Result A
as_coordination_error (ok a) = ok a
as_coordination_error (err _) = err coordination_error

-- `CoordinationReceipt.from_dict` of what `to_dict` wrote, which always writes that nothing is merged.
unfoldable pub read_receipt : Runtime → CoordinationReceipt → Result CoordinationReceipt
read_receipt rt r = do
  let read : CoordinationReceipt = record r { merged = false }
  check_coordination_receipt rt read
  ok read

unfoldable pub read_receipts :
    Runtime → List CoordinationReceipt → Result (List CoordinationReceipt)
unfolding read_receipt
read_receipts rt [] = ok []
read_receipts rt (r ∷ rs) = do
  read ← read_receipt rt r
  rest ← read_receipts rt rs
  ok (read ∷ rest)

-- The value of `payload.get("coordination_receipts")`, if it is a list of receipts.
abbrev pub raw_receipts : Payload → Option (List CoordinationReceipt)
raw_receipts payload = elim (lookup "coordination_receipts" payload) [
  | none ↦ none
  | some value ↦ elim value [ coordination_receipts rs ↦ some rs | _ ↦ none ]
]

abbrev of_kind : CoordinationReceiptKind → List CoordinationReceipt → List CoordinationReceipt
of_kind k = filter (λ r. same_receipt_kind r.kind k)

-- Three candidates, one coordinated pull request and one gate.
unfoldable pub assemble :
    List CoordinationReceipt
    → List CoordinationReceipt
    → List CoordinationReceipt
    → Result PublicationResult
assemble (a ∷ b ∷ c ∷ []) (pr ∷ []) (gate ∷ []) = ok (record {
  candidate_receipts = a ∷ b ∷ c ∷ [];
  coordinated_pr_receipt = pr;
  producer_gate_receipt = gate;
})
assemble _ _ _ = err coordination_error

unfoldable pub publication_of : List CoordinationReceipt → Result PublicationResult
unfolding assemble
publication_of receipts =
    assemble (of_kind candidate_commit receipts) (of_kind coordinated_pr receipts)
      (of_kind producer_gate_released receipts)

-- `_publication_from_state`, of the events of the migration
unfoldable pub publication_from_events : Runtime → List StateEvent → Result PublicationResult
unfolding last_event read_receipts publication_of
publication_from_events rt events = do
  event ← require (last_event (λ e. is_committed e.to_status) events) coordination_error
  raw ← require (raw_receipts event.payload) coordination_error
  receipts ← as_coordination_error (read_receipts rt raw)
  publication_of receipts

abbrev raw_cleanup : Payload → Option AbortCleanupReceipt
raw_cleanup payload = elim (lookup "cleanup" payload) [
  | none ↦ none
  | some value ↦ elim value [ cleanup_receipt r ↦ some r | _ ↦ none ]
]

-- `_abort_cleanup_from_state`, of the events of the migration
unfoldable pub abort_cleanup_from_events : Runtime → List StateEvent → Result AbortCleanupReceipt
unfolding last_event
abort_cleanup_from_events rt events = do
  event ←
      require
        (last_event (λ e. e.event_type == "MIGRATION_ABORTED" && is_aborted e.to_status) events)
        coordination_error
  raw ← require (raw_cleanup event.payload) coordination_error
  as_coordination_error (check_cleanup_receipt rt raw)
  ok raw
