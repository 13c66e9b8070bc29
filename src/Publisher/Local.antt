-- ===== src/Publisher/Local.antt =====
-- lineagetx/publisher.py: `LocalReceiptPublisher`. Its three dicts are a record that each operation
-- gives back; `utc_now()` is an argument, and so is what the file system answers to the write of
-- publication.json.
use Prim.Native.String.{◌++◌ as append}
use data_lineage_fix_agent.Prelude.{
  String, Bool, true, false, Option, none, some, List, [], ◌∷◌, map, Result, ok, err, value_error,
  publication_error, ◌>>◌, guard, lookup, set_entry,
}
use data_lineage_fix_agent.Models.Runtime.{Runtime}
use data_lineage_fix_agent.Models.Text.{has_text}
use data_lineage_fix_agent.Models.Status.{candidate_commit, coordinated_pr, producer_gate_released}
use data_lineage_fix_agent.Models.Receipts.{CoordinationReceipt, check_coordination_receipt}
use data_lineage_fix_agent.Publisher.Requests.{
  CandidateCommit, PublicationRequest, PublicationStage, PublicationResult, branch_ref,
  validate_stage, validate_result,
}
use data_lineage_fix_agent.Publisher.Equality.{
  PublicationRequest-discrete, PublicationStage-discrete,
}

pub record PublisherState : Type 0 where
  pub requests : List (String × PublicationRequest)
  pub stages : List (String × PublicationStage)
  pub results : List (String × PublicationResult)

-- What publication.json holds.
pub record Publication : Type 0 where
  pub candidates : List CandidateCommit
  pub coordinated_pr : CoordinationReceipt
  pub producer_gate : CoordinationReceipt
  pub title : String

-- The clock, Python's parsers, and the file system's answer to a write.
pub record World : Type 0 where
  pub runtime : Runtime
  pub now : String
  pub write_publication : String → Publication → Result (Unit {0})

unfoldable pub migration_of : PublicationRequest → String
migration_of q = q.intent.migration_id

unfoldable pub candidate_receipt :
    World → PublicationRequest → CandidateCommit → CoordinationReceipt
candidate_receipt w q c = record {
  migration_id = q.intent.migration_id;
  kind = candidate_commit;
  reference = branch_ref c;
  recorded_at = w.now;
  commit_sha = c.commit_sha;
  evidence_url = "";
  merged = false;
}

unfoldable pub coordinated_receipt : World → PublicationRequest → CoordinationReceipt
coordinated_receipt w q =
    let base = append "https://replay.lineagetx.invalid/" q.intent.migration_id in
    record {
      migration_id = q.intent.migration_id;
      kind = coordinated_pr;
      reference = append base "/coordinated-pr";
      recorded_at = w.now;
      commit_sha = "";
      evidence_url = append base "/publication.json";
      merged = false;
    }

unfoldable pub gate_receipt : World → PublicationRequest → PublicationStage → CoordinationReceipt
gate_receipt w q stage = record {
  migration_id = q.intent.migration_id;
  kind = producer_gate_released;
  reference = append "check-run:lineagetx/safe-to-contract:" q.intent.producer_head_sha;
  recorded_at = w.now;
  commit_sha = "";
  evidence_url = stage.coordinated_pr_receipt.reference;
  merged = false;
}

-- The checks of each receipt's construction.
unfoldable pub check_receipts : Runtime → List CoordinationReceipt → Result (Unit {0})
check_receipts rt [] = ok tt
check_receipts rt (r ∷ rs) = do check_coordination_receipt rt r; check_receipts rt rs

unfoldable pub new_stage : World → PublicationRequest → Result PublicationStage
new_stage w q = do
  let made : PublicationStage = record {
    candidate_receipts = map (candidate_receipt w q) q.candidates;
    coordinated_pr_receipt = coordinated_receipt w q;
  }
  check_receipts w.runtime made.candidate_receipts
  check_coordination_receipt w.runtime made.coordinated_pr_receipt
  validate_stage q made
  ok made

-- `previous is not None and previous != request`
unfoldable pub is_other_request : Option PublicationRequest → PublicationRequest → Bool
is_other_request none q = false
is_other_request (some p) q = elim (PublicationRequest-discrete p q) [ yes _ ↦ false | no _ ↦ true ]

unfoldable pub keep_stage :
    PublicationRequest
    → Result PublicationStage
    → PublisherState
    → Result PublicationStage × PublisherState
keep_stage q (err e) st = (err e, st)
keep_stage q (ok stage) st = (
  ok stage,
  record st {
    requests = set_entry (migration_of q) q st.requests;
    stages = set_entry (migration_of q) stage st.stages;
  },
)

unfoldable pub stage :
    World → PublicationRequest → PublisherState → Result PublicationStage × PublisherState
stage w q st = elim (is_other_request (lookup (migration_of q) st.requests) q) [
  | true ↦ (err publication_error, st)
  | false ↦ elim (lookup (migration_of q) st.stages) [
    | some known ↦ (ok known, st)
    | none ↦ keep_stage q (new_stage w q) st
  ]
]

-- `self._stages.get(migration_id) != stage`
unfoldable pub is_staged : Option PublicationStage → PublicationStage → Bool
is_staged none stage = false
is_staged (some known) stage = elim (PublicationStage-discrete known stage) [
  | yes _ ↦ true
  | no _ ↦ false
]

-- The result of a first release: the gate's receipt, its checks and the written file.
unfoldable pub new_result : World → PublicationRequest → PublicationStage → Result PublicationResult
new_result w q staged = do
  let gate = gate_receipt w q staged
  check_coordination_receipt w.runtime gate
  let result : PublicationResult = record {
    candidate_receipts = staged.candidate_receipts;
    coordinated_pr_receipt = staged.coordinated_pr_receipt;
    producer_gate_receipt = gate;
  }
  validate_result q result
  guard (has_text q.intent.migration_id) value_error
  w.write_publication q.intent.migration_id (record {
    candidates = q.candidates;
    coordinated_pr = staged.coordinated_pr_receipt;
    producer_gate = gate;
    title = q.title;
  })
  ok result

unfoldable pub keep_result :
    PublicationRequest
    → Result PublicationResult
    → PublisherState
    → Result PublicationResult × PublisherState
keep_result q (err e) st = (err e, st)
keep_result q (ok r) st = (ok r, record st { results = set_entry (migration_of q) r st.results })

unfoldable pub release_gate :
    World
    → PublicationRequest
    → PublicationStage
    → PublisherState
    → Result PublicationResult × PublisherState
release_gate w q stage st = elim (validate_stage q stage) [
  | err e ↦ (err e, st)
  | ok _ ↦ elim (is_staged (lookup (migration_of q) st.stages) stage) [
    | false ↦ (err publication_error, st)
    | true ↦ elim (lookup (migration_of q) st.results) [
      | some known ↦ ((do validate_result q known; ok known), st)
      | none ↦ keep_result q (new_result w q stage) st
    ]
  ]
]

-- `reconcile` changes nothing; `none` is Python's None.
unfoldable pub reconcile :
    PublicationRequest → PublicationStage → PublisherState → Result (Option PublicationResult)
reconcile q stage st = do
  validate_stage q stage
  elim (lookup (migration_of q) st.results) [
    | none ↦ ok none
    | some known ↦ do validate_result q known; ok (some known)
  ]

-- `self.reconcile(request, stage) or self.release_gate(request, stage)`
unfoldable pub reconcile_or_release :
    World
    → PublicationRequest
    → PublicationStage
    → PublisherState
    → Result PublicationResult × PublisherState
reconcile_or_release w q stage st = elim (reconcile q stage st) [
  | err e ↦ (err e, st)
  | ok found ↦ elim found [ some known ↦ (ok known, st) | none ↦ release_gate w q stage st ]
]

unfoldable pub publish :
    World → PublicationRequest → PublisherState → Result PublicationResult × PublisherState
publish w q st =
    let staged = stage w q st in
    elim staged.0 [ err e ↦ (err e, staged.1) | ok s ↦ reconcile_or_release w q s staged.1 ]
