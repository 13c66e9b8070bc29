-- ===== src/State/Calls.antt =====
-- lineagetx/state.py: the calls that a client of the store makes, in the order in which SQLite lets
-- them in (`BEGIN IMMEDIATE` lets one writer in at a time).
use data_lineage_fix_agent.Prelude.{ℕ, String, ◌≢◌, List, [], ◌∷◌}
use data_lineage_fix_agent.Models.Status.{MigrationStatus}
use data_lineage_fix_agent.Models.Intent.{ChangeIntent}
use data_lineage_fix_agent.Models.Participants.{Participant}
use data_lineage_fix_agent.Models.Receipts.{ApprovalReceipt, AbortCleanupReceipt}
use data_lineage_fix_agent.State.Tables.{Store, gate_armed_event, abort_reserved_event}
use data_lineage_fix_agent.State.Migrations.{
  create_migration, arm_publication_gate, reserve_abort_cleanup, transition_migration,
  abort_migration,
}
use data_lineage_fix_agent.State.Migrations as M
use data_lineage_fix_agent.State.Participants.{transition_participant}
use data_lineage_fix_agent.State.Participants as P
use data_lineage_fix_agent.State.Approvals.{record_approval}

pub data Call : Type 0 where
  create : ChangeIntent → List Participant → Call
  arm : String → ℕ → String → Call
  reserve : String → MigrationStatus → ℕ → String → Call
  move_migration : String → M.Move → Call
  abort : String → AbortCleanupReceipt → MigrationStatus → ℕ → String → Call
  move_participant : String → P.Move → Call
  approve : ApprovalReceipt → Call

-- The store after the call, whether it returned or raised.
unfoldable pub perform : Call → Store → Store
perform (create intent participants) s = (create_migration intent participants s).1
perform (arm id version now) s = (arm_publication_gate id version now s).1
perform (reserve id status version now) s = (reserve_abort_cleanup id status version now s).1
perform (move_migration id m) s = (transition_migration id m s).1
perform (abort id receipt status version now) s =
    (abort_migration id receipt status version now s).1
perform (move_participant id m) s = (transition_participant id m s).1
perform (approve receipt) s = (record_approval receipt s).1

unfoldable pub perform_all : List Call → Store → Store
unfolding perform
perform_all [] s = s
perform_all (c ∷ cs) s = perform_all cs (perform c s)

abbrev pub IsOpenType : String → Type 0
IsOpenType event_type = (event_type ≢ gate_armed_event) × (event_type ≢ abort_reserved_event)

-- The caller's event type is none of the two that the store reserves for itself.
abbrev pub IsPermitted : Call → Type 0
IsPermitted (move_migration id m) = IsOpenType m.event_type
IsPermitted (move_participant id m) = IsOpenType m.event_type
IsPermitted _ = Unit
