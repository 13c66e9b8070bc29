-- ===== src/State.antt =====
-- lineagetx/state.py: `SQLiteStateStore`, the durable state of the coordinator. `Tables` has the
-- rows and the SQL statements, `Migrations`, `Participants` and `Approvals` the operations,
-- `Calls` a client's sequence of calls.
pub mod Tables
pub mod Migrations
pub mod Participants
pub mod Approvals
pub mod Events
pub mod Calls
pub mod Changes
pub mod AbortLoop
pub mod Gate
pub mod Replay
pub mod Evolution
pub mod History
pub mod Ledger
pub mod Growth
pub mod Terminal
