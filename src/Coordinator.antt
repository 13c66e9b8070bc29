-- ===== src/Coordinator.antt =====
-- lineagetx/coordinator.py: `LineageTXCoordinator`, over the store and the collaborators that its
-- constructor takes.
pub mod World
pub mod Runs
pub mod Names
pub mod Records
pub mod Writeback
pub mod Recovery
pub mod Abort
pub mod Requests
pub mod Commit
pub mod Verify
pub mod Prepare
pub mod Approve
pub mod Refusal
pub mod Detect
pub mod Rules
pub mod Gains
pub mod Safety
pub mod Durable
