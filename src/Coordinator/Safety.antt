-- ===== src/Coordinator/Safety.antt =====
-- lineagetx/coordinator.py: the gate release against the removal of candidates.
pub mod Sound
pub mod Statements
pub mod Release
pub mod Reached
pub mod Removal
pub mod Arming
pub mod Preparation
pub mod Approval
pub mod Operations
