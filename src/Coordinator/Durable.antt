-- ===== src/Coordinator/Durable.antt =====
-- lineagetx/coordinator.py: what `commit` and `abort` return is what the store has on record.
pub mod Rows
pub mod Committed
pub mod Cleaned
