-- ===== src/Publisher.antt =====
-- lineagetx/publisher.py: what a publication is, and the publisher that keeps it in memory.
pub mod Requests
pub mod Equality
pub mod Local
pub mod Retry
pub mod Acceptance
