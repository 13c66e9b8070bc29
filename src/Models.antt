-- ===== src/Models.antt =====
-- lineagetx/models.py: the statuses and their transitions, the validated records, and the text
-- tests that the records are validated with.
pub mod Status
pub mod Runtime
pub mod Text
pub mod Intent
pub mod Receipts
pub mod Participants
pub mod RoundTrip
