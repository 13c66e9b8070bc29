-- ===== src/Policy.antt =====
-- lineagetx/policy.py: `LineageTXSafetyPolicy`, the checks that fail closed.
pub mod Context
pub mod Discovery
pub mod Binding
pub mod Traces
pub mod Approval
pub mod Hops
pub mod Recording
pub mod Bindings
