-- ===== src/Policy.antt =====
-- The policy engine, lion/lion_policy/src.
pub mod Request
pub mod Rule
pub mod Store
pub mod Evaluator
mod Examples
