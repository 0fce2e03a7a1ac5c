-- ===== src/Policy.antt =====
-- internal/controllers/policy_evaluator.go: the policies that a service instance has to satisfy.
pub mod Rules
pub mod Context
pub mod Constraints
pub mod Evaluator
