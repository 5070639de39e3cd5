-- ===== src/Specs/Rule.antt =====
-- The spec of a Rule, api/resources/v1alpha1/zz_generated_rule_types.go.
pub mod QueryParts
pub mod Queries
pub mod ObjectSpec
