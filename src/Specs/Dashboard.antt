-- ===== src/Specs/Dashboard.antt =====
-- The spec of a Dashboard, api/resources/v1alpha1/zz_generated_dashboard_types.go.
pub mod Charts
pub mod Plugins
pub mod QueryParts
pub mod NestedQueryParts
pub mod NestedQueries
pub mod Panels
pub mod ObjectSpec
