-- ===== src/Specs/SavedView.antt =====
-- The spec of a SavedView, api/resources/v1alpha1/zz_generated_savedview_types.go.
pub mod QueryParts
pub mod Queries
pub mod ObjectSpec
