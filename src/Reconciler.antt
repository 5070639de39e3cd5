-- ===== src/Reconciler.antt =====
-- internal/resources/reconcilers/common_reconciler.go: one pass over a mirrored object. `Pass` has
-- the environment and the state of a pass, `Calls` the calls of the API server and of SigNoz with
-- the small methods around them, `Existing`, `New` and `Finalize` the methods for an object that is
-- known, new or deleted, and `Reconcile` the pass as a whole. Log lines are left out.
pub mod Pass
pub mod Calls
pub mod Existing
pub mod New
pub mod Finalize
pub mod Reconcile
pub mod Settled
pub mod Invariant
pub mod Intervals
pub mod Pinned
pub mod Released
pub mod Drift
