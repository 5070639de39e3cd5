-- ===== src/Resources.antt =====
-- internal/resources: the reasons and outcomes of a reconcile (reason.go, reconciler.go), the
-- conditions that report them (condition.go), and the interface of a mirrored object (object.go).
pub mod Reason
pub mod Condition
pub mod Object
