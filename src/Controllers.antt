-- ===== src/Controllers.antt =====
-- internal/controller/resources: the events that requeue objects (Watches) and the Reconcile of each
-- controller (Reconcilers).
pub mod Watches
pub mod Reconcilers
