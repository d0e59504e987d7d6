-- ===== src/Deploy.antt =====
-- Deploy of internal/reconcile/reconcile.go: the order of the steps of a deployment.
pub mod Action
pub mod Engine
pub mod Steps
pub mod Phases
pub mod Follows
pub mod Runs
pub mod Order
pub mod Turns
pub mod Laws
