-- ===== src/Workload.antt =====
-- internal/reconcile/services.go and crons.go with the objects that they set.
pub mod Credentials
pub mod Agree
pub mod Upsert
pub mod Exact
pub mod Apply
pub mod Staged
pub mod Objects
pub mod Set
pub mod Mounts
pub mod Builds
pub mod Accepted
