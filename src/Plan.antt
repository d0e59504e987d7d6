-- ===== src/Plan.antt =====
-- The plan: what a deploy would change.
pub mod Entry
pub mod Infra
pub mod Diff
pub mod Parts
pub mod Rules
pub mod Keys
pub mod KeyDiff
pub mod Storage
pub mod Databases
pub mod Live
pub mod Services
pub mod Compute
pub mod Redeploy
pub mod Scope
pub mod Workloads
pub mod Whole
pub mod Gates
