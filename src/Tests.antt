-- ===== src/Tests.antt =====
-- Runs of the model on concrete data.
pub mod Samples
pub mod Order
pub mod Secrets
pub mod Text
pub mod Plans
pub mod Databases
pub mod Sweeps
pub mod Accepts
pub mod Deploys
pub mod Redeploys
pub mod Workloads
