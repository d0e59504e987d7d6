-- ===== src/Kube.antt =====
-- pkg/kube: the owner-scoped listing and deletion of cluster resources, and secrets.
pub mod Sweep
pub mod Secrets
pub mod Converges
