-- ===== src/Kubernetes.antt =====
-- The Kubernetes side of the runner (runner/runner/kubernetes.py).
pub mod Collection
pub mod Pull
pub mod Ownership
pub mod Sync
pub mod Projection
