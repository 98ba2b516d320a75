-- ===== src/Backends.antt =====
-- The execution backends.
pub mod Provider
pub mod Batch
pub mod Gke
pub mod CloudRun
