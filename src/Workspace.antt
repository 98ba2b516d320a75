-- ===== src/Workspace.antt =====
-- cas_hosting_adapter/workspace_store.py and runtime.py.
pub mod Paths
pub mod Locks
pub mod Archives
pub mod Snapshots
