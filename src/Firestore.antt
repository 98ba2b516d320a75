-- ===== src/Firestore.antt =====
-- cas_hosting_adapter/firestore_chat_store.py.
pub mod Documents
pub mod Sessions
pub mod Runs
pub mod Events
pub mod Leases
pub mod Questions
