-- ===== src/InMemory.antt =====
-- cas_hosting_adapter/in_memory_chat_store.py: InMemoryChatStore. Its lock makes each method one
-- step; the state is in `State`, the methods in the other children.
pub mod State
pub mod Sessions
pub mod Runs
pub mod Events
pub mod Leases
pub mod Questions
pub mod Invariant
pub mod Steps
pub mod Port
