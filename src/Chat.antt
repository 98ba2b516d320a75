-- ===== src/Chat.antt =====
-- example/chat: the view of a conversation that the frontends share, and the service over the control
-- plane.
pub mod Events
pub mod Tasks
pub mod Interactions
pub mod Streams
pub mod Service
