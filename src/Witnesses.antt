-- ===== src/Witnesses.antt =====
-- Runs of the definitions on small inputs, and each property at one of them.
mod Data
mod Reserving
mod Ending
mod Store
mod Services
mod Values
mod Clouds
mod Jobs
mod Files
mod Documents
mod Chats
