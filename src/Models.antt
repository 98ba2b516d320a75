-- ===== src/Models.antt =====
-- cas_hosting_adapter/models.py
pub mod RunStates
pub mod Json
pub mod Records
pub mod Questions
pub mod Titles
pub mod Ids
