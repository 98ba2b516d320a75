-- ===== src/Fakes.antt =====
-- cas_hosting_adapter/protocols.py: the fakes of the snapshot store, the workspace store, the
-- run locks and the execution backend, which the hosting code runs on without a cloud.
pub mod Objects
pub mod Executions
pub mod Generations
pub mod Starts
