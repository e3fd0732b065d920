-- ===== src/Execution.antt =====
-- services/execution: the execution of planned actions, with the records that it keeps.
pub mod Records
pub mod Actions
pub mod Mail
pub mod Service
