-- ===== src/Execution/Mail.antt =====
-- The supplier email of a decision: services/execution/mail_service.py over its repository in
-- services/persistence/store.py.
pub mod Rows
pub mod Updates
pub mod Guards
pub mod Editing
pub mod Reviewing
pub mod Sending
pub mod Delivery
pub mod Keeps
pub mod Calls
pub mod Once
pub mod Opening
pub mod Every
