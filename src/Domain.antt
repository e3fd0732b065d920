-- ===== src/Domain.antt =====
-- data/domain: the immutable records that the services exchange. A timestamp or a date is a number
-- of microseconds or of days, and an amount of money a number of cents.
pub mod Common
pub mod Operations
pub mod Analysis
pub mod Snapshot
pub mod Finance
pub mod OutboundMail
pub mod Evidence
pub mod Decisions
