-- ===== src/Policy.antt =====
-- services/policy: the approval policies.
pub mod Thresholds
pub mod FinanceReview
pub mod Evidence
pub mod Approvals
