-- ===== src/Persistence.antt =====
-- services/persistence: the retention of presenter runs.
pub mod Presenter
