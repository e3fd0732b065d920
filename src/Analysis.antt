-- ===== src/Analysis.antt =====
-- services/analysis: from an operational snapshot to ranked response options.
pub mod Error
pub mod Exposure
pub mod Ranking
pub mod Options
