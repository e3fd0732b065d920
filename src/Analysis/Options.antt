-- ===== src/Analysis/Options.antt =====
-- services/analysis/options.py: the response options of a snapshot and their predicted outcomes.
pub mod Outcome
pub mod Parts
pub mod Evaluate
pub mod Consistent
pub mod Total
