-- ===== src/Analysis/Error.antt =====
-- The exceptions that the analysis services let through, by their Python class.
pub data AnalysisError : Type 0 where
  value_error type_error key_error zero_division_error attribute_error : AnalysisError
