-- ===== src/Domain/Analysis.antt =====
-- data/domain/analysis.py: quantities in time, response options and the trace of their ranking.
use supply_response.Base.{ℕ, String, Option, List, Bool}
use supply_response.Base.Int.{ℤ}
use supply_response.Domain.Common.{Date, Instant, Money, ResponseOptionKind, ExternalSideEffect}
use supply_response.Domain.Evidence.{AuthorityScope}

pub record TimedQuantity : Type 0 where
  pub date : Date
  pub quantity : ℤ
  pub source_id : String

pub record ProjectionPoint : Type 0 where
  pub date : Date
  pub receipts : ℤ
  pub transfers : ℤ
  pub demand : ℤ
  pub projected_balance : ℤ

pub record CalculationMetadata : Type 0 where
  pub analysis_id : String
  pub calculation_version : String
  pub timestamp : Instant
  pub assumptions : List String
  pub source_data_lineage : List String

pub record ExposureResult : Type 0 where
  pub metadata : CalculationMetadata
  pub usable_inventory : ℤ
  pub projected_inventory : List ProjectionPoint
  pub first_stockout_date : Option Date
  pub maximum_shortage_quantity : ℤ
  pub affected_production_order_ids : List String
  pub affected_customer_order_line_ids : List String
  pub revenue_at_risk : Money
  pub margin_at_risk : Money
  pub otif_lines_at_risk : ℕ
  pub response_cost : Money
  pub revenue_protected : Money
  pub remaining_uncertainty : List String

-- The money fields have no bound here, so they are integers of cents.
pub record PredictedOutcome : Type 0 where
  pub uncovered_part_demand : ℤ
  pub otif_loss_percentage : ℤ
  pub revenue_at_risk : ℤ
  pub margin_at_risk : ℤ
  pub response_cost : ℤ
  pub protected_customer_order_ids : List String

pub record ResponseOptionEvidenceRequirement : Type 0 where
  pub evidence_id : String
  pub authority_scope : List AuthorityScope

pub record ResponseOption : Type 0 where
  pub option_id : String
  pub option_kind : ResponseOptionKind
  pub name : String
  pub executable : Bool
  pub active_mitigation : Bool
  pub predicted : Option PredictedOutcome
  pub assumptions : List String
  pub evidence_ids : List String
  pub evidence_requirements : List ResponseOptionEvidenceRequirement
  pub blocking_codes : List String
  pub prerequisite_roles : List String
  pub source_data_lineage : List String
  pub approval_burden : ℤ
  pub execution_risk : ℤ
  pub requested_side_effects : List ExternalSideEffect

-- The names of the comparators: fields of an option's predicted outcome, or of the option.
pub data ComparatorName : Type 0 where
  uncovered_part_demand otif_loss_percentage revenue_at_risk margin_at_risk : ComparatorName
  response_cost approval_burden execution_risk option_id : ComparatorName

-- `Decimal | str`
pub data Score : Type 0 where
  number : ℤ → Score
  text : String → Score

pub record ComparatorValue : Type 0 where
  pub option_id : String
  pub value : Score

pub record RankingStage : Type 0 where
  pub comparator : ComparatorName
  pub threshold : ℤ
  pub lower_is_better : Bool
  pub input_option_ids : List String
  pub values : List ComparatorValue
  pub retained_option_ids : List String
  pub eliminated_option_ids : List String

pub record RankingResult : Type 0 where
  pub policy_version : String
  pub eligible_option_ids : List String
  pub infeasible_option_ids : List String
  pub excluded_baseline_ids : List String
  pub stages : List RankingStage
  pub recommended_option_id : Option String
  pub no_feasible_mitigation : Bool
