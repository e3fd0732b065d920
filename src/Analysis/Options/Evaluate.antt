-- ===== src/Analysis/Options/Evaluate.antt =====
-- services/analysis/options.py: the six response options of a snapshot.
use supply_response.Base.{
  ℕ, ◌+◌, ◌*◌, String, Bool, true, false, ◌&&◌, Option, none, some, is_some, List, [], ◌∷◌, ◌++◌,
  map, find, str_eq, if◌then◌else◌,
}
use supply_response.Base.Int.{pos}
use supply_response.Base.Result.{Result, ok, err, ◌>>=◌}
use supply_response.Domain.Common.{
  no_mitigation, expedite, transfer, resequence, alternate_source, combined,
}
use supply_response.Domain.Operations.{QualificationStatus, approved, SupplyReceiptOption}
use supply_response.Domain.Evidence.{operational_quantity, operational_date, qualification_state}
use supply_response.Domain.Analysis.{
  TimedQuantity, PredictedOutcome, ResponseOption, ResponseOptionEvidenceRequirement,
}
use supply_response.Domain.Snapshot.{OperationalSnapshot}
use supply_response.Policy.Thresholds.{requires_finance_approval}
use supply_response.Analysis.Error.{AnalysisError, value_error}
use supply_response.Analysis.Options.Outcome.{Plan, calculate_intervention_outcome}
use supply_response.Analysis.Options.Parts.{
  Factors, response_option, alpha_receipt, dallas_transfer, option_roles,
  unconfirmed_recovery_commitments, recovery_uncertainties, transfer_available,
  resequence_available, cross_plant_movements, schedule_changes, coordinated_action_count, lineage,
}

-- The dictionary of outcomes, by its constant keys.
pub record Outcomes : Type 0 where
  pub no_mitigation : PredictedOutcome
  pub expedite : PredictedOutcome
  pub transfer : PredictedOutcome
  pub resequence : PredictedOutcome
  pub combined : PredictedOutcome

abbrev cost_of_alpha : Option SupplyReceiptOption → ℕ
cost_of_alpha none = 0
cost_of_alpha (some a) = a.quantity * a.incremental_cost_per_unit

abbrev pub expedite_cost : OperationalSnapshot → ℕ
expedite_cost s = cost_of_alpha s.alpha_expedite

abbrev pub transfer_cost : OperationalSnapshot → ℕ
transfer_cost s = s.transfer.quantity * s.transfer.incremental_cost_per_unit

abbrev to_list {ℓ} : {A : Type ℓ} → Option A → List A
to_list none = []
to_list (some a) = a ∷ []

abbrev plan : List TimedQuantity → List TimedQuantity → Bool → ℕ → Plan
plan receipts transfers by_rank cost = record {
  receipts = receipts;
  transfers = transfers;
  resequence_by_priority = by_rank;
  response_cost = cost;
}

unfoldable pub receipts_of : OperationalSnapshot → List TimedQuantity
unfolding alpha_receipt
receipts_of s = to_list (alpha_receipt s)

unfoldable pub transfers_of : OperationalSnapshot → List TimedQuantity
unfolding dallas_transfer
transfers_of s = dallas_transfer s ∷ []

-- The arguments of the five calls.
unfoldable pub no_plan : Plan
no_plan = plan [] [] false 0

unfoldable pub expedite_plan : OperationalSnapshot → Plan
unfolding receipts_of
expedite_plan s = plan (receipts_of s) [] false (expedite_cost s)

unfoldable pub transfer_plan : OperationalSnapshot → Plan
unfolding transfers_of
transfer_plan s = plan [] (transfers_of s) false (transfer_cost s)

unfoldable pub resequence_plan : Plan
resequence_plan = plan [] [] true 0

unfoldable pub combined_plan : OperationalSnapshot → Plan
unfolding receipts_of transfers_of
combined_plan s = plan (receipts_of s) (transfers_of s) true (expedite_cost s + transfer_cost s)

unfoldable pub option_outcomes : OperationalSnapshot → Result AnalysisError Outcomes
unfolding calculate_intervention_outcome no_plan expedite_plan transfer_plan resequence_plan
    combined_plan
option_outcomes s = do
  none_taken ← calculate_intervention_outcome s no_plan
  expedited ← calculate_intervention_outcome s (expedite_plan s)
  transferred ← calculate_intervention_outcome s (transfer_plan s)
  resequenced ← calculate_intervention_outcome s resequence_plan
  all_taken ← calculate_intervention_outcome s (combined_plan s)
  ok (record {
    no_mitigation = none_taken;
    expedite = expedited;
    transfer = transferred;
    resequence = resequenced;
    combined = all_taken;
  })

abbrev no_factors : Factors
no_factors = record {
  unconfirmed_external_commitments = pos 0;
  cross_plant_movements = pos 0;
  schedule_changes = pos 0;
  coordinated_action_count = pos 0;
}

abbrev quantity_and_date : String → ResponseOptionEvidenceRequirement
quantity_and_date i = record {
  evidence_id = i;
  authority_scope = operational_quantity ∷ operational_date ∷ [];
}

abbrev alpha_evidence : OperationalSnapshot → List String
alpha_evidence s = map (λ a. a.receipt_id) (to_list s.alpha_expedite)

-- `code if unavailable else ()`
abbrev unless : Bool → String → List String
unless available code = if available then [] else code ∷ []

unfoldable pub no_mitigation_option : OperationalSnapshot → Outcomes → ResponseOption
unfolding response_option lineage
no_mitigation_option s outcomes = response_option (record {
  option_id = "RL-OPTION-NO-MITIGATION";
  option_kind = no_mitigation;
  name = "No-Mitigation Baseline";
  executable = false;
  active_mitigation = false;
  predicted = some outcomes.no_mitigation;
  prerequisite_roles = [];
  blocking_codes = [];
  assumptions = "Optional Alpha expedite receipt is excluded." ∷ [];
  evidence_ids = [];
  evidence_requirements = [];
  source_data_lineage = lineage s false false false;
  factors = no_factors;
})

unfoldable pub expedite_option : OperationalSnapshot → Outcomes → ResponseOption
unfolding response_option lineage option_roles recovery_uncertainties
    unconfirmed_recovery_commitments coordinated_action_count requires_finance_approval
expedite_option s outcomes =
    let alpha_available = is_some s.alpha_expedite in
    response_option (record {
      option_id = "RL-OPTION-EXPEDITE";
      option_kind = expedite;
      name = "Expedite Alpha partial receipt";
      executable = alpha_available;
      active_mitigation = true;
      predicted = some outcomes.expedite;
      prerequisite_roles =
          option_roles (requires_finance_approval outcomes.expedite.response_cost) false;
      blocking_codes = unless alpha_available "ALPHA_PARTIAL_SHIPMENT_UNAVAILABLE";
      assumptions =
          (if alpha_available
            then "Alpha receipt is confirmed for its offered due date."
            else "No positive Alpha partial-shipment offer is available.")
          ∷ recovery_uncertainties s;
      evidence_ids = alpha_evidence s;
      evidence_requirements = map quantity_and_date (alpha_evidence s);
      source_data_lineage = lineage s true false false;
      factors = record no_factors {
        unconfirmed_external_commitments = unconfirmed_recovery_commitments s;
        coordinated_action_count = coordinated_action_count true false false;
      };
    })

unfoldable pub transfer_option : OperationalSnapshot → Outcomes → ResponseOption
unfolding response_option lineage option_roles transfer_available cross_plant_movements
    coordinated_action_count
transfer_option s outcomes = response_option (record {
  option_id = "RL-OPTION-TRANSFER";
  option_kind = transfer;
  name = "Transfer inventory from Dallas";
  executable = transfer_available s;
  active_mitigation = true;
  predicted = some outcomes.transfer;
  prerequisite_roles = option_roles false false;
  blocking_codes = unless (transfer_available s) "TRANSFER_INVENTORY_UNAVAILABLE";
  assumptions = [];
  evidence_ids = s.transfer.transfer_id ∷ [];
  evidence_requirements = quantity_and_date s.transfer.transfer_id ∷ [];
  source_data_lineage = lineage s false true false;
  factors = record no_factors {
    cross_plant_movements = cross_plant_movements s;
    coordinated_action_count = coordinated_action_count false true false;
  };
})

unfoldable pub resequence_option : OperationalSnapshot → Bool → Outcomes → ResponseOption
unfolding response_option lineage option_roles schedule_changes coordinated_action_count
resequence_option s available outcomes = response_option (record {
  option_id = "RL-OPTION-RESEQUENCE";
  option_kind = resequence;
  name = "Resequence production toward priority customers";
  executable = available;
  active_mitigation = true;
  predicted = some outcomes.resequence;
  prerequisite_roles = option_roles false false;
  blocking_codes = unless available "RESEQUENCE_NOT_APPLICABLE";
  assumptions = [];
  evidence_ids = [];
  evidence_requirements = [];
  source_data_lineage = lineage s false false false;
  factors = record no_factors {
    schedule_changes = schedule_changes true;
    coordinated_action_count = coordinated_action_count false false true;
  };
})

abbrev pub is_approved : QualificationStatus → Bool
is_approved approved = true
is_approved _ = false

unfoldable pub beta_option : OperationalSnapshot → Outcomes → ResponseOption
unfolding response_option lineage option_roles unconfirmed_recovery_commitments
    coordinated_action_count
beta_option s outcomes =
    let open_beta = is_approved s.beta_qualification.status in
    response_option (record {
      option_id = "RL-OPTION-BETA";
      option_kind = alternate_source;
      name = "Source from Supplier Beta";
      executable = open_beta;
      active_mitigation = true;
      predicted = if open_beta then some outcomes.no_mitigation else none;
      prerequisite_roles = option_roles false true;
      blocking_codes = unless open_beta "QUALITY_QUALIFICATION_PENDING";
      assumptions =
          if open_beta
          then "No confirmed Beta receipt quantity or date; conservative baseline exposure is retained."
            ∷ []
          else [];
      evidence_ids = s.beta_qualification.evidence_ref ∷ [];
      evidence_requirements =
          record {
            evidence_id = s.beta_qualification.evidence_ref;
            authority_scope = qualification_state ∷ [];
          }
          ∷ [];
      source_data_lineage = lineage s false false true;
      factors = record no_factors {
        unconfirmed_external_commitments = unconfirmed_recovery_commitments s;
        coordinated_action_count = coordinated_action_count true false false;
      };
    })

unfoldable pub combined_option : OperationalSnapshot → Bool → Outcomes → ResponseOption
unfolding response_option lineage option_roles recovery_uncertainties
    unconfirmed_recovery_commitments cross_plant_movements schedule_changes coordinated_action_count
    transfer_available requires_finance_approval
combined_option s available outcomes =
    let alpha_available = is_some s.alpha_expedite in
    let evidence = alpha_evidence s ++ (s.transfer.transfer_id ∷ []) in
    response_option (record {
      option_id = "RL-OPTION-COMBINED";
      option_kind = combined;
      name = "Combine expedite, transfer, and resequencing";
      executable = alpha_available && transfer_available s && available;
      active_mitigation = true;
      predicted = some outcomes.combined;
      prerequisite_roles =
          option_roles (requires_finance_approval outcomes.combined.response_cost) false;
      blocking_codes =
          unless alpha_available "ALPHA_PARTIAL_SHIPMENT_UNAVAILABLE"
          ++ unless (transfer_available s) "TRANSFER_INVENTORY_UNAVAILABLE"
          ++ unless available "RESEQUENCE_NOT_APPLICABLE";
      assumptions = recovery_uncertainties s;
      evidence_ids = evidence;
      evidence_requirements = map quantity_and_date evidence;
      source_data_lineage = lineage s true true false;
      factors = record {
        unconfirmed_external_commitments = unconfirmed_recovery_commitments s;
        cross_plant_movements = cross_plant_movements s;
        schedule_changes = schedule_changes true;
        coordinated_action_count = coordinated_action_count true true true;
      };
    })

unfoldable pub evaluate_response_options :
    OperationalSnapshot → Result AnalysisError (List ResponseOption)
unfolding option_outcomes resequence_available no_mitigation_option expedite_option transfer_option
    resequence_option beta_option combined_option
evaluate_response_options s = do
  outcomes ← option_outcomes s
  available ← resequence_available s
  ok (
      no_mitigation_option s outcomes
      ∷ expedite_option s outcomes
      ∷ transfer_option s outcomes
      ∷ resequence_option s available outcomes
      ∷ beta_option s outcomes
      ∷ combined_option s available outcomes
      ∷ [])

-- The predicted outcome of an option that `next` has found or not.
abbrev outcome_of : Option ResponseOption → Result AnalysisError PredictedOutcome
outcome_of none = err value_error
outcome_of (some o) = elim o.predicted [ none ↦ err value_error | some p ↦ ok p ]

unfoldable pub calculate_option_outcome :
    OperationalSnapshot → String → Result AnalysisError PredictedOutcome
unfolding evaluate_response_options
calculate_option_outcome s option_id = do
  options ← evaluate_response_options s
  outcome_of (find (λ o. str_eq o.option_id option_id) options)
