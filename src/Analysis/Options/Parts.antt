-- ===== src/Analysis/Options/Parts.antt =====
-- services/analysis/options.py: the parts that response options are put together from.
use supply_response.Base.{
  String, Bool, true, false, not, ◌&&◌, Option, none, some, is_none, List, [], ◌∷◌, ◌++◌, map,
  length, keep, str_eq, if◌then◌else◌, dedup,
}
use supply_response.Base.Int.{ℤ, pos, ◌+ℤ◌, ◌-ℤ◌, ◌*ℤ◌, max_ℤ, leb_ℤ}
use supply_response.Base.Order.{sorted}
use supply_response.Base.Result.{Result, ok, ◌>>=◌}
use supply_response.Domain.Common.{ResponseOptionKind}
use supply_response.Domain.Operations.{InventoryPosition, ProductionOrder}
use supply_response.Domain.Analysis.{
  TimedQuantity, PredictedOutcome, ResponseOption, ResponseOptionEvidenceRequirement,
}
use supply_response.Domain.Snapshot.{OperationalSnapshot, usable_inventory, usable_of}
use supply_response.Analysis.Error.{AnalysisError}
use supply_response.Analysis.Options.Outcome.{by_due, priority_order}

abbrev pub material_planner : String
material_planner = "material_planner"

abbrev pub finance_approver : String
finance_approver = "finance_approver"

abbrev pub quality_approver : String
quality_approver = "quality_approver"

abbrev pub response_approver : String
response_approver = "response_approver"

-- The size of the set of the roles other than the final approver's.
unfoldable pub calculate_approval_burden : List String → ℤ
unfolding dedup
calculate_approval_burden prerequisite_roles =
    pos (length (dedup (keep (λ r. not (str_eq r response_approver)) prerequisite_roles)))

-- What an option's execution risk counts.
pub record Factors : Type 0 where
  pub unconfirmed_external_commitments : ℤ
  pub cross_plant_movements : ℤ
  pub schedule_changes : ℤ
  pub coordinated_action_count : ℤ

unfoldable pub calculate_execution_risk : Factors → ℤ
calculate_execution_risk f =
    pos 2 *ℤ f.unconfirmed_external_commitments
    +ℤ f.cross_plant_movements
    +ℤ f.schedule_changes
    +ℤ max_ℤ (pos 0) (f.coordinated_action_count -ℤ pos 1)

unfoldable pub alpha_receipt : OperationalSnapshot → Option TimedQuantity
alpha_receipt s = elim s.alpha_expedite [
  | none ↦ none
  | some a ↦
      some (record { date = a.due_date; quantity = pos a.quantity; source_id = a.receipt_id })
]

unfoldable pub dallas_transfer : OperationalSnapshot → TimedQuantity
dallas_transfer s = record {
  date = s.transfer.arrival_date;
  quantity = pos s.transfer.quantity;
  source_id = s.transfer.transfer_id;
}

unfoldable pub option_roles : Bool → Bool → List String
option_roles finance_required quality_required =
    (material_planner ∷ [])
    ++ (if finance_required then finance_approver ∷ [] else [])
    ++ (if quality_required then quality_approver ∷ [] else [])

-- `int(…)` of a test.
abbrev pub int_of : Bool → ℤ
int_of b = if b then pos 1 else pos 0

unfoldable pub unconfirmed_recovery_commitments : OperationalSnapshot → ℤ
unconfirmed_recovery_commitments s = int_of (is_none s.disruption.recovery_date)

unfoldable pub recovery_uncertainties : OperationalSnapshot → List String
recovery_uncertainties s =
    if is_none s.disruption.recovery_date
    then "Remaining supplier recovery date is unconfirmed." ∷ []
    else []

unfoldable pub transfer_available : OperationalSnapshot → Bool
unfolding usable_of
transfer_available s =
    leb_ℤ (pos s.transfer.quantity)
      (usable_inventory s s.transfer.part_id s.transfer.source_plant_id)

-- `==` of two tuples of texts.
unfoldable pub strings_eq : List String → List String → Bool
strings_eq [] [] = true
strings_eq (s ∷ ss) (t ∷ ts) = str_eq s t && strings_eq ss ts
strings_eq _ _ = false

abbrev order_ids : List ProductionOrder → List String
order_ids = map (λ o. o.production_order_id)

unfoldable pub resequence_available : OperationalSnapshot → Result AnalysisError Bool
unfolding sorted strings_eq priority_order
resequence_available s = do
  by_rank ← priority_order s.production_orders
  ok (not (strings_eq (order_ids by_rank) (order_ids (sorted by_due s.production_orders))))

unfoldable pub cross_plant_movements : OperationalSnapshot → ℤ
cross_plant_movements s =
    int_of (not (str_eq s.transfer.source_plant_id s.transfer.destination_plant_id))

unfoldable pub schedule_changes : Bool → ℤ
schedule_changes resequenced = int_of resequenced

unfoldable pub coordinated_action_count : Bool → Bool → Bool → ℤ
coordinated_action_count expedite transfer resequence =
    int_of expedite +ℤ int_of transfer +ℤ int_of resequence

abbrev inventory_ids : String → String → List InventoryPosition → List String
inventory_ids part_id plant_id ps =
    map (λ p. p.inventory_id)
      (keep (λ p. str_eq p.part_id part_id && str_eq p.plant_id plant_id) ps)

abbrev alpha_ids : OperationalSnapshot → List String
alpha_ids s = elim s.alpha_expedite [ none ↦ [] | some a ↦ a.receipt_id ∷ [] ]

unfoldable pub lineage : OperationalSnapshot → Bool → Bool → Bool → List String
lineage s include_alpha include_transfer include_beta =
    (s.disruption.source_ref ∷ [])
    ++ inventory_ids s.disruption.part_id s.disruption.plant_id s.inventory_positions
    ++ order_ids s.production_orders
    ++ (if include_alpha then alpha_ids s else [])
    ++ (if include_transfer
        then inventory_ids s.transfer.part_id s.transfer.source_plant_id s.inventory_positions
          ++ (s.transfer.transfer_id ∷ [])
        else [])
    ++ (if include_beta then s.beta_qualification.evidence_ref ∷ [] else [])

-- The arguments of `_response_option`, with its defaults.
pub record Described : Type 0 where
  pub option_id : String
  pub option_kind : ResponseOptionKind
  pub name : String
  pub executable : Bool
  pub active_mitigation : Bool
  pub predicted : Option PredictedOutcome
  pub prerequisite_roles : List String
  pub blocking_codes : List String
  pub assumptions : List String
  pub evidence_ids : List String
  pub evidence_requirements : List ResponseOptionEvidenceRequirement
  pub source_data_lineage : List String
  pub factors : Factors

unfoldable pub response_option : Described → ResponseOption
unfolding calculate_approval_burden calculate_execution_risk
response_option d = record {
  option_id = d.option_id;
  option_kind = d.option_kind;
  name = d.name;
  executable = d.executable;
  active_mitigation = d.active_mitigation;
  predicted = d.predicted;
  prerequisite_roles = d.prerequisite_roles;
  approval_burden = calculate_approval_burden d.prerequisite_roles;
  execution_risk = calculate_execution_risk d.factors;
  blocking_codes = d.blocking_codes;
  assumptions = d.assumptions;
  evidence_ids = d.evidence_ids;
  evidence_requirements = d.evidence_requirements;
  source_data_lineage = d.source_data_lineage;
  requested_side_effects = [];
}
