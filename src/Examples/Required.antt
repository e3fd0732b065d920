-- ===== src/Examples/Required.antt =====
-- The evidence of an analysis with one conflict, before and after its resolution.
use supply_response.Base.{◌≡◌, refl, [], ◌∷◌, keep, str_eq, str_leb, not, strip}
use supply_response.Base.Result.{ok}
use supply_response.Domain.Evidence.{operational_quantity, EvidenceValidation, ConflictResolution}
use supply_response.Policy.Evidence.Resolver.{resolve_conflict, resolution}
use supply_response.Policy.Evidence.Required.{
  Inputs, Scopes, conflict_scopes, results_of, unresolved_conflicts, validation_of,
  validate_required_evidence,
}
use supply_response.Policy.Evidence.Clear.{Settled, validate_required_evidence-Settled}
use supply_response.Policy.Evidence.Resolved.{with_resolution, resolve_conflict-resolves}
use supply_response.Examples.Evidence.{no_address, receipt, run, conflict, alex}

abbrev open_inputs : Inputs
open_inputs = record {
  evidence_items = receipt ∷ [];
  run = run;
  required_authority_scope = operational_quantity ∷ [];
  conflicts = conflict ∷ [];
  conflict_resolutions = [];
}

abbrev answer : ConflictResolution
answer = resolution conflict alex "RL-ALPHA-OPTIONAL-3000" "confirmed"

abbrev settled_inputs : Inputs
settled_inputs = with_resolution open_inputs answer

abbrev open_validation : EvidenceValidation
open_validation = validation_of no_address open_inputs (conflict ∷ [])

abbrev settled_validation : EvidenceValidation
settled_validation = validation_of no_address settled_inputs []

open_validated : validate_required_evidence no_address open_inputs ≡ ok open_validation
unfolding validate_required_evidence str_leb strip
open_validated = refl

settled_validated : validate_required_evidence no_address settled_inputs ≡ ok settled_validation
unfolding validate_required_evidence str_leb strip
settled_validated = refl

settled_clear : settled_validation.blocking_codes ≡ []
unfolding validation_of str_leb strip
settled_clear = refl

validate_required_evidence-Settled_example : Settled no_address settled_inputs settled_validation
validate_required_evidence-Settled_example =
    validate_required_evidence-Settled no_address settled_inputs settled_validation
      settled_validated settled_clear

answered :
    resolve_conflict conflict open_validation alex "RL-ALPHA-OPTIONAL-3000" "confirmed" ≡ ok answer
unfolding resolve_conflict validation_of str_leb strip
answered = refl

resolve_conflict-resolves_example :
    (scopes : Scopes) × (conflict_scopes (conflict ∷ []) (results_of no_address open_inputs [])
      ≡ ok scopes)
    × (validate_required_evidence no_address settled_inputs
        ≡ ok (
            validation_of no_address settled_inputs (
              keep
                (λ d. not (str_eq d.conflict_id "RL-CONFLICT-1"))
                (unresolved_conflicts (conflict ∷ []) scopes []))))
resolve_conflict-resolves_example =
    resolve_conflict-resolves no_address open_inputs open_validation conflict alex
      "RL-ALPHA-OPTIONAL-3000" "confirmed" answer (tt, tt) refl open_validated answered
