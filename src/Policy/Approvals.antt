-- ===== src/Policy/Approvals.antt =====
-- services/policy/approvals.py and workflow.py: which required roles the standing authorizations
-- satisfy.
pub mod Roles
pub mod Exact
use supply_response.Base.{
  String, Bool, true, false, not, ◌&&◌, ◌||◌, List, [], ◌∷◌, ◌++◌, keep, flat_map, str_eq,
  if◌then◌else◌, dedup,
}
use supply_response.Base.Order.{sorted}
use supply_response.Base.Keys.{str_order}
use supply_response.Base.Result.{Result, ok, err, ◌>>=◌}
use supply_response.Domain.Analysis.{ResponseOption}
use supply_response.Domain.Decisions.{
  WorkflowVersion, legacy, independent_finance, CaseInstance, effective_workflow_version,
  StandingAuthorization, ApprovalTarget, ApprovalSatisfaction, ApprovalError, permits,
  from_authorization,
}

-- The persona that a role is bound to.
unfoldable pub role_persona_allows : String → String → Bool
role_persona_allows role persona =
    not (str_eq role "quality_approver") || str_eq persona "RL-PERSONA-JORDAN"

unfoldable pub required_roles : ResponseOption → List String
unfolding sorted dedup
required_roles o =
    sorted str_order (keep (λ r. not (str_eq r "response_approver")) (dedup o.prerequisite_roles))

-- The generator's conditions.
unfoldable pub applies : ResponseOption → ApprovalTarget → String → StandingAuthorization → Bool
unfolding permits role_persona_allows
applies o t role a = str_eq a.role role && role_persona_allows role a.persona_id && permits a o t

unfoldable pub satisfactions :
    String
    → ResponseOption
    → ApprovalTarget
    → List StandingAuthorization
    → Result ApprovalError (List ApprovalSatisfaction)
unfolding from_authorization
satisfactions analysis_id o t [] = ok []
satisfactions analysis_id o t (a ∷ rest) = do
  s ← from_authorization analysis_id o a t
  more ← satisfactions analysis_id o t rest
  ok (s ∷ more)

unfoldable pub evaluate_approval_satisfaction :
    ResponseOption
    → String
    → List StandingAuthorization
    → ApprovalTarget
    → Result ApprovalError (List ApprovalSatisfaction)
unfolding required_roles applies satisfactions
evaluate_approval_satisfaction o analysis_id authorizations t =
    satisfactions analysis_id o t
      (flat_map (λ role. keep (applies o t role) authorizations) (required_roles o))

unfoldable pub standing_authorizations_for :
    CaseInstance → List StandingAuthorization → List StandingAuthorization
unfolding effective_workflow_version
standing_authorizations_for c authorizations = elim (effective_workflow_version c) [
  | legacy ↦ authorizations
  | independent_finance ↦ keep (λ a. not (str_eq a.role "finance_approver")) authorizations
]
