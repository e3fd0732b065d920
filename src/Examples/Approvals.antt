-- ===== src/Examples/Approvals.antt =====
-- The standing authorization of RL-001 (StandingAuthorization.taylor_rl001) for an expedite, under
-- both workflows. Instants are counted in days from the start of the scenario.
use supply_response.Base.{
  ◌≡◌, refl, true, false, not, ◌&&◌, Option, none, some, List, [], ◌∷◌, any, str_eq, contains,
}
use supply_response.Base.Int.{pos}
use supply_response.Base.Result.{ok}
use supply_response.Domain.Common.{
  live, showcase, automated_test, rehearsal, expedite, combined, external_sending,
  purchase_order_change, financial_commitment,
}
use supply_response.Domain.Analysis.{ResponseOption}
use supply_response.Domain.Decisions.{
  WorkflowVersion, independent_finance, awaiting_decision, CaseInstance, demo_corpus,
  effective_workflow_version, ApprovalTarget, StandingAuthorization, ApprovalSatisfaction, permits,
}
use supply_response.Policy.Approvals.{
  role_persona_allows, evaluate_approval_satisfaction, standing_authorizations_for,
}
use supply_response.Policy.Approvals.Exact.{
  satisfies, evaluate_approval_satisfaction-exact, evaluate_approval_satisfaction-independent,
}

abbrev taylor_rl001 : StandingAuthorization
taylor_rl001 = record {
  authorization_id = "RL-AUTH-TAYLOR-FINANCE-1";
  persona_id = "RL-PERSONA-TAYLOR";
  role = "finance_approver";
  conditions = record {
    allowed_option_kinds = expedite ∷ combined ∷ [];
    maximum_response_cost = 2500000;
    allowed_corpora = demo_corpus ∷ [];
    allowed_template_ids = "RL-001" ∷ [];
    allowed_case_purposes = automated_test ∷ rehearsal ∷ showcase ∷ [];
    valid_from = 0;
    valid_through = 14;
    forbidden_external_side_effects =
        external_sending ∷ purchase_order_change ∷ financial_commitment ∷ [];
  };
}

abbrev in_workflow : Option WorkflowVersion → CaseInstance
in_workflow w = record {
  case_id = "RL-CASE-1";
  template_id = "RL-001";
  purpose = showcase;
  runtime_mode = live;
  scenario_effective_time = 1;
  status = awaiting_decision;
  workflow_version = w;
}

abbrev target : ApprovalTarget
target = record {
  case_instance = in_workflow none;
  corpus = demo_corpus;
  scenario_effective_time = 1;
  total_response_cost = 1800000;
  requested_side_effects = [];
}

abbrev option : ResponseOption
option = record {
  option_id = "RL-OPTION-EXPEDITE";
  option_kind = expedite;
  name = "Expedite";
  executable = true;
  active_mitigation = true;
  predicted = some record {
    uncovered_part_demand = pos 0;
    otif_loss_percentage = pos 0;
    revenue_at_risk = pos 0;
    margin_at_risk = pos 0;
    response_cost = pos 1800000;
    protected_customer_order_ids = [];
  };
  assumptions = [];
  evidence_ids = [];
  evidence_requirements = [];
  blocking_codes = [];
  prerequisite_roles = "response_approver" ∷ "finance_approver" ∷ [];
  source_data_lineage = [];
  approval_burden = pos 2;
  execution_risk = pos 1;
  requested_side_effects = [];
}

taylor-permits : permits taylor_rl001 option target ≡ true
unfolding permits
taylor-permits = refl

evaluate_approval_satisfaction-exact_example :
    (ss : List ApprovalSatisfaction) × (evaluate_approval_satisfaction option "RL-ANALYSIS-1"
        (taylor_rl001 ∷ [])
        target
      ≡ ok ss)
    × (satisfies "finance_approver" ss ≡ (
        not (str_eq "finance_approver" "response_approver")
        && contains "finance_approver" option.prerequisite_roles
        && any
            (λ a.
              str_eq a.role "finance_approver"
              && role_persona_allows "finance_approver" a.persona_id
              && permits a option target)
            (taylor_rl001 ∷ [])))
evaluate_approval_satisfaction-exact_example =
    evaluate_approval_satisfaction-exact option "RL-ANALYSIS-1" (taylor_rl001 ∷ []) target
      "finance_approver"

independent :
    effective_workflow_version (in_workflow (some independent_finance)) ≡ independent_finance
unfolding effective_workflow_version
independent = refl

evaluate_approval_satisfaction-independent_example :
    (ss : List ApprovalSatisfaction) × (evaluate_approval_satisfaction option "RL-ANALYSIS-1"
        (standing_authorizations_for (in_workflow (some independent_finance)) (taylor_rl001 ∷ []))
        target
      ≡ ok ss)
    × (satisfies "finance_approver" ss ≡ false)
evaluate_approval_satisfaction-independent_example =
    evaluate_approval_satisfaction-independent (in_workflow (some independent_finance)) option
      "RL-ANALYSIS-1" (taylor_rl001 ∷ []) target independent
