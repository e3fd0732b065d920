-- ===== src/Domain/Decisions.antt =====
-- data/domain/decisions.py: standing authorizations and what they permit; data/domain/cases.py: the
-- case that a target names, without the e-mail and the presenter run that it stems from. The members
-- of a `StrEnum` are equal as their texts are.
use supply_response.Base.{
  String, Bool, true, false, not, ◌&&◌, Option, none, some, List, [], ◌∷◌, any, str_eq, leb, ◌==◌,
  contains,
}
use supply_response.Base.Int.{ℤ, pos, leb_ℤ}
use supply_response.Base.Result.{Result, ok, ◌>>◌, guard}
use supply_response.Domain.Common.{
  Instant, Money, RuntimeMode, CasePurpose, automated_test, rehearsal, showcase, ResponseOptionKind,
  no_mitigation, expedite, transfer, resequence, alternate_source, combined, ExternalSideEffect,
  external_sending, purchase_order_change, financial_commitment,
}
use supply_response.Domain.Analysis.{ResponseOption}

pub data WorkflowVersion : Type 0 where
  legacy independent_finance : WorkflowVersion

pub data CaseStatus : Type 0 where
  opened analyzing awaiting_decision decision_rejected action_planning : CaseStatus
  executing monitoring reanalysis_required closed : CaseStatus

pub record CaseInstance : Type 0 where
  pub case_id : String
  pub template_id : String
  pub purpose : CasePurpose
  pub runtime_mode : RuntimeMode
  pub scenario_effective_time : Instant
  pub status : CaseStatus
  pub workflow_version : Option WorkflowVersion

abbrev or_legacy : Option WorkflowVersion → WorkflowVersion
or_legacy none = legacy
or_legacy (some w) = w

unfoldable pub effective_workflow_version : CaseInstance → WorkflowVersion
effective_workflow_version c = or_legacy c.workflow_version

pub data CorpusScope : Type 0 where
  demo_corpus real_business unspecified : CorpusScope

abbrev kind_value : ResponseOptionKind → String
kind_value no_mitigation = "no_mitigation"
kind_value expedite = "expedite"
kind_value transfer = "transfer"
kind_value resequence = "resequence"
kind_value alternate_source = "alternate_source"
kind_value combined = "combined"

abbrev purpose_value : CasePurpose → String
purpose_value automated_test = "automated_test"
purpose_value rehearsal = "rehearsal"
purpose_value showcase = "showcase"

abbrev corpus_value : CorpusScope → String
corpus_value demo_corpus = "demo_corpus"
corpus_value real_business = "real_business"
corpus_value unspecified = "unspecified"

abbrev effect_value : ExternalSideEffect → String
effect_value external_sending = "external_sending"
effect_value purchase_order_change = "purchase_order_change"
effect_value financial_commitment = "financial_commitment"

-- `x in xs` for members with texts.
unfoldable pub is_member : {A : Type 0} → (A → String) → A → List A → Bool
is_member value x xs = any (λ y. str_eq (value x) (value y)) xs

unfoldable pub effects_eq : List ExternalSideEffect → List ExternalSideEffect → Bool
effects_eq [] [] = true
effects_eq [] (y ∷ ys) = false
effects_eq (x ∷ xs) [] = false
effects_eq (x ∷ xs) (y ∷ ys) = str_eq (effect_value x) (effect_value y) && effects_eq xs ys

pub record AuthorizationConditions : Type 0 where
  pub allowed_option_kinds : List ResponseOptionKind
  pub maximum_response_cost : Money
  pub allowed_corpora : List CorpusScope
  pub allowed_template_ids : List String
  pub allowed_case_purposes : List CasePurpose
  pub valid_from : Instant
  pub valid_through : Instant
  pub forbidden_external_side_effects : List ExternalSideEffect

pub record ApprovalTarget : Type 0 where
  pub case_instance : CaseInstance
  pub corpus : CorpusScope
  pub scenario_effective_time : Instant
  pub total_response_cost : Money
  pub requested_side_effects : List ExternalSideEffect

pub record StandingAuthorization : Type 0 where
  pub authorization_id : String
  pub persona_id : String
  pub role : String
  pub conditions : AuthorizationConditions

abbrev cost_eq : ℤ → ℤ → Bool
cost_eq a b = leb_ℤ a b && leb_ℤ b a

unfoldable pub permits : StandingAuthorization → ResponseOption → ApprovalTarget → Bool
unfolding contains is_member effects_eq
permits a o t = elim o.predicted [
  | none ↦ false
  | some p ↦
      is_member kind_value o.option_kind a.conditions.allowed_option_kinds
      && is_member corpus_value t.corpus a.conditions.allowed_corpora
      && contains t.case_instance.template_id a.conditions.allowed_template_ids
      && is_member purpose_value t.case_instance.purpose a.conditions.allowed_case_purposes
      && t.case_instance.scenario_effective_time == t.scenario_effective_time
      && cost_eq (pos t.total_response_cost) p.response_cost
      && effects_eq t.requested_side_effects o.requested_side_effects
      && leb t.total_response_cost a.conditions.maximum_response_cost
      && leb a.conditions.valid_from t.scenario_effective_time
      && leb t.scenario_effective_time a.conditions.valid_through
      && not (
          any (λ e. is_member effect_value e a.conditions.forbidden_external_side_effects)
            t.requested_side_effects)
]

pub record ApprovalSatisfaction : Type 0 where
  pub analysis_id : String
  pub option_id : String
  pub authorization_id : String
  pub persona_id : String
  pub role : String
  pub satisfied : Bool
  pub target : ApprovalTarget
  pub authorization_conditions : AuthorizationConditions

-- `ValueError`
pub data ApprovalError : Type 0 where
  value_error : ApprovalError

abbrev pub satisfaction :
    String → ResponseOption → StandingAuthorization → ApprovalTarget → ApprovalSatisfaction
satisfaction analysis_id o a t = record {
  analysis_id = analysis_id;
  option_id = o.option_id;
  authorization_id = a.authorization_id;
  persona_id = a.persona_id;
  role = a.role;
  satisfied = true;
  target = t;
  authorization_conditions = a.conditions;
}

unfoldable pub from_authorization :
    String
    → ResponseOption
    → StandingAuthorization
    → ApprovalTarget
    → Result ApprovalError ApprovalSatisfaction
unfolding permits
from_authorization analysis_id o a t = do
  guard (permits a o t) value_error
  ok (satisfaction analysis_id o a t)
