-- ===== src/Examples/Review.antt =====
-- A finance review, with UUIDs read as the lengths of their texts.
use supply_response.Base.{
  ℕ, ◌≡◌, ◌≢◌, refl, String, true, false, Option, none, some, List, [], ◌∷◌, strip, str_length,
  is_empty, arith, str_leb,
}
use supply_response.Base.Result.{ok, err}
use supply_response.Domain.Evidence.{entra}
use supply_response.Domain.Finance.{
  aware, IdentitySnapshot, FinanceProposal, FinanceReview, pending, superseded, violation,
}
use supply_response.Policy.FinanceReview.{
  require_proposal_submitter, submit_finance_review, resolve_finance_review, submitted, resolved,
}
use supply_response.Policy.FinanceReview.Authority.{
  Established, resolve_finance_review-Established, resolve_finance_review-settled,
}
use supply_response.Policy.FinanceReview.Lifecycle.{
  Valid, submit_finance_review-pending, submit_finance_review-cheap,
}

unfoldable by_length : String → Option ℕ
unfolding str_length
by_length s = some (str_length s)

abbrev person : String → String → List String → String → IdentitySnapshot
person persona source roles object = record {
  persona_id = persona;
  effective_roles = roles;
  identity_source = entra;
  source_id = source;
  tenant_id = some "tenant";
  object_id = some object;
  display_name = none;
  user_principal_name = none;
}

abbrev alex : IdentitySnapshot
alex =
    person "RL-PERSONA-ALEX" "RL-ENTRA-ALEX" ("material_planner" ∷ "response_approver" ∷ []) "alex"

abbrev taylor : IdentitySnapshot
taylor = person "RL-PERSONA-TAYLOR" "RL-ENTRA-TAYLOR" ("finance_approver" ∷ []) "taylor"

abbrev proposal : FinanceProposal
proposal = record {
  case_id = "RL-CASE-1";
  analysis_id = "RL-ANALYSIS-1";
  analysis_material_hash = "00";
  option_id = "RL-OPTION-COMBINED";
  response_cost = 2475000;
}

abbrev cheap : FinanceProposal
cheap = record proposal { response_cost = 2000000 }

abbrev review : FinanceReview
review = submitted "RL-REVIEW-1" proposal alex 100

abbrev rejection : FinanceReview
rejection = resolved review taylor false (some "too dear") 200

abbrev withdrawn : FinanceReview
withdrawn = record rejection { status = superseded; superseded_at = some 300 }

planner : require_proposal_submitter by_length alex ≡ ok (6, 4)
unfolding require_proposal_submitter by_length str_leb
planner = refl

named : is_empty (strip "RL-REVIEW-1") ≡ false
unfolding strip
named = refl

submit_finance_review-pending_example :
    (submit_finance_review by_length "RL-REVIEW-1" proposal alex (aware 100) ≡ ok review)
    × Valid review
submit_finance_review-pending_example =
    submit_finance_review-pending by_length "RL-REVIEW-1" proposal alex 100 (6, 4) planner named
      (omega arith)

submit_finance_review-cheap_example :
    submit_finance_review by_length "RL-REVIEW-1" cheap alex (aware 100) ≡ err violation
submit_finance_review-cheap_example =
    submit_finance_review-cheap by_length "RL-REVIEW-1" cheap alex (aware 100) (omega arith)

rejected_review :
    resolve_finance_review by_length review proposal taylor false (some " too dear ") (aware 200)
    ≡ ok rejection
unfolding resolve_finance_review by_length str_leb
rejected_review = refl

resolve_finance_review-Established_example :
    Established by_length review proposal taylor (aware 200)
resolve_finance_review-Established_example =
    resolve_finance_review-Established by_length review proposal taylor false (some " too dear ")
      (aware 200) rejection rejected_review

not_pending : rejection.status ≢ pending
not_pending h = absurd (ground (arith, h))

resolve_finance_review-settled_example :
    resolve_finance_review by_length rejection proposal taylor true none (aware 250) ≡ err violation
resolve_finance_review-settled_example =
    resolve_finance_review-settled by_length rejection proposal taylor true none (aware 250)
      not_pending
