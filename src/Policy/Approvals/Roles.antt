-- ===== src/Policy/Approvals/Roles.antt =====
-- The required roles of an option: those of its prerequisites, without the response approver.
use supply_response.Base.{◌≡◌, ap, ◌∙◌, String, not, ◌&&◌, keep, str_eq, contains, dedup}
use supply_response.Domain.Analysis.{ResponseOption}
use supply_response.Policy.Approvals.{required_roles}
use supply_response.Base.Members.{contains-sorted, contains-keep, contains-dedup}

pub contains-required_roles :
    (s : String) (o : ResponseOption)
    → contains s (required_roles o)
      ≡ (not (str_eq s "response_approver") && contains s o.prerequisite_roles)
unfolding required_roles
contains-required_roles s o =
    contains-sorted s (keep (λ r. not (str_eq r "response_approver")) (dedup o.prerequisite_roles))
    ∙ contains-keep (λ r. not (str_eq r "response_approver")) s (dedup o.prerequisite_roles)
    ∙ ap (λ b. not (str_eq s "response_approver") && b) (contains-dedup s o.prerequisite_roles)
