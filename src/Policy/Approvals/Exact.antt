-- ===== src/Policy/Approvals/Exact.antt =====
-- services/policy/approvals.py: exactly which roles are satisfied.
use supply_response.Base.{
  ◌≡◌, refl, ap, ◌∙◌, sym, String, Bool, true, false, not, ◌&&◌, ◌||◌, List, [], ◌∷◌, ◌++◌, map,
  keep, any, flat_map, str_eq, str_eq_refl, eq_iff, differ, contains, arith, Bool-cases, inl, inr,
  All, All-map, All-kept,
}
use supply_response.Base.Result.{ok}
use supply_response.Domain.Analysis.{ResponseOption}
use supply_response.Domain.Decisions.{
  independent_finance, CaseInstance, effective_workflow_version, StandingAuthorization,
  ApprovalTarget, ApprovalSatisfaction, permits, satisfaction, from_authorization,
}
use supply_response.Policy.Approvals.{
  applies, role_persona_allows, required_roles, satisfactions, evaluate_approval_satisfaction,
  standing_authorizations_for,
}
use supply_response.Policy.Approvals.Roles.{contains-required_roles}

any-append :
    {A : Type 0} (p : A → Bool) (xs ys : List A) → any p (xs ++ ys) ≡ (any p xs || any p ys)
any-append p [] ys = refl
any-append p (x ∷ xs) ys = ground (arith, any-append p xs ys)

str_eq_comm : (i j : String) → str_eq i j ≡ str_eq j i
str_eq_comm i j = elim (Bool-cases (str_eq i j)) [
  | inl e ↦ e ∙ sym (ap (λ k. str_eq j k) ((eq_iff i j).0 e) ∙ str_eq_refl j)
  | inr e ↦ e ∙ sym (differ i j e)
]

-- The roles that satisfactions are for.
abbrev pub satisfies : String → List ApprovalSatisfaction → Bool
satisfies role ss = any (λ s. str_eq s.role role) ss

module _ (analysis_id : String) (o : ResponseOption) (t : ApprovalTarget) where
  -- Authorizations that permit the target raise nothing.
  satisfactions-ok :
      (xs : List StandingAuthorization)
      → All (λ a. permits a o t ≡ true) xs
      → satisfactions analysis_id o t xs ≡ ok (map (λ a. satisfaction analysis_id o a t) xs)
  unfolding satisfactions from_authorization
  satisfactions-ok [] h = refl
  satisfactions-ok (a ∷ xs) h = rw (h.0, satisfactions-ok xs h.1) refl

  satisfies-map :
      (role : String) (xs : List StandingAuthorization)
      → satisfies role (map (λ a. satisfaction analysis_id o a t) xs)
        ≡ any (λ a. str_eq a.role role) xs
  satisfies-map role [] = refl
  satisfies-map role (a ∷ xs) = ap (λ b. str_eq a.role role || b) (satisfies-map role xs)

module _ (o : ResponseOption) (t : ApprovalTarget)
    (authorizations : List StandingAuthorization) where
  applies-permits :
      (role : String) (a : StandingAuthorization) → applies o t role a ≡ true → permits a o t ≡ true
  unfolding applies
  applies-permits role a h = ground (arith, h)

  applies-role :
      (role : String) (a : StandingAuthorization)
      → applies o t role a ≡ true
      → str_eq a.role role ≡ true
  unfolding applies
  applies-role role a h = ground (arith, h)

  -- Whether an authorization applies to a role.
  abbrev pub is_authorized : String → Bool
  is_authorized role = any (applies o t role) authorizations

  All-append :
      {A : Type 0} (P : A → Type 0) (xs ys : List A) → All P xs → All P ys → All P (xs ++ ys)
  All-append P [] ys h k = k
  All-append P (x ∷ xs) ys h k = (h.0, All-append P xs ys h.1 k)

  All-permits :
      (roles : List String)
      → All (λ a. permits a o t ≡ true) (flat_map (λ r. keep (applies o t r) authorizations) roles)
  All-permits [] = tt
  All-permits (r ∷ roles) =
      All-append _ (keep (applies o t r) authorizations) _
        (All-map (λ a. applies o t r a ≡ true) _ (keep (applies o t r) authorizations)
          (λ a h. applies-permits r a h) (All-kept (applies o t r) authorizations))
        (All-permits roles)

  any-applicable :
      (role r : String) (xs : List StandingAuthorization)
      → any (λ a. str_eq a.role role) (keep (applies o t r) xs)
        ≡ (str_eq role r && any (applies o t r) xs)
  unfolding applies
  any-applicable role r [] = ground arith
  any-applicable role r (a ∷ xs) = elim (Bool-cases (applies o t r a)) [
    | inl e ↦
        let same : str_eq a.role role ≡ str_eq role r =
          ap (λ i. str_eq i role) ((eq_iff a.role r).0 (applies-role r a e)) ∙ str_eq_comm r role in
        rw e (ground (arith, same, any-applicable role r xs))
    | inr e ↦ rw e (any-applicable role r xs)
  ]

  any-roles :
      (role : String) (roles : List String)
      → any (λ a. str_eq a.role role) (flat_map (λ r. keep (applies o t r) authorizations) roles)
        ≡ (contains role roles && is_authorized role)
  unfolding contains
  any-roles role [] = refl
  any-roles role (r ∷ roles) =
      any-append (λ a. str_eq a.role role) (keep (applies o t r) authorizations) _
      ∙ rw (any-applicable role r authorizations, any-roles role roles)
          (elim (Bool-cases (str_eq role r)) [
            | inl e ↦ ground (arith, e, ap is_authorized ((eq_iff role r).0 e))
            | inr e ↦ rw e refl
          ])

-- Evaluating the approvals never raises. A role has a satisfaction exactly if it is a prerequisite
-- role of the option other than the response approver, and some standing authorization of that role
-- permits the option for the target, of the persona that the role is bound to if there is one.
pub evaluate_approval_satisfaction-exact :
    (o : ResponseOption) (analysis_id : String) (authorizations : List StandingAuthorization)
    (t : ApprovalTarget) (role : String)
    → (ss : List ApprovalSatisfaction) × (evaluate_approval_satisfaction o analysis_id
          authorizations t
        ≡ ok ss)
      × (satisfies role ss ≡ (
          not (str_eq role "response_approver")
          && contains role o.prerequisite_roles
          && any
              (λ a. str_eq a.role role && role_persona_allows role a.persona_id && permits a o t)
              authorizations))
unfolding evaluate_approval_satisfaction applies
evaluate_approval_satisfaction-exact o analysis_id authorizations t role =
    let xs = flat_map (λ r. keep (applies o t r) authorizations) (required_roles o) in
    (
      map (λ a. satisfaction analysis_id o a t) xs,
      satisfactions-ok analysis_id o t xs (All-permits o t authorizations (required_roles o)),
      satisfies-map analysis_id o t role xs
          ∙ any-roles o t authorizations role (required_roles o)
          ∙ ap (λ b. b && is_authorized o t authorizations role) (contains-required_roles role o),
    )

none_of_role :
    (role : String) (p q : StandingAuthorization → Bool)
    (authorizations : List StandingAuthorization)
    → any
        (λ a. str_eq a.role role && p a && q a)
        (keep (λ a. not (str_eq a.role role)) authorizations)
      ≡ false
none_of_role role p q [] = refl
none_of_role role p q (a ∷ rest) = elim (Bool-cases (str_eq a.role role)) [
  | inl e ↦ rw e (none_of_role role p q rest)
  | inr e ↦ rw e (rw e (none_of_role role p q rest))
]

standing_authorizations_for-independent :
    (c : CaseInstance) (authorizations : List StandingAuthorization)
    → effective_workflow_version c ≡ independent_finance
    → standing_authorizations_for c authorizations
      ≡ keep (λ a. not (str_eq a.role "finance_approver")) authorizations
unfolding standing_authorizations_for
standing_authorizations_for-independent c authorizations w =
    rw (standing_authorizations_for, w) refl

-- A case of the independent finance workflow never has its finance approval satisfied by a standing
-- authorization, whatever the authorizations are.
pub evaluate_approval_satisfaction-independent :
    (c : CaseInstance) (o : ResponseOption) (analysis_id : String)
    (authorizations : List StandingAuthorization) (t : ApprovalTarget)
    → effective_workflow_version c ≡ independent_finance
    → (ss : List ApprovalSatisfaction) × (evaluate_approval_satisfaction o analysis_id
          (standing_authorizations_for c authorizations)
          t
        ≡ ok ss)
      × (satisfies "finance_approver" ss ≡ false)
evaluate_approval_satisfaction-independent c o analysis_id authorizations t w =
    let (ss, done, exact) =
      evaluate_approval_satisfaction-exact o analysis_id
        (standing_authorizations_for c authorizations) t "finance_approver" in
    let nobody =
      ap
        (λ xs.
          any
            (λ a.
              str_eq a.role "finance_approver"
              && role_persona_allows "finance_approver" a.persona_id
              && permits a o t)
            xs)
        (standing_authorizations_for-independent c authorizations w)
      ∙ none_of_role "finance_approver" (λ a. role_persona_allows "finance_approver" a.persona_id)
          (λ a. permits a o t) authorizations in
    (ss, done, exact ∙ ground (arith, nobody))
