-- ===== src/Policy/Evidence/Resolver.antt =====
-- services/policy/evidence.py, `_actor_is_authorized` and `resolve_conflict`: who may resolve a
-- conflict of evidence.
use supply_response.Base.{
  ◌≡◌, ap, ◌∙◌, String, Bool, true, false, not, ◌&&◌, Option, none, some, List, [], ◌∷◌, any, all,
  contains, subset, str_eq, if◌then◌else◌, arith, All, All-all, subst, sym, refl, &&-true,
}
use supply_response.Base.Result.{
  Result, ok, err, ◌>>=◌, ◌>>◌, guard, >>=-eq-ok, guard-eq-ok, ok-injective,
}
use supply_response.Domain.Evidence.{
  AuthorityScope, operational_quantity, operational_date, qualification_state, supplier_statement,
  collaboration_statement, prerequisite_approval, EvidenceConflict, ActorProvenance,
  ConflictResolution, EvidenceItemValidation, EvidenceValidation,
}
use supply_response.Policy.Evidence.{
  PolicyError, policy_violation, validation_error, evidence_policy_version, scope_set,
  scopes_within, is_blank, non_empty,
}

unfoldable pub persona_roles : String → Option (List String)
persona_roles persona =
    if str_eq persona "RL-PERSONA-ALEX"
    then some ("material_planner" ∷ "response_approver" ∷ [])
    else if str_eq persona "RL-PERSONA-JORDAN"
    then some ("quality_approver" ∷ [])
    else if str_eq persona "RL-PERSONA-TAYLOR"
    then some ("finance_approver" ∷ [])
    else none

unfoldable pub persona_source_id : String → Option String
persona_source_id persona =
    if str_eq persona "RL-PERSONA-ALEX"
    then some "RL-ENTRA-ALEX"
    else if str_eq persona "RL-PERSONA-JORDAN"
    then some "RL-ENTRA-JORDAN"
    else if str_eq persona "RL-PERSONA-TAYLOR"
    then some "RL-ENTRA-TAYLOR"
    else none

abbrev planners : List String
planners = "material_planner" ∷ "response_approver" ∷ []

unfoldable pub resolver_roles : AuthorityScope → List String
resolver_roles operational_quantity = planners
resolver_roles operational_date = planners
resolver_roles qualification_state = "quality_approver" ∷ []
resolver_roles supplier_statement = planners
resolver_roles collaboration_statement =
    "material_planner" ∷ "quality_approver" ∷ "response_approver" ∷ []
resolver_roles prerequisite_approval =
    "material_planner" ∷ "finance_approver" ∷ "quality_approver" ∷ "response_approver" ∷ []

unfoldable pub roles_within : List String → Option (List String) → Bool
unfolding subset
roles_within roles none = false
roles_within roles (some recognized) = subset roles recognized

abbrev is_source : String → Option String → Bool
is_source s none = false
is_source s (some t) = str_eq s t

-- A role that the resolvers of every scope have.
unfoldable pub resolves_all : List AuthorityScope → String → Bool
unfolding resolver_roles contains
resolves_all scopes role = all (λ s. contains role (resolver_roles s)) scopes

-- The one identity source is Entra.
unfoldable pub actor_is_authorized : List AuthorityScope → ActorProvenance → Bool
unfolding resolves_all contains persona_roles persona_source_id roles_within
actor_is_authorized scopes actor =
    not (is_blank actor.source_id)
    && non_empty actor.roles
    && not (contains "agent" actor.roles)
    && is_source actor.source_id (persona_source_id actor.persona_id)
    && roles_within actor.roles (persona_roles actor.persona_id)
    && non_empty scopes
    && any (resolves_all scopes) actor.roles

-- The dictionary by identifier holds the last result of each.
unfoldable pub result_of : String → List EvidenceItemValidation → Option EvidenceItemValidation
result_of i [] = none
result_of i (v ∷ vs) =
    let later = result_of i vs in
    elim later [ some w ↦ some w | none ↦ if str_eq v.evidence_id i then some v else none ]

unfoldable pub covers : List AuthorityScope → Option EvidenceItemValidation → Bool
unfolding scopes_within
covers declared none = false
covers declared (some v) = scopes_within declared v.validated_authority_scope

unfoldable pub validated_conflict_scope :
    EvidenceConflict → List EvidenceItemValidation → Result PolicyError (List AuthorityScope)
unfolding scope_set covers result_of
validated_conflict_scope conflict results =
    let declared = scope_set conflict.authority_scope in
    if non_empty conflict.evidence_ids
      && non_empty declared
      && all (λ i. covers declared (result_of i results)) conflict.evidence_ids
    then ok declared
    else err policy_violation

abbrev pub resolution : EvidenceConflict → ActorProvenance → String → String → ConflictResolution
resolution conflict actor governing why = record {
  conflict_id = conflict.conflict_id;
  governing_evidence_id = governing;
  actor = actor;
  why = why;
}

unfoldable pub resolve_conflict :
    EvidenceConflict
    → EvidenceValidation
    → ActorProvenance
    → String
    → String
    → Result PolicyError ConflictResolution
unfolding validated_conflict_scope actor_is_authorized contains
resolve_conflict conflict validation actor governing why = do
  guard (str_eq validation.policy_version evidence_policy_version) policy_violation
  scope ← validated_conflict_scope conflict validation.item_results
  guard (actor_is_authorized scope actor) policy_violation
  guard (contains governing conflict.evidence_ids) policy_violation
  guard (not (is_blank why)) validation_error
  ok (resolution conflict actor governing why)

-- An agent resolves no conflict: an attempt by an actor with the role `agent` is refused.
pub resolve_conflict-agent :
    (conflict : EvidenceConflict) (validation : EvidenceValidation) (actor : ActorProvenance)
    (governing why : String)
    → contains "agent" actor.roles ≡ true
    → resolve_conflict conflict validation actor governing why ≡ err policy_violation
unfolding resolve_conflict validated_conflict_scope actor_is_authorized
resolve_conflict-agent conflict validation actor governing why h = ground arith

if_ok :
    (test : Bool) (declared scopes : List AuthorityScope)
    → (if test then ok declared else err policy_violation) ≡ ok scopes
    → (test ≡ true) × (scopes ≡ declared)
if_ok true declared scopes e = (refl, ok-injective e (λ s. s))
if_ok false declared scopes e = absurd (cc e)

-- The scope of a conflict is the one that it declares, and each of its items was validated for it.
pub validated_conflict_scope-covered :
    (conflict : EvidenceConflict) (results : List EvidenceItemValidation)
    (scopes : List AuthorityScope)
    → validated_conflict_scope conflict results ≡ ok scopes
    → (scopes ≡ scope_set conflict.authority_scope)
      × (non_empty conflict.evidence_ids ≡ true)
      × All (λ i. covers scopes (result_of i results) ≡ true) conflict.evidence_ids
unfolding validated_conflict_scope
validated_conflict_scope-covered conflict results scopes e =
    let (tested, same) = if_ok _ (scope_set conflict.authority_scope) scopes e in
    let (shape, covered) = &&-true _ _ tested in
    (
      same,
      (&&-true _ _ shape).0,
      subst (λ s. All (λ i. covers s (result_of i results) ≡ true) conflict.evidence_ids) (sym same)
          (All-all (λ i. covers (scope_set conflict.authority_scope) (result_of i results))
            conflict.evidence_ids covered),
    )

authorized-role :
    (scopes : List AuthorityScope) (actor : ActorProvenance)
    → actor_is_authorized scopes actor ≡ true
    → (any (resolves_all scopes) actor.roles ≡ true) × (contains "agent" actor.roles ≡ false)
unfolding actor_is_authorized
authorized-role scopes actor h = (ground arith, ground arith)

-- A conflict that is resolved is governed by one of its own items of evidence, for a rationale that
-- is not blank; its actor has no role `agent`, and has one role that resolves every scope which the
-- conflict declares, each of which its evidence was validated for.
pub resolve_conflict-authority :
    (conflict : EvidenceConflict) (validation : EvidenceValidation) (actor : ActorProvenance)
    (governing why : String) (r : ConflictResolution)
    → resolve_conflict conflict validation actor governing why ≡ ok r
    → (contains r.governing_evidence_id conflict.evidence_ids ≡ true)
      × (is_blank r.why ≡ false)
      × (contains "agent" r.actor.roles ≡ false)
      × ((scopes : List AuthorityScope) × (validated_conflict_scope conflict validation.item_results
            ≡ ok scopes)
          × (scopes ≡ scope_set conflict.authority_scope)
          × (non_empty conflict.evidence_ids ≡ true)
          × All
              (λ i. covers scopes (result_of i validation.item_results) ≡ true)
              conflict.evidence_ids
          × (any (resolves_all scopes) r.actor.roles ≡ true))
unfolding resolve_conflict
resolve_conflict-authority conflict validation actor governing why r e =
    let (_, e₁) =
      guard-eq-ok (str_eq validation.policy_version evidence_policy_version) policy_violation _ e in
    let (scopes, found, e₂) =
      >>=-eq-ok (validated_conflict_scope conflict validation.item_results) _ e₁ in
    let (allowed, e₃) = guard-eq-ok (actor_is_authorized scopes actor) policy_violation _ e₂ in
    let (own, e₄) = guard-eq-ok (contains governing conflict.evidence_ids) policy_violation _ e₃ in
    let (reasoned, e₅) = guard-eq-ok (not (is_blank why)) validation_error _ e₄ in
    let (declared, several, covered) =
      validated_conflict_scope-covered conflict validation.item_results scopes found in
    let (role, human) = authorized-role scopes actor allowed in
    (
      ap (λ i. contains i conflict.evidence_ids) (ok-injective e₅ (λ q. q.governing_evidence_id))
          ∙ own,
      ap is_blank (ok-injective e₅ (λ q. q.why)) ∙ ground arith,
      ap (λ (a : ActorProvenance). contains "agent" a.roles) (ok-injective e₅ (λ q. q.actor))
          ∙ human,
      (
        scopes,
        found,
        declared,
        several,
        covered,
        ap (λ (a : ActorProvenance). any (resolves_all scopes) a.roles)
              (ok-injective e₅ (λ q. q.actor))
            ∙ role,
      ),
    )
