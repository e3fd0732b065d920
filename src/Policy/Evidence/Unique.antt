-- ===== src/Policy/Evidence/Unique.antt =====
-- services/policy/evidence.py: the scopes of conflicts with distinct identifiers.
use supply_response.Base.{
  ◌≡◌, refl, ap, subst, ◌∙◌, String, Bool, true, false, ◌||◌, Option, none, some, List, [], ◌∷◌,
  ◌++◌, any, find, str_eq, eq_iff, differ, if◌then◌else◌, arith, All, All-map, Bool-cases, inl, inr,
}
use supply_response.Base.Result.{ok, >>=-eq-ok, ok-injective}
use supply_response.Domain.Evidence.{AuthorityScope, EvidenceConflict, EvidenceItemValidation}
use supply_response.Policy.Evidence.{scope_set}
use supply_response.Policy.Evidence.Resolver.{
  validated_conflict_scope-covered, validated_conflict_scope,
}
use supply_response.Policy.Evidence.Required.{conflict_scopes, Scopes, last_scope}

-- Conflicts of which no two have one identifier.
abbrev pub Unique : List EvidenceConflict → Type 0
Unique [] = Unit
Unique (c ∷ cs) = All (λ d. str_eq c.conflict_id d.conflict_id ≡ false) cs × Unique cs

pub validated_conflict_scope-declared :
    (c : EvidenceConflict) (results : List EvidenceItemValidation) (s : List AuthorityScope)
    → validated_conflict_scope c results ≡ ok s
    → s ≡ scope_set c.authority_scope
validated_conflict_scope-declared c results s e = (validated_conflict_scope-covered c results s e).0

conflict_scopes-cons :
    (c : EvidenceConflict) (cs : List EvidenceConflict) (results : List EvidenceItemValidation)
    (scopes : Scopes)
    → conflict_scopes (c ∷ cs) results ≡ ok scopes
    → (rest : Scopes) × (conflict_scopes cs results ≡ ok rest)
      × (scopes ≡ (c.conflict_id, scope_set c.authority_scope) ∷ rest)
unfolding conflict_scopes
conflict_scopes-cons c cs results scopes e =
    let (s, found, e₁) = >>=-eq-ok (validated_conflict_scope c results) _ e in
    let (rest, more, e₂) = >>=-eq-ok (conflict_scopes cs results) _ e₁ in
    (
      rest,
      more,
      ok-injective e₂ (λ t. t)
          ∙ ap (λ t. (c.conflict_id, t) ∷ rest)
              (validated_conflict_scope-declared c results s found),
    )

module _ (i j : String) (t : List AuthorityScope) (rest : Scopes) where
  last_scope-later :
      (s : List AuthorityScope) → last_scope i rest ≡ some s → last_scope i ((j, t) ∷ rest) ≡ some s
  unfolding last_scope
  last_scope-later s h = rw h refl

  last_scope-here :
      last_scope i rest ≡ none
      → last_scope i ((j, t) ∷ rest) ≡ (if str_eq j i then some t else none)
  unfolding last_scope
  last_scope-here h = rw h refl

last_scope-none :
    (i : String) (cs : List EvidenceConflict) (results : List EvidenceItemValidation)
    (scopes : Scopes)
    → conflict_scopes cs results ≡ ok scopes
    → All (λ d. str_eq i d.conflict_id ≡ false) cs
    → last_scope i scopes ≡ none
unfolding last_scope conflict_scopes
last_scope-none i [] results scopes e h = rw (ok-injective e (λ t. t)) refl
last_scope-none i (c ∷ cs) results scopes e h =
    let (rest, more, same) = conflict_scopes-cons c cs results scopes e in
    ap (last_scope i) same
    ∙ last_scope-here i c.conflict_id (scope_set c.authority_scope) rest
        (last_scope-none i cs results rest more h.1)
    ∙ rw (differ i c.conflict_id h.0) refl

some-injective : {A : Type 0} {a b : A} → ◌≡◌ {A = Option A} (some a) (some b) → a ≡ b
some-injective {a = a} h = ap (λ o. elim o [ none ↦ a | some x ↦ x ]) h

module _ (p : EvidenceConflict → Bool) (c d : EvidenceConflict) (ds : List EvidenceConflict) where
  find-first : find p (d ∷ ds) ≡ some c → p d ≡ true → d ≡ c
  find-first f s = some-injective (subst (λ b. (if b then some d else find p ds) ≡ some c) s f)

  find-later : find p (d ∷ ds) ≡ some c → p d ≡ false → find p ds ≡ some c
  find-later f s = subst (λ b. (if b then some d else find p ds) ≡ some c) s f

-- The dictionary has, for an identifier, the scope that its one conflict declares.
pub last_scope-declared :
    (i : String) (c : EvidenceConflict) (cs : List EvidenceConflict)
    (results : List EvidenceItemValidation) (scopes : Scopes)
    → conflict_scopes cs results ≡ ok scopes
    → Unique cs
    → find (λ d. str_eq d.conflict_id i) cs ≡ some c
    → last_scope i scopes ≡ some (scope_set c.authority_scope)
unfolding last_scope
last_scope-declared i c [] results scopes e u f = absurd (cc f)
last_scope-declared i c (d ∷ ds) results scopes e u f =
    let (rest, more, same) = conflict_scopes-cons d ds results scopes e in
    let own = scope_set d.authority_scope in
    ap (last_scope i) same ∙ elim (Bool-cases (str_eq d.conflict_id i)) [
      | inl s ↦
          let none_later =
            subst (λ j. last_scope j rest ≡ none) ((eq_iff d.conflict_id i).0 s)
              (last_scope-none d.conflict_id ds results rest more u.0) in
          last_scope-here i d.conflict_id own rest none_later
          ∙ rw s (
              ap (λ (x : EvidenceConflict). some (scope_set x.authority_scope))
                (find-first (λ x. str_eq x.conflict_id i) c d ds f s))
      | inr s ↦ last_scope-later i d.conflict_id own rest (scope_set c.authority_scope) (
          last_scope-declared i c ds results rest more u.1
            (find-later (λ x. str_eq x.conflict_id i) c d ds f s))
    ]

-- A conflict that is found by an identifier is the only one with it.
pub find-only :
    (i : String) (c : EvidenceConflict) (cs : List EvidenceConflict)
    → Unique cs
    → find (λ d. str_eq d.conflict_id i) cs ≡ some c
    → All (λ d. str_eq d.conflict_id i ≡ true → d ≡ c) cs
find-only i c [] u f = tt
find-only i c (d ∷ ds) u f = elim (Bool-cases (str_eq d.conflict_id i)) [
  | inl s ↦ (
    λ _. find-first (λ x. str_eq x.conflict_id i) c d ds f s,
    All-map _ _ ds
        (λ x apart k. absurd (
          ground (
            arith,
            k,
            differ i x.conflict_id
                (subst (λ j. str_eq j x.conflict_id ≡ false) ((eq_iff d.conflict_id i).0 s) apart),
          )))
        u.0,
  )
  | inr s ↦ (
    λ k. absurd (ground (arith, s, k)),
    find-only i c ds u.1 (find-later (λ x. str_eq x.conflict_id i) c d ds f s),
  )
]

pub any-append :
    {A : Type 0} (p : A → Bool) (xs : List A) (x : A) → any p (xs ++ x ∷ []) ≡ (any p xs || p x)
any-append p [] x = ground arith
any-append p (y ∷ ys) x = ground (arith, any-append p ys x)
