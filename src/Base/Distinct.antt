-- ===== src/Base/Distinct.antt =====
-- When a list of texts has no duplicate: exactly when removing duplicates keeps its length.
use Prim.Native.Nat.{◌≤◌}
use mathlib.Core.Path.{◌≡◌, refl, ap, subst}
use mathlib.Core.Bool.{Bool, true, false, not}
use mathlib.Core.Logic.{inl, inr}
use mathlib.Core.List.{List, [], ◌∷◌}
use native.Mathlib.Omega.{arith}
use supply_response.Base.Tests.{Bool-cases}
use supply_response.Base.Lists.{length, keep, All, All-map, keep-All, length-keep}
use supply_response.Base.Text.{
  String, str_eq, eq_iff, str_leb, str_leb_total, str_leb_antisym, dedup,
}
use supply_response.Base.Order.{AllApart, Apart}
use supply_response.Base.Keys.{str_order}

Apart-str_eq : (s t : String) → Apart str_order s t → str_eq s t ≡ false
Apart-str_eq s t h = elim (Bool-cases (str_leb s t)) [
  | inl e ↦ ground (arith, e, h, str_leb_total s s, eq_iff s t)
  | inr e ↦ ground (arith, e, h, str_leb_total s s, eq_iff s t)
]

str_eq-Apart : (s t : String) → str_eq s t ≡ false → Apart str_order s t
str_eq-Apart s t h p q = ground (arith, str_leb_antisym s t p q, eq_iff s t)

-- A list without duplicates is left as it is.
pub dedup-AllApart : (xs : List String) → AllApart str_order xs → dedup xs ≡ xs
unfolding dedup
dedup-AllApart [] h = refl
dedup-AllApart (x ∷ xs) h = rw (dedup-AllApart xs h.1) (
    ap (λ r. x ∷ r)
      (keep-All (λ y. not (str_eq x y)) xs
        (All-map _ _ xs (λ y k. ap not (Apart-str_eq x y k)) h.0)))

module _ {ℓ} {A : Type ℓ} (p : A → Bool) where
  keep-full : (xs : List A) → length (keep p xs) ≡ length xs → All (λ x. p x ≡ true) xs
  keep-full [] h = tt
  keep-full (x ∷ xs) h = elim (Bool-cases (p x)) [
    | inl e ↦ (e, keep-full xs (ground arith))
    | inr e ↦ absurd (ground (arith, length-keep p xs))
  ]

length-dedup : (xs : List String) → length (dedup xs) ≤ length xs
unfolding dedup
length-dedup [] = omega arith
length-dedup (x ∷ xs) =
    omega (arith, length-keep (λ y. not (str_eq x y)) (dedup xs), length-dedup xs)

pub length-dedup-AllApart :
    (xs : List String) → length xs ≡ length (dedup xs) → AllApart str_order xs
unfolding dedup
length-dedup-AllApart [] h = tt
length-dedup-AllApart (x ∷ xs) h =
    let shorter = length-keep (λ y. not (str_eq x y)) (dedup xs) in
    let rest = length-dedup-AllApart xs (omega (arith, shorter, length-dedup xs)) in
    let same = dedup-AllApart xs rest in
    (
      All-map _ _ xs (λ y k. str_eq-Apart x y (ground arith))
          (keep-full (λ y. not (str_eq x y)) xs
            (subst (λ l. length (keep (λ y. not (str_eq x y)) l) ≡ length xs) same
              (omega (arith, shorter, length-dedup xs)))),
      rest,
    )
