-- ===== src/Base/Text.antt =====
-- Python's `str`: equality, and the order by code points that `sorted` and `min` use. Also the
-- collections of texts that the program builds with `set` and `dict.fromkeys`.
use mathlib.Core.Logic.{inl, inr}
use Prim.Native.Nat.{ℕ, suc, Ordering, compare as compare_ℕ}
use Prim.Native.Char.{Char, code}
use Prim.Native.String.compare
use Prim.Native.String.{compare, then as and_then}
pub use Prim.Native.String.{String}
use mathlib.Core.Path.{◌≡◌, refl, ap, ◌∙◌}
use mathlib.Core.Bool.{Bool, true, false, not, ◌||◌, ◌&&◌}
use mathlib.Core.List.{List, [], ◌∷◌}
use native.Mathlib.Omega.{arith}
pub use text.Mathlib.Text.{◌==◌ as str_eq}
pub use text.Mathlib.TextEquality.{eq_iff}
pub use text.Mathlib.TextPositions.{eq_refl}
use text.Mathlib.TextEquality.{path_by_compare}
use supply_response.Base.Lists.{keep, all}
use supply_response.Base.Tests.{leb, ◌==◌, if◌then◌else◌, Bool-cases}

pub str_eq_refl : (s : String) → str_eq s s ≡ true
str_eq_refl s = eq_refl s

-- Two texts that differ, the other way round.
pub differ : (i j : String) → str_eq i j ≡ false → str_eq j i ≡ false
differ i j h = elim (Bool-cases (str_eq j i)) [
  | inl s ↦ absurd (ground (arith, h, str_eq_refl i, ap (str_eq i) ((eq_iff j i).0 s)))
  | inr s ↦ s
]

abbrev le_of : Ordering → Bool
le_of Ordering.gt = false
le_of _ = true

-- `s <= t` on `str`.
unfoldable pub str_leb : String → String → Bool
str_leb s t = le_of (compare s t)

-- What three comparisons of one kind say of one another.
record Agree (st ts tu su : Ordering) : Type 0 where
  flip_gt : st ≡ Ordering.gt → ts ≡ Ordering.lt
  flip_lt : st ≡ Ordering.lt → ts ≡ Ordering.gt
  flip_eq : st ≡ Ordering.eq → ts ≡ Ordering.eq
  lt_lt : st ≡ Ordering.lt → tu ≡ Ordering.lt → su ≡ Ordering.lt
  eq_left : st ≡ Ordering.eq → su ≡ tu
  eq_right : tu ≡ Ordering.eq → su ≡ st

Agree-ℕ : (a b c : ℕ) → Agree (compare_ℕ a b) (compare_ℕ b a) (compare_ℕ b c) (compare_ℕ a c)
Agree-ℕ a b c = ground arith

Agree-and_then :
    {a b c d a' b' c' d' : Ordering}
    → Agree a b c d
    → Agree a' b' c' d'
    → Agree (and_then a a') (and_then b b') (and_then c c') (and_then d d')
Agree-and_then h k = ground arith

nil_nil : compare String.[] String.[] ≡ Ordering.eq
nil_nil = compare.nil-nil

module _ (c : Char) (s : String) where
  nil_cons : compare String.[] (String.◌∷◌ c s) ≡ Ordering.lt
  nil_cons = compare.nil-cons c s

  cons_nil : compare (String.◌∷◌ c s) String.[] ≡ Ordering.gt
  cons_nil = compare.cons-nil c s

cons_cons :
    (c d : Char) (s t : String)
    → compare (String.◌∷◌ c s) (String.◌∷◌ d t)
      ≡ and_then (compare_ℕ (code c) (code d)) (compare s t)
cons_cons c d s t = compare.cons-cons c d s t

ruleset clauses = (nil_nil, nil_cons, cons_nil, cons_cons)

Agree-compare : (s t u : String) → Agree (compare s t) (compare t s) (compare t u) (compare s u)
Agree-compare String.[] String.[] String.[] = simp clauses (ground arith)
Agree-compare String.[] String.[] (String.◌∷◌ e u) = simp clauses (ground arith)
Agree-compare String.[] (String.◌∷◌ d t) String.[] = simp clauses (ground arith)
Agree-compare String.[] (String.◌∷◌ d t) (String.◌∷◌ e u) = simp clauses (ground arith)
Agree-compare (String.◌∷◌ c s) String.[] String.[] = simp clauses (ground arith)
Agree-compare (String.◌∷◌ c s) String.[] (String.◌∷◌ e u) = simp clauses (ground arith)
Agree-compare (String.◌∷◌ c s) (String.◌∷◌ d t) String.[] = simp clauses (
    ground
      (arith, Agree-and_then (Agree-ℕ (code c) (code d) (code c)) (Agree-compare s t String.[])))
Agree-compare (String.◌∷◌ c s) (String.◌∷◌ d t) (String.◌∷◌ e u) =
    simp clauses (Agree-and_then (Agree-ℕ (code c) (code d) (code e)) (Agree-compare s t u))

module _ (s t : String) where
  pub str_leb_total : str_leb s t ≡ false → str_leb t s ≡ true
  unfolding str_leb
  str_leb_total h = ground (arith, (Agree-compare s t s).flip_gt)

  pub str_leb_antisym : str_leb s t ≡ true → str_leb t s ≡ true → s ≡ t
  unfolding str_leb
  str_leb_antisym h k = path_by_compare s t (ground (arith, (Agree-compare s t s).flip_lt))

pub str_leb_trans : (s t u : String) → str_leb s t ≡ true → str_leb t u ≡ true → str_leb s u ≡ true
unfolding str_leb
str_leb_trans s t u h k =
    let a = Agree-compare s t u in ground (arith, a.lt_lt, a.eq_left, a.eq_right)

-- `s in xs`
unfoldable pub contains : String → List String → Bool
contains s [] = false
contains s (x ∷ xs) = str_eq s x || contains s xs

-- `set(xs).issubset(ys)`
unfoldable pub subset : List String → List String → Bool
unfolding contains
subset xs ys = all (λ x. contains x ys) xs

-- `tuple(dict.fromkeys(xs))`: the first of each value, in order. Its length is `len(set(xs))`.
unfoldable pub dedup : List String → List String
dedup [] = []
dedup (x ∷ xs) = x ∷ keep (λ y. not (str_eq x y)) (dedup xs)

-- `c.isspace()`
abbrev pub is_space : Char → Bool
is_space c =
    let n = code c in
    (leb 9 n && leb n 13)
    || (leb 28 n && leb n 32)
    || n == 133
    || n == 160
    || n == 5760
    || (leb 8192 n && leb n 8202)
    || n == 8232
    || n == 8233
    || n == 8239
    || n == 8287
    || n == 12288

-- `s.lstrip()`, `s.rstrip()` and `s.strip()`
lstrip : String → String
lstrip String.[] = String.[]
lstrip (String.◌∷◌ c s) = if is_space c then lstrip s else String.◌∷◌ c s

abbrev pub is_empty : String → Bool
is_empty String.[] = true
is_empty (String.◌∷◌ c s) = false

rstrip : String → String
rstrip String.[] = String.[]
rstrip (String.◌∷◌ c s) =
    let rest = rstrip s in if is_empty rest && is_space c then String.[] else String.◌∷◌ c rest

unfoldable pub strip : String → String
unfolding lstrip rstrip
strip s = rstrip (lstrip s)

-- `len(s)`
unfoldable pub str_length : String → ℕ
str_length String.[] = 0
str_length (String.◌∷◌ c s) = suc (str_length s)

rstrip_twice : (s : String) → rstrip (rstrip s) ≡ rstrip s
unfolding rstrip
rstrip_twice String.[] = refl
rstrip_twice (String.◌∷◌ c s) = elim (Bool-cases (is_empty (rstrip s) && is_space c)) [
  | inl e ↦ rw e refl
  | inr e ↦ rw e (rw (rstrip_twice s, e) refl)
]

lstrip-rstrip : (s : String) → lstrip (rstrip (lstrip s)) ≡ rstrip (lstrip s)
unfolding lstrip rstrip
lstrip-rstrip String.[] = refl
lstrip-rstrip (String.◌∷◌ c s) = elim (Bool-cases (is_space c)) [
  | inl e ↦ rw e (lstrip-rstrip s)
  | inr e ↦ rw e (ground (arith, e))
]

-- Stripping a stripped text changes nothing.
pub strip_twice : (s : String) → strip (strip s) ≡ strip s
unfolding strip
strip_twice s = ap rstrip (lstrip-rstrip s) ∙ rstrip_twice (lstrip s)
