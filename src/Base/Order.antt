-- ===== src/Base/Order.antt =====
-- Orders for `sorted(xs, key=…)`. Python's sort is stable; so is this insertion sort.
use mathlib.Core.Path.{◌≡◌, refl, ap, subst, ◌∙◌}
use mathlib.Core.Bool.{Bool, true, false}
use mathlib.Core.Logic.{inl, inr}
use mathlib.Core.List.{List, [], ◌∷◌, Perm, Permᴰ}
use mathlib.Core.List.Perm
use Prim.Native.Nat.{suc}
use native.Mathlib.Omega.{arith}
use supply_response.Base.Tests.{if◌then◌else◌, Bool-cases}
use supply_response.Base.Lists.{All, length}

-- A total preorder: what a key function and the order of its keys amount to.
pub record Order {ℓ} (A : Type ℓ) : Type ℓ where
  pub le : A → A → Bool
  pub total : (a b : A) → le a b ≡ false → le b a ≡ true
  pub trans : (a b c : A) → le a b ≡ true → le b c ≡ true → le a c ≡ true

module _ {ℓ} {A : Type ℓ} (o : Order A) where
  open o use {le, total, trans}

  unfoldable pub insert : A → List A → List A
  insert x [] = x ∷ []
  insert x (y ∷ ys) = if le x y then x ∷ y ∷ ys else y ∷ insert x ys

  unfoldable pub sorted : List A → List A
  unfolding insert
  sorted [] = []
  sorted (x ∷ xs) = insert x (sorted xs)

  -- Ascending by the key.
  abbrev pub IsSorted : List A → Type ℓ
  IsSorted [] = Unit
  IsSorted (x ∷ xs) = All (λ y. le x y ≡ true) xs × IsSorted xs

  -- Two items with different keys, and a list with no key twice.
  abbrev pub Apart : A → A → Type 0
  Apart a b = le a b ≡ true → le b a ≡ true → ⊥

  abbrev pub AllApart : List A → Type ℓ
  AllApart [] = Unit
  AllApart (x ∷ xs) = All (Apart x) xs × AllApart xs

  insert-perm : (x : A) (xs : List A) → Perm (insert x xs) (x ∷ xs)
  unfolding insert
  insert-perm x [] = Perm.rfl
  insert-perm x (y ∷ ys) = elim (Bool-cases (le x y)) [
    | inl h ↦ rw h Perm.rfl
    | inr h ↦ rw h (Perm.trans (Perm.cons y (insert-perm x ys)) (Perm.swap x y ys))
  ]

  -- `sorted` loses and invents nothing.
  pub sorted-perm : (xs : List A) → Perm (sorted xs) xs
  unfolding sorted
  sorted-perm [] = Perm.rfl
  sorted-perm (x ∷ xs) = Perm.trans (insert-perm x (sorted xs)) (Perm.cons x (sorted-perm xs))

  All-insert {κ} : (P : A → Type κ) (x : A) (xs : List A) → P x → All P xs → All P (insert x xs)
  unfolding insert
  All-insert P x [] h k = (h, tt)
  All-insert P x (y ∷ ys) h k = elim (Bool-cases (le x y)) [
    | inl e ↦ rw e (h, k)
    | inr e ↦ rw e (k.0, All-insert P x ys h k.1)
  ]

  insert-All {κ} : (P : A → Type κ) (x : A) (xs : List A) → All P (insert x xs) → P x × All P xs
  unfolding insert
  insert-All P x [] h = (h.0, tt)
  insert-All P x (y ∷ ys) h = elim (Bool-cases (le x y)) [
    | inl e ↦ subst (λ b. All P (if b then x ∷ y ∷ ys else y ∷ insert x ys)) e h
    | inr e ↦
        let k = subst (λ b. All P (if b then x ∷ y ∷ ys else y ∷ insert x ys)) e h in
        let r = insert-All P x ys k.1 in (r.0, (k.0, r.1))
  ]

  pub sorted-All {κ} : (P : A → Type κ) (xs : List A) → All P (sorted xs) → All P xs
  unfolding sorted
  sorted-All P [] h = tt
  sorted-All P (x ∷ xs) h = let r = insert-All P x (sorted xs) h in (r.0, sorted-All P xs r.1)

  pub All-sorted {κ} : (P : A → Type κ) (xs : List A) → All P xs → All P (sorted xs)
  unfolding sorted
  All-sorted P [] h = tt
  All-sorted P (x ∷ xs) h = All-insert P x (sorted xs) h.0 (All-sorted P xs h.1)

  length-insert : (x : A) (xs : List A) → length (insert x xs) ≡ suc (length xs)
  unfolding insert
  length-insert x [] = refl
  length-insert x (y ∷ ys) = elim (Bool-cases (le x y)) [
    | inl e ↦ rw e refl
    | inr e ↦ rw e (ap suc (length-insert x ys))
  ]

  pub length-sorted : (xs : List A) → length (sorted xs) ≡ length xs
  unfolding sorted
  length-sorted [] = refl
  length-sorted (x ∷ xs) = length-insert x (sorted xs) ∙ ap suc (length-sorted xs)

  All-trans :
      (x y : A) (xs : List A)
      → le x y ≡ true
      → All (λ z. le y z ≡ true) xs
      → All (λ z. le x z ≡ true) xs
  All-trans x y [] h k = tt
  All-trans x y (z ∷ zs) h k = (trans x y z h k.0, All-trans x y zs h k.1)

  insert-IsSorted : (x : A) (xs : List A) → IsSorted xs → IsSorted (insert x xs)
  unfolding insert
  insert-IsSorted x [] h = (tt, tt)
  insert-IsSorted x (y ∷ ys) h = elim (Bool-cases (le x y)) [
    | inl e ↦ rw e ((e, All-trans x y ys e h.0), h)
    | inr e ↦ rw e (All-insert _ x ys (total x y e) h.0, insert-IsSorted x ys h.1)
  ]

  pub sorted-IsSorted : (xs : List A) → IsSorted (sorted xs)
  unfolding sorted
  sorted-IsSorted [] = tt
  sorted-IsSorted (x ∷ xs) = insert-IsSorted x (sorted xs) (sorted-IsSorted xs)

  AllApart-insert : (x : A) (xs : List A) → All (Apart x) xs → AllApart xs → AllApart (insert x xs)
  unfolding insert
  AllApart-insert x [] h k = (tt, tt)
  AllApart-insert x (y ∷ ys) h k = elim (Bool-cases (le x y)) [
    | inl e ↦ rw e (h, k)
    | inr e ↦ rw e (All-insert (Apart y) x ys (λ p q. h.0 q p) k.0, AllApart-insert x ys h.1 k.1)
  ]

  pub AllApart-sorted : (xs : List A) → AllApart xs → AllApart (sorted xs)
  unfolding sorted
  AllApart-sorted [] h = tt
  AllApart-sorted (x ∷ xs) h =
      AllApart-insert x (sorted xs) (All-sorted (Apart x) xs h.0) (AllApart-sorted xs h.1)

  -- Items with different keys can be inserted in either order.
  insert_comm :
      (x y : A) (xs : List A) → Apart x y → insert x (insert y xs) ≡ insert y (insert x xs)
  unfolding insert
  insert_comm x y [] h = ground (arith, h, total x y)
  insert_comm x y (z ∷ zs) h =
      ground
        (arith, h, total x y, total x z, total y z, trans x y z, trans y x z, insert_comm x y zs h)

  pub All-perm {κ} : (P : A → Type κ) {xs ys : List A} → Permᴰ xs ys → All P xs → All P ys
  All-perm P Permᴰ.nil h = h
  All-perm P (Permᴰ.cons e p) h = (subst P e h.0, All-perm P p h.1)
  All-perm P (Permᴰ.swap e f) h = (subst P f h.1.0, (subst P e h.0, h.1.1))
  All-perm P (Permᴰ.trans p q) h = All-perm P q (All-perm P p h)

  pub AllApart-perm : {xs ys : List A} → Permᴰ xs ys → AllApart xs → AllApart ys
  AllApart-perm Permᴰ.nil h = h
  AllApart-perm (Permᴰ.cons {l₂ = l} e p) h =
      (subst (λ a. All (Apart a) l) e (All-perm _ p h.0), AllApart-perm p h.1)
  AllApart-perm (Permᴰ.swap {a = a} {a' = a'} {l = l} e f) h =
      subst (λ y. AllApart (a' ∷ y ∷ l)) e
        (subst (λ x. AllApart (x ∷ a ∷ l)) f ((λ p q. h.0.0 q p, h.1.0), (h.0.1, h.1.1)))
  AllApart-perm (Permᴰ.trans p q) h = AllApart-perm q (AllApart-perm p h)

  -- The order in which items with different keys arrive does not matter.
  pub sorted-permᴰ : {xs ys : List A} → Permᴰ xs ys → AllApart xs → sorted xs ≡ sorted ys
  unfolding sorted
  sorted-permᴰ Permᴰ.nil h = refl
  sorted-permᴰ (Permᴰ.cons {a = a} {b = b} {l₁ = l} e p) h =
      ap (λ x. insert x (sorted l)) e ∙ ap (insert b) (sorted-permᴰ p h.1)
  sorted-permᴰ (Permᴰ.swap {a = a} {b = b} {a' = a'} {l = l} e f) h =
      insert_comm a b (sorted l) h.0.0
      ∙ ap (λ x. insert x (insert a (sorted l))) f
      ∙ ap (λ y. insert a' (insert y (sorted l))) e
  sorted-permᴰ (Permᴰ.trans p q) h = sorted-permᴰ p h ∙ sorted-permᴰ q (AllApart-perm p h)

-- The order of the keys that a key function gives.
abbrev pub by {ℓ κ} : {A : Type ℓ} {K : Type κ} → (A → K) → Order K → Order A
by key o = record {
  le = λ a b. o.le (key a) (key b);
  total = λ a b. o.total (key a) (key b);
  trans = λ a b c. o.trans (key a) (key b) (key c);
}
