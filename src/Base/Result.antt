-- ===== src/Base/Result.antt =====
-- Python exceptions in pure code: a result, or the kind of error that was raised.
use mathlib.Core.Path.{◌≡◌, refl, ap, sym, subst}
use mathlib.Core.Bool.{Bool, true, false}
use supply_response.Base.Tests.{if◌then◌else◌}

module _ {ℓ κ} where
  pub data Result (E : Type κ) (A : Type ℓ) : Type (ℓ ⊔ κ) where
    ok : A → Result E A
    err : E → Result E A

-- `if not test: raise error`
abbrev pub guard {ι} : {E : Type ι} → Bool → E → Result E (Unit {0})
guard false error = err error
guard true error = ok tt

-- What runs next, with the value or, for a test, without one.
infixl 5 ◌>>◌ ◌>>=◌
abbrev pub ◌>>=◌ {ι ℓ κ} :
    {E : Type ι} {A : Type ℓ} {B : Type κ} → Result E A → (A → Result E B) → Result E B
err error >>= next = err error
ok value >>= next = next value

abbrev pub ◌>>◌ {κ ι} : {E : Type ι} {B : Type κ} → Result E (Unit {0}) → Result E B → Result E B
test >> next = test >>= λ _. next

pub >>=-eq-ok {ι ℓ κ} :
    {E : Type ι} {A : Type ℓ} {B : Type κ} (first : Result E A) (next : A → Result E B) {b : B}
    → (first >>= next) ≡ ok b
    → (a : A) × (first ≡ ok a) × (next a ≡ ok b)
>>=-eq-ok (err error) next h = cc
>>=-eq-ok (ok value) next h = (value, refl, h)

-- What a function says of the two values of equal results. (For `err` there is nothing to say.)
abbrev value_or {ℓ κ ι} : {E : Type ι} {A : Type ℓ} {B : Type κ} → (A → B) → B → Result E A → B
value_or f b (ok a) = f a
value_or f b (err e) = b

pub ok-injective {ℓ κ ι} :
    {E : Type ι} {A : Type ℓ} {B : Type κ} {a b : A}
    → ◌≡◌ {A = Result E A} (ok a) (ok b)
    → (f : A → B) → f b ≡ f a
ok-injective {a = a} p f = ap (value_or f (f a)) (sym p)

-- A test that was passed, and what comes after it.
pub guard-eq-ok {ℓ ι} :
    {E : Type ι} {B : Type ℓ} (test : Bool) (e : E) (k : Result E B) {b : B}
    → (guard test e >> k) ≡ ok b
    → (test ≡ true) × (k ≡ ok b)
guard-eq-ok true e k h = (refl, h)
guard-eq-ok false e k h = cc

-- What holds of the value, if there is one.
abbrev pub Ensures {ℓ κ ι} : {E : Type ι} {A : Type ℓ} → (A → Type κ) → Result E A → Type κ
Ensures P (ok a) = P a
Ensures P (err e) = Unit

module _ {ι ℓ κ μ} {E : Type ι} {A : Type ℓ} {B : Type κ} (P : B → Type μ) where
  pub Ensures-bind :
      (m : Result E A) (f : A → Result E B)
      → ((a : A) → m ≡ ok a → Ensures P (f a))
      → Ensures P (m >>= f)
  Ensures-bind (ok a) f h = h a refl
  Ensures-bind (err e) f h = tt

module _ {ι κ μ} {E : Type ι} {B : Type κ} (P : B → Type μ) where
  pub Ensures-guard :
      (test : Bool) (e : E) (k : Result E B)
      → (test ≡ true → Ensures P k)
      → Ensures P (guard test e >> k)
  Ensures-guard true e k h = h refl
  Ensures-guard false e k h = tt

  pub Ensures-then : (m : Result E (Unit {0})) (k : Result E B) → Ensures P k → Ensures P (m >> k)
  Ensures-then (ok a) k h = h
  Ensures-then (err e) k h = tt

  pub Ensures-ok : (m : Result E B) (b : B) → Ensures P m → m ≡ ok b → P b
  Ensures-ok (ok a) b h e = subst P (sym (ok-injective e (λ x. x))) h
  Ensures-ok (err x) b h e = cc

module _ {κ μ} {B : Type κ} (P : B → Type μ) where
  pub if_split :
      (b : Bool) (x y : B) → (b ≡ true → P x) → (b ≡ false → P y) → P (if b then x else y)
  if_split true x y h k = h refl
  if_split false x y h k = k refl

-- A step that succeeds.
pub >>=-ok {ι ℓ κ} :
    {E : Type ι} {A : Type ℓ} {B : Type κ} (m : Result E A) (f : A → Result E B) (a : A)
    → m ≡ ok a
    → (m >>= f) ≡ f a
>>=-ok m f a h = ap (λ r. r >>= f) h

pub guard-ok {ℓ ι} :
    {E : Type ι} {B : Type ℓ} (test : Bool) (e : E) (k : Result E B)
    → test ≡ true
    → (guard test e >> k) ≡ k
guard-ok test e k h = ap (λ b. guard b e >> k) h
