-- ===== src/Base/Keys.antt =====
-- The keys that the program sorts by: texts, dates and counts, and pairs of these.
use Prim.Native.Nat.{ℕ}
use mathlib.Core.Path.{◌≡◌}
use mathlib.Core.Bool.{Bool, true, false, not, ◌&&◌, ◌||◌}
use native.Mathlib.Omega.{arith}
use supply_response.Base.Tests.{leb}
use supply_response.Base.Text.{String, str_leb, str_leb_total, str_leb_trans}
use supply_response.Base.Order.{Order}
use supply_response.Base.Int.{ℤ, leb_ℤ}

abbrev pub str_order : Order String
str_order = record { le = str_leb; total = str_leb_total; trans = str_leb_trans }

pub leb_total : (a b : ℕ) → leb a b ≡ false → leb b a ≡ true
leb_total a b h = ground arith

pub leb_trans : (a b c : ℕ) → leb a b ≡ true → leb b c ≡ true → leb a c ≡ true
leb_trans a b c h k = ground arith

abbrev pub nat_order : Order ℕ
nat_order = record { le = leb; total = leb_total; trans = leb_trans }

pub leb_ℤ_total : (a b : ℤ) → leb_ℤ a b ≡ false → leb_ℤ b a ≡ true
leb_ℤ_total a b h = ground arith

pub leb_ℤ_trans : (a b c : ℤ) → leb_ℤ a b ≡ true → leb_ℤ b c ≡ true → leb_ℤ a c ≡ true
leb_ℤ_trans a b c h k = ground arith

abbrev pub int_order : Order ℤ
int_order = record { le = leb_ℤ; total = leb_ℤ_total; trans = leb_ℤ_trans }

module _ {ℓ κ} {A : Type ℓ} {B : Type κ} (o : Order A) (p : Order B) where
  -- `(a, b) <= (c, d)` on tuples.
  abbrev pub pair_le : A × B → A × B → Bool
  pair_le (a, b) (c, d) = o.le a c && (not (o.le c a) || p.le b d)

  pub pair_total : (x y : A × B) → pair_le x y ≡ false → pair_le y x ≡ true
  pair_total (a, b) (c, d) h = ground (arith, o.total a c, o.total c a, p.total b d)

  pub pair_trans : (x y z : A × B) → pair_le x y ≡ true → pair_le y z ≡ true → pair_le x z ≡ true
  pair_trans (a, b) (c, d) (e, f) h k =
      ground (arith, o.trans a c e, o.trans c e a, o.trans e a c, p.trans b d f)

  abbrev pub pair : Order (A × B)
  pair = record { le = pair_le; total = pair_total; trans = pair_trans }
