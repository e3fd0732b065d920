-- ===== src/Domain/Common.antt =====
-- data/domain/common.py
use supply_response.Base.{ℕ}

-- A `date`, by its ordinal; an aware `datetime`, in microseconds of UTC; an amount, in cents.
abbrev pub Date : Type 0
Date = ℕ

abbrev pub Instant : Type 0
Instant = ℕ

abbrev pub Money : Type 0
Money = ℕ

pub data RuntimeMode : Type 0 where
  live fallback : RuntimeMode

pub RuntimeMode-discrete : Discrete RuntimeMode
RuntimeMode-discrete = hlevel

pub data CasePurpose : Type 0 where
  automated_test rehearsal showcase : CasePurpose

pub data ResponseOptionKind : Type 0 where
  no_mitigation expedite transfer resequence alternate_source combined : ResponseOptionKind

-- data/domain/decisions.py
pub data ExternalSideEffect : Type 0 where
  external_sending purchase_order_change financial_commitment : ExternalSideEffect
