-- ===== src/Policy/Thresholds.antt =====
-- services/policy/thresholds.py
use supply_response.Base.{ℕ, Bool, true, false, not, Option, none, some, ltb, ◌==◌, ◌+◌}
use supply_response.Base.Int.{ℤ, pos, ltb_ℤ}
use supply_response.Domain.Common.{Date}

-- 20000, in cents.
abbrev pub default_premium_freight_approval_threshold : ℤ
default_premium_freight_approval_threshold = pos 2000000

-- With a threshold, and with the default one, which is all that the callers use.
unfoldable pub requires_finance_approval_over : ℤ → ℤ → Bool
requires_finance_approval_over threshold response_cost = ltb_ℤ threshold response_cost

unfoldable pub requires_finance_approval : ℤ → Bool
unfolding requires_finance_approval_over
requires_finance_approval response_cost =
    requires_finance_approval_over default_premium_freight_approval_threshold response_cost

-- `as_of - timedelta(days=max_age_days)` is compared with the days added to the other side.
unfoldable pub collaboration_evidence_is_stale : Option Date → Date → ℕ → Bool
collaboration_evidence_is_stale none as_of max_age_days = true
collaboration_evidence_is_stale (some d) as_of max_age_days = ltb (d + max_age_days) as_of

unfoldable pub dates_conflict : Option Date → Option Date → Bool
dates_conflict (some communicated) (some operational) = not (communicated == operational)
dates_conflict _ _ = false
