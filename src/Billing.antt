-- ===== src/Billing.antt =====
-- common/billing/period.go. A time is a number of nanoseconds. `AddDate(0, 0, d)` moves by whole
-- days of 24 hours: the business time zone Asia/Shanghai has no daylight saving.
pub mod Cycles
use ai_token_mall.Prelude.{
  ℕ, zero, suc, ◌+◌, ◌*◌, Bool, true, false, ◌&&◌, not, String, str_eq, ltb, if◌then◌else◌,
}
use ai_token_mall.Prelude.Int.{ℤ, pos, pos_part, ltb_ℤ, leb_ℤ}

abbrev pub default_period_days : ℕ
default_period_days = 30

abbrev pub nanoseconds_per_day : ℕ
nanoseconds_per_day = 86400000000000

unfoldable pub period_days : ℤ → String → ℤ
period_days days billing_period =
    if ltb_ℤ (pos 0) days
    then days
    else if str_eq billing_period "year"
    then pos 365
    else if str_eq billing_period "once"
    then pos 30
    else pos default_period_days

-- `d <= 0` falls back to the default.
unfoldable pub period_length : ℤ → ℕ
period_length days =
    (if leb_ℤ days (pos 0) then default_period_days else pos_part days) * nanoseconds_per_day

unfoldable pub add_period : ℕ → ℤ → ℕ
unfolding period_length
add_period from days = from + period_length days

-- The counted loop `for i := 0; i < count; i++`.
add_period_times : ℕ → ℕ → ℤ → ℕ
add_period_times zero t days = t
add_period_times (suc n) t days = add_period_times n (add_period t days) days

unfoldable pub add_periods : ℕ → ℤ → ℤ → ℕ
unfolding add_period_times
add_periods from days count = add_period_times (pos_part count) from days

abbrev pub max_qty : ℕ
max_qty = 99

-- `for cursor.Before(expiresAt) && qty < maxQty`, on fuel.
unfoldable pub upgrade_cycles_from : ℕ → ℕ → ℕ → ℤ → ℕ → ℕ
upgrade_cycles_from zero cursor expires_at days qty = qty
upgrade_cycles_from (suc fuel) cursor expires_at days qty =
    let rest = upgrade_cycles_from fuel (add_period cursor days) expires_at days (qty + 1) in
    if ltb cursor expires_at && ltb qty max_qty then rest else qty

unfoldable pub count_upgrade_billing_cycles : ℕ → ℕ → ℤ → ℕ
count_upgrade_billing_cycles period_end expires_at days =
    if not (ltb period_end expires_at)
    then 1
    else upgrade_cycles_from max_qty period_end expires_at days 1
