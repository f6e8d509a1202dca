-- ===== src/Billing/Cycles.antt =====
-- The closed form of the period loops.
use ai_token_mall.Prelude.{
  ℕ, zero, suc, ◌+◌, ◌*◌, ◌≤◌, ◌<◌, ◌≡◌, ◌⊎◌, inl, inr, arith, String, ◌&&◌, Bool-cases, ltb,
}
use ai_token_mall.Prelude.Int.{ℤ, pos, ◌<ℤ◌, pos_part}
use ai_token_mall.Billing.{
  period_days, period_length, add_period, add_period_times, add_periods, max_qty,
  upgrade_cycles_from, count_upgrade_billing_cycles, nanoseconds_per_day,
}

-- A billing period is never empty, whatever the product's columns hold.
pub period_days_pos :
    (days : ℤ) (billing_period : String) → pos 0 <ℤ period_days days billing_period
unfolding period_days
period_days_pos days b = ground arith

pub period_length_pos : (days : ℤ) → nanoseconds_per_day ≤ period_length days
unfolding period_length
period_length_pos days = ground arith

add_period_times_closed :
    (n t : ℕ) (days : ℤ) → add_period_times n t days ≡ t + n * period_length days
unfolding add_period_times add_period
add_period_times_closed zero t days = omega arith
add_period_times_closed (suc n) t days =
    grind (arith, add_period_times_closed n (t + period_length days) days)

-- Advancing by `count` periods adds that many whole periods, and none where `count` is not positive.
pub add_periods_closed :
    (t : ℕ) (days count : ℤ) → add_periods t days count ≡ t + pos_part count * period_length days
unfolding add_periods
add_periods_closed t days count = add_period_times_closed (pos_part count) t days

-- What the loop reaches from `qty` in `n` rounds: every round began before `expires_at`, and the loop
-- ended at `expires_at` or at the cap.
abbrev pub Covers : ℕ → ℕ → ℕ → ℕ → ℕ → Type 0
Covers len cursor expires_at qty r =
    (n : ℕ) × (r ≡ qty + n)
    × (r ≤ max_qty)
    × ((expires_at ≤ cursor + n * len) ⊎ (r ≡ max_qty))
    × ((k : ℕ) → k < n → cursor + k * len < expires_at)

-- One more round in front.
Covers-step :
    (len cursor expires_at qty r : ℕ)
    → cursor < expires_at
    → Covers len (cursor + len) expires_at (qty + 1) r
    → Covers len cursor expires_at qty r
Covers-step len c e q r h (n, eq, cap, stop, below) =
    (suc n, omega arith, cap, grind arith, earlier)
  where
    earlier : (k : ℕ) → k < suc n → c + k * len < e
    earlier zero lt = omega arith
    earlier (suc k) lt = grind (arith, below k)

upgrade_cycles_from-Covers :
    (fuel cursor expires_at : ℕ) (days : ℤ) (qty : ℕ)
    → qty ≤ max_qty
    → max_qty ≤ fuel + qty
    → Covers
        (period_length days)
        cursor
        expires_at
        qty
        (upgrade_cycles_from fuel cursor expires_at days qty)
unfolding upgrade_cycles_from add_period
upgrade_cycles_from-Covers zero c e d q h f =
    (0, omega arith, h, inr (omega arith), λ k lt. absurd (omega arith))
upgrade_cycles_from-Covers (suc fuel) c e d q h f = elim (Bool-cases (ltb c e && ltb q max_qty)) [
  | inl go ↦ rw go (
      Covers-step (period_length d) c e q _ (ground arith) (
        upgrade_cycles_from-Covers fuel (c + period_length d) e d (q + 1) (ground arith)
          (omega arith)))
  | inr stop ↦ rw stop (0, omega arith, h, ground arith, λ k lt. absurd (omega arith))
]

-- The current period counts one. Beyond that the count is the least number of whole periods after
-- `period_end` that reaches `expires_at`, or the cap of 99 where that comes first.
pub count_upgrade_billing_cycles-Covers :
    (period_end expires_at : ℕ) (days : ℤ)
    → Covers
        (period_length days)
        period_end
        expires_at
        1
        (count_upgrade_billing_cycles period_end expires_at days)
unfolding count_upgrade_billing_cycles
count_upgrade_billing_cycles-Covers p e d = elim (Bool-cases (ltb p e)) [
  | inl go ↦ rw go (upgrade_cycles_from-Covers max_qty p e d 1 (omega arith) (omega arith))
  | inr stop ↦
      rw stop (0, omega arith, omega arith, inl (ground arith), λ k lt. absurd (omega arith))
]
