-- ===== src/Money/Rounding.antt =====
-- Bounds on the amounts of common/money/money.go.
use ai_token_mall.Prelude.{ℕ, zero, suc, ◌+◌, ◌*◌, ◌≤◌, ◌<◌, ◌≡◌, arith}
use ai_token_mall.Prelude.Int.{ℤ, pos, negsuc, ◌*ℤ◌, ◌≤ℤ◌, pos_part, neg_part}
use ai_token_mall.Money.{round_div, add_invoice_surcharge}

pub round_div_nonneg : (x : ℤ) (d : ℕ) → pos 0 ≤ℤ x → pos 0 ≤ℤ round_div x d
unfolding round_div
round_div_nonneg (pos n) d h = omega arith
round_div_nonneg (negsuc n) d h = absurd (omega arith)

pub round_div_share : (a r : ℕ) → r ≤ 10000 → round_div (pos (a * r)) 10000 ≤ℤ pos a
unfolding round_div
round_div_share a r h = let p : a * r ≤ a * 10000 = grind arith in omega arith

pub *ℤ-pos : (a b : ℕ) → pos a *ℤ pos b ≡ pos (a * b)
unfolding ◌*ℤ◌
*ℤ-pos a b = ground arith

-- The amount with the surcharge is the nearest cent to `(100 + percent) / 100` of the amount.
pub surcharge_nearest :
    (a p : ℕ)
    → (200 * pos_part (add_invoice_surcharge (pos a) (pos p)) ≤ 2 * (a * 100 + a * p) + 100)
      × (2 * (a * 100 + a * p) < 200 * pos_part (add_invoice_surcharge (pos a) (pos p)) + 100)
      × (neg_part (add_invoice_surcharge (pos a) (pos p)) ≡ 0)
unfolding add_invoice_surcharge
surcharge_nearest a zero = omega arith
surcharge_nearest a (suc p) = ground arith
