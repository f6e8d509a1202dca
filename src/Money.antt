-- ===== src/Money.antt =====
-- common/money/money.go. An amount in yuan with two decimals is its number of cents, an integer; a
-- percentage with two decimals is its number of hundredths. `Round(2)` of shopspring/decimal
-- rounds half away from zero; on a whole number of cents it changes nothing. A division by 100
-- in that library is exact at the scales that occur here.
pub mod Rounding
use ai_token_mall.Prelude.{ℕ, ◌+◌, ◌/◌, if◌then◌else◌}
use ai_token_mall.Prelude.Int.{ℤ, pos, negsuc, ◌+ℤ◌, ◌*ℤ◌, neg_ℤ, leb_ℤ}

-- `x / d`, rounded half away from zero to a whole number.
unfoldable pub round_div : ℤ → ℕ → ℤ
unfolding neg_ℤ
round_div (pos n) d = pos ((n + d / 2) / d)
round_div (negsuc n) d = neg_ℤ (pos ((n + 1 + d / 2) / d))

unfoldable pub mul_qty : ℤ → ℤ → ℤ
unfolding ◌*ℤ◌
mul_qty unit qty = if leb_ℤ qty (pos 0) then pos 0 else unit *ℤ qty

unfoldable pub add_invoice_surcharge : ℤ → ℤ → ℤ
unfolding ◌*ℤ◌ ◌+ℤ◌ round_div
add_invoice_surcharge subtotal percent =
    if leb_ℤ percent (pos 0)
    then subtotal
    else round_div (subtotal *ℤ pos 100 +ℤ subtotal *ℤ percent) 100
