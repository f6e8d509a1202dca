-- ===== src/Rebate/Amount.antt =====
-- `parseCommissionAmountYuan` of commission_withdraw.go. `decimal.NewFromString` is a library's: its
-- result is a parameter, a coefficient and a number of decimals.
use ai_token_mall.Prelude.{
  ℕ, ◌-◌, ◌^◌, ◌≡◌, Option, none, some, List, [], leb, if◌then◌else◌, arith,
}
use ai_token_mall.Prelude.Int.{ℤ, pos, ◌*ℤ◌, ◌≤ℤ◌, leb_ℤ, ltb_ℤ}
use ai_token_mall.Money.{round_div}
use ai_token_mall.Text.{trim_space, codes_eq}

abbrev pub Decimal : Type 0
Decimal = ℤ × ℕ

-- `Round(2)`, in cents.
unfoldable pub round_cents : Decimal → ℤ
unfolding ◌*ℤ◌ round_div
round_cents (n, decimals) =
    if leb decimals 2 then n *ℤ pos (10 ^ (2 - decimals)) else round_div n (10 ^ (decimals - 2))

-- 1_000_000 yuan
abbrev pub max_amount : ℤ
max_amount = pos 100000000

check_amount : ℤ → Option ℤ
check_amount amount =
    if leb_ℤ amount (pos 0) then none else if ltb_ℤ max_amount amount then none else some amount

-- `none` is `ErrParamsError`.
unfoldable pub parse_commission_amount_yuan : (List ℕ → Option Decimal) → List ℕ → Option ℤ
unfolding check_amount
parse_commission_amount_yuan new_from_string amount_str =
    let text = trim_space amount_str in
    if codes_eq text []
    then none
    else elim (new_from_string text) [ none ↦ none | some d ↦ check_amount (round_cents d) ]

-- An accepted amount is at least one cent and at most a million yuan, whatever the decimal parser
-- makes of the text.
pub parse_commission_amount_yuan_bounds :
    (new_from_string : List ℕ → Option Decimal) (amount_str : List ℕ) (amount : ℤ)
    → parse_commission_amount_yuan new_from_string amount_str ≡ some amount
    → (pos 1 ≤ℤ amount) × (amount ≤ℤ max_amount)
unfolding parse_commission_amount_yuan
parse_commission_amount_yuan_bounds parse s a h = ground arith
