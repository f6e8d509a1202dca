-- ===== src/Coupon/Discount.antt =====
-- Bounds of the discount.
use ai_token_mall.Prelude.{some, arith, Bool-cases, inl, inr}
use ai_token_mall.Prelude.Int.{ℤ, pos, ◌≤ℤ◌, ltb_ℤ, leb_ℤ}
use ai_token_mall.Entity.{UserCoupons}
use ai_token_mall.Coupon.{discount_amount, raw_discount, clamp_discount}

clamp_discount_bounds :
    (off subtotal : ℤ)
    → pos 0 ≤ℤ subtotal
    → (pos 0 ≤ℤ clamp_discount off subtotal) × (clamp_discount off subtotal ≤ℤ subtotal)
clamp_discount_bounds off subtotal h = ground arith

-- Whatever the coupon's columns hold, the discount on an amount that is not negative lies between
-- zero and the amount.
pub discount_amount_bounds :
    (coupon : UserCoupons) (subtotal : ℤ)
    → pos 0 ≤ℤ subtotal
    → (pos 0 ≤ℤ discount_amount (some coupon) subtotal)
      × (discount_amount (some coupon) subtotal ≤ℤ subtotal)
unfolding discount_amount
discount_amount_bounds c s h =
    let b = clamp_discount_bounds (raw_discount c.discount_type c.discount_value s) s h in
    elim (Bool-cases (leb_ℤ s (pos 0))) [
      | inl e ↦ rw e (omega arith, h)
      | inr e ↦ rw e (elim (Bool-cases (ltb_ℤ s c.min_order_amount)) [
        | inl below ↦ rw below (omega arith, h)
        | inr above ↦ rw above b
      ])
    ]
