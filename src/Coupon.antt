-- ===== src/Coupon.antt =====
-- application/core-service/coupon/checkout.go and application/bot/scripts/coupon_expire: the discount
-- of a coupon at checkout, its use by a paid order, and its expiry.
pub mod Discount
pub mod Grant
pub mod Once
pub mod Laws
use ai_token_mall.Prelude.{
  ℕ, Bool, true, false, not, ◌&&◌, Option, none, some, ◌==◌, ltb, if◌then◌else◌,
}
use ai_token_mall.Prelude.Int.{ℤ, pos, ◌*ℤ◌, ltb_ℤ, leb_ℤ}
use ai_token_mall.Entity.{UserCoupons, OrderRawCoupon, DiscountType, is_available}
use ai_token_mall.Money.{round_div}
use ai_token_mall.Store.Action.{Error, Action, pure, raise, ◌>>=◌, ◌>>◌, require, raise_if}
use ai_token_mall.Store.Coupons.{find_coupon_for_user, mark_coupon_used, expire_available_before}

-- A percentage is in hundredths of a per cent; both branches are rounded to cents.
abbrev raw_discount : DiscountType → ℤ → ℤ → ℤ
raw_discount DiscountType.percent value subtotal = round_div (subtotal *ℤ value) 10000
raw_discount _ value subtotal = value

abbrev clamp_discount : ℤ → ℤ → ℤ
clamp_discount off subtotal =
    if ltb_ℤ subtotal off then subtotal else if ltb_ℤ off (pos 0) then pos 0 else off

unfoldable pub discount_amount : Option UserCoupons → ℤ → ℤ
unfolding ◌*ℤ◌ round_div
discount_amount none subtotal = pos 0
discount_amount (some coupon) subtotal =
    if leb_ℤ subtotal (pos 0)
    then pos 0
    else if ltb_ℤ subtotal coupon.min_order_amount
    then pos 0
    else clamp_discount (raw_discount coupon.discount_type coupon.discount_value subtotal) subtotal

unfoldable pub is_coupon_usable : UserCoupons → ℕ → Bool
is_coupon_usable row now =
    if not (is_available row.status)
    then false
    else if ltb now row.valid_from
    then false
    else if ltb row.valid_until now
    then false
    else true

-- The row is not used by the caller, so the answer is the discount.
unfoldable pub resolve_for_checkout : ℕ → ℕ → ℤ → ℕ → Action ℤ
resolve_for_checkout user_id coupon_id subtotal now = if coupon_id == 0 then pure (pos 0) else do
  found ← find_coupon_for_user user_id coupon_id
  row ← require found Error.coupon_unavailable
  raise_if (not (is_coupon_usable row now)) Error.coupon_unavailable
  let off = discount_amount (some row) subtotal
  raise_if (leb_ℤ off (pos 0)) Error.coupon_unavailable
  pure off

-- `row == nil || row.Status != "available"`
abbrev pub not_available : Option UserCoupons → Bool
not_available none = true
not_available (some row) = not (is_available row.status)

-- A request that is absent or that is no JSON object names the coupon 0.
abbrev pub coupon_id_of : Option OrderRawCoupon → ℕ
coupon_id_of none = 0
coupon_id_of (some raw) = raw.user_coupon_id

unfoldable pub mark_used_from_order_raw_request :
    ℕ → ℕ → Option OrderRawCoupon → ℕ → Action (Unit {0})
mark_used_from_order_raw_request user_id order_id raw used_at =
    if coupon_id_of raw == 0 then pure tt else do
      row ← find_coupon_for_user user_id (coupon_id_of raw)
      if not_available row then pure tt else mark_coupon_used (coupon_id_of raw) order_id used_at

-- `CouponExpireJob.Run`
unfoldable pub run_coupon_expire : ℕ → Action ℕ
run_coupon_expire now = expire_available_before now
