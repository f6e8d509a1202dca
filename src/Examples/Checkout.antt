-- ===== src/Examples/Checkout.antt =====
-- The checkout of the shop: coupons, totals and new orders.
use ai_token_mall.Prelude.{
  ℕ, ◌+◌, ◌*◌, ◌≤◌, ◌<◌, ◌≡◌, ◌⊎◌, ◌&&◌, ltb, update_where, refl, true, false, Option, some, none,
  arith, [], ◌∷◌, List, count_where,
}
use ai_token_mall.Prelude.Keys.{Unique}
use ai_token_mall.Prelude.Int.{pos, ◌-ℤ◌, ◌≤ℤ◌}
use ai_token_mall.Text.{codes}
use ai_token_mall.Entity.{CouponStatus, OrderRawCoupon, is_renewal, is_available}
use ai_token_mall.Store.Ensures.{Ensures}
use ai_token_mall.Store.Orders.{is_pending_for, create_order_replacing_pending}
use ai_token_mall.Store.Coupons.{coupon_for_user}
use ai_token_mall.Coupon.{discount_amount, mark_used_from_order_raw_request, run_coupon_expire}
use ai_token_mall.Coupon.Discount.{discount_amount_bounds}
use ai_token_mall.Coupon.Laws.{coupon_used_once, coupon_expire_leaves_none}
use ai_token_mall.Order.Create.{CreateOrderReq, order_total}
use ai_token_mall.Order.Create.Pricing.{IsSurcharged, order_total_bounds, replacing_leaves_one}
use ai_token_mall.Order.Create.Placed.{Placed}
use ai_token_mall.Examples.{shop, coupon, renewal}

Unique-coupons : Unique (λ r. r.id) shop.coupons
unfolding count_where
Unique-coupons k = ground arith

abbrev raw : Option OrderRawCoupon
raw = some (record { user_coupon_id = 4 })

coupon_used_once_example :
    Ensures
      (mark_used_from_order_raw_request 2 11 raw 60)
      (λ _ t'.
        (coupon_for_user 2 4 t'.coupons
          ≡ some
              (record coupon { status = CouponStatus.used; used_at = some 60; order_id = some 11 }))
        × ((order_id' at' : ℕ)
            → Ensures
                (mark_used_from_order_raw_request 2 order_id' raw at')
                (λ _ t''. t'' ≡ t')
                t'))
      shop
unfolding coupon_for_user ai_token_mall.Prelude.find_first
coupon_used_once_example = coupon_used_once 2 11 raw 60 shop coupon Unique-coupons refl refl refl

coupon_expire_leaves_none_example :
    Ensures
      (run_coupon_expire 9000)
      (λ n t'.
        (n ≡ count_where (λ c. is_available c.status && ltb c.valid_until 9000) shop.coupons)
        × (t' ≡ record shop {
          coupons =
              update_where
                (λ c. is_available c.status && ltb c.valid_until 9000)
                (λ c. record c { status = CouponStatus.expired })
                shop.coupons;
        })
        × (count_where (λ c. is_available c.status && ltb c.valid_until 9000) t'.coupons ≡ 0))
      shop
coupon_expire_leaves_none_example = coupon_expire_leaves_none 9000 shop

discount_amount_bounds_example :
    (pos 0 ≤ℤ discount_amount (some coupon) (pos 9900))
    × (discount_amount (some coupon) (pos 9900) ≤ℤ pos 9900)
discount_amount_bounds_example = discount_amount_bounds coupon (pos 9900) (omega arith)

order_total_bounds_example :
    (pos 0 ≤ℤ order_total (pos 990) (pos 9900) false)
    × (pos 990 -ℤ pos 9900 ≤ℤ order_total (pos 990) (pos 9900) false)
    × ((order_total (pos 990) (pos 9900) false ≡ pos 0)
        ⊎ (order_total (pos 990) (pos 9900) false ≡ pos 990 -ℤ pos 9900))
    × IsSurcharged (order_total (pos 990) (pos 9900) false) (order_total (pos 990) (pos 9900) true)
order_total_bounds_example = order_total_bounds (pos 990) (pos 9900)

replacing_leaves_one_example :
    Ensures
      (create_order_replacing_pending is_renewal 60 renewal)
      (λ _ t'. count_where (is_pending_for is_renewal 2 7) t'.orders ≡ 1)
      shop
replacing_leaves_one_example = replacing_leaves_one is_renewal 60 renewal shop refl

abbrev request : CreateOrderReq
request = record {
  product_id = 5;
  order_type = codes "purchase";
  user_subscription_id = 0;
  quantity = pos 2;
  channel = codes "wxpay";
  enterprise_invoice = true;
  user_coupon_id = 4;
}
