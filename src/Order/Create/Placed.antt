-- ===== src/Order/Create/Placed.antt =====
-- The order that a request creates.
use ai_token_mall.Prelude.{ℕ, ◌≡◌, ◌≢◌, ◌⊎◌, true, none, some, List, [], ◌∷◌, ◌++◌}
use ai_token_mall.Prelude.Int.{ℤ, pos, ◌≤ℤ◌}
use ai_token_mall.Money.{mul_qty}
use ai_token_mall.Entity.{OrderStatus, Products, UserOrders, is_upgrade}
use ai_token_mall.Store.Action.{Tables}
use ai_token_mall.Store.Ensures.{Ensures}
use ai_token_mall.Order.Channel.{normalize_order_type, normalize_pay_channel}
use ai_token_mall.Order.Create.{CreateOrderReq, order_total}

-- A coupon that is used takes off at least a cent, and the coupon 0 takes off nothing.
abbrev pub IsDiscount : CreateOrderReq → ℤ → Type 0
IsDiscount req off =
    ((req.user_coupon_id ≡ 0) × (off ≡ pos 0)) ⊎ ((req.user_coupon_id ≢ 0) × (pos 1 ≤ℤ off))

-- The order is the last one of the table.
abbrev pub Last : UserOrders → Tables → Type 0
Last o t = (os : List UserOrders) × (t.orders ≡ os ++ o ∷ [])

-- What a request that returns has created.
pub record Placed (user_id : ℕ) (req : CreateOrderReq) (o : UserOrders) (t : Tables) : Type 0 where
  pub product : Products
  pub discount : ℤ
  pub sold : (product.id ≡ req.product_id) × (product.on_sale ≡ true)
  pub item : (o.product_id ≡ product.id) × (o.unit_price ≡ product.price)
  pub kind : normalize_order_type req.order_type ≡ some o.order_type
  pub channel : normalize_pay_channel req.channel ≡ some o.pay_channel
  pub owner : o.user_id ≡ user_id
  pub unpaid : (o.status ≡ OrderStatus.pending_payment) × (o.paid_at ≡ none)
  pub counted : (is_upgrade o.order_type ≡ true) ⊎ (o.quantity ≡ req.quantity)
  pub discounted : IsDiscount req discount
  pub total :
      o.total_amount ≡ order_total (mul_qty o.unit_price o.quantity) discount req.enterprise_invoice
  pub not_negative : pos 0 ≤ℤ o.total_amount
  pub saved : Last o t
