-- ===== src/Order/Create.antt =====
-- order_service.go: a new order, its price and its subscription.
pub mod Pricing
pub mod Placed
use ai_token_mall.Prelude.{
  ℕ, ◌+◌, ◌*◌, ◌/◌, ◌%◌, Bool, ◌==◌, none, some, List, ◌++◌, String, if◌then◌else◌,
}
use ai_token_mall.Prelude.Int.{ℤ, pos, ◌-ℤ◌, ltb_ℤ}
use ai_token_mall.Text.{codes, decimal}
use ai_token_mall.Money.{mul_qty, add_invoice_surcharge}
use ai_token_mall.Entity.{
  OrderType, OrderStatus, OrderNo, OrderRawCoupon, Products, UserOrders, is_renewal, is_upgrade,
  is_quota_addon,
}
use ai_token_mall.Store.Action.{Error, Action, pure, ◌>>=◌, ◌>>◌, map_error, require}
use ai_token_mall.Store.Orders.{create_order, create_order_replacing_pending, find_on_sale_by_id}
use ai_token_mall.Coupon.{resolve_for_checkout}
use ai_token_mall.Rebate.CommissionTransfer.{to_db_error}
use ai_token_mall.Order.Channel.{normalize_order_type, normalize_pay_channel}
use ai_token_mall.Order.Purchase.{days_of}
use ai_token_mall.Order.Subscription.{resolve_order_user_subscription_id, upgrade_order_quantity}

-- request.CreateOrderReq
pub record CreateOrderReq : Type 0 where
  pub product_id : ℕ
  pub order_type : List ℕ
  pub user_subscription_id : ℕ
  pub quantity : ℤ
  pub channel : List ℕ
  pub enterprise_invoice : Bool
  pub user_coupon_id : ℕ

-- From the subtotal and the discount to the amount to pay.
unfoldable pub order_total : ℤ → ℤ → Bool → ℤ
unfolding ◌-ℤ◌ add_invoice_surcharge
order_total subtotal discount enterprise_invoice =
    let after_coupon =
      if ltb_ℤ (subtotal -ℤ discount) (pos 0) then pos 0 else subtotal -ℤ discount in
    if enterprise_invoice then add_invoice_surcharge after_coupon (pos 6) else after_coupon

-- `now` is in nanoseconds; `fmt.Sprintf("PAY%d%d", now.UnixNano()/1e6, userID)`
abbrev pub new_out_trade_no : ℕ → ℕ → List ℕ
new_out_trade_no user_id now = codes "PAY" ++ decimal (now / 1000000) ++ decimal user_id

abbrev pub new_order :
    ℕ → CreateOrderReq → Products → OrderType → String → ℕ → ℤ → ℤ → ℕ → UserOrders
new_order user_id req product order_type channel user_sub_id qty total now = record {
  id = 0;
  order_no = OrderNo.ap (now / 1000000000) (user_id % 10000);
  user_id = user_id;
  product_id = product.id;
  order_type = order_type;
  user_subscription_id = user_sub_id;
  quantity = qty;
  unit_price = product.price;
  status = OrderStatus.pending_payment;
  total_amount = total;
  enterprise_invoice = if req.enterprise_invoice then 1 else 0;
  pay_channel = channel;
  out_trade_no = new_out_trade_no user_id now;
  third_trade_no = none;
  raw_request_json = some (record { user_coupon_id = req.user_coupon_id });
  paid_at = none;
  expire_at = now + 30 * 60 * 1000000000;
  closed_at = none;
}

-- `switch orderType`: all but a purchase replace the pending order of the same kind.
unfoldable pub save_order : OrderType → ℕ → UserOrders → Action ℕ
save_order OrderType.renewal now order = create_order_replacing_pending is_renewal now order
save_order OrderType.upgrade now order = create_order_replacing_pending is_upgrade now order
save_order OrderType.quota_addon now order = create_order_replacing_pending is_quota_addon now order
save_order _ now order = create_order order

unfoldable pub order_quantity : ℕ → CreateOrderReq → Products → OrderType → ℕ → Action ℤ
order_quantity user_id req product order_type user_sub_id =
    if is_upgrade order_type
    then upgrade_order_quantity user_id user_sub_id (days_of product)
    else pure req.quantity

-- What follows the product. The answer is the saved order.
unfoldable pub place_order :
    ℕ → CreateOrderReq → String → OrderType → Products → ℕ → Action UserOrders
place_order user_id req channel order_type product now = do
  user_sub_id ←
      resolve_order_user_subscription_id user_id order_type product req.user_subscription_id
  qty ← order_quantity user_id req product order_type user_sub_id
  let subtotal = mul_qty product.price qty
  discount ← resolve_for_checkout user_id req.user_coupon_id subtotal now
  let total = order_total subtotal discount req.enterprise_invoice
  let order = new_order user_id req product order_type channel user_sub_id qty total now
  id ← map_error to_db_error (save_order order_type now order)
  pure (record order { id = id })

unfoldable pub create_mock_order : ℕ → CreateOrderReq → ℕ → Action UserOrders
create_mock_order user_id req now = do
  channel ← require (normalize_pay_channel req.channel) Error.params_error
  order_type ← require (normalize_order_type req.order_type) Error.params_error
  found ← map_error to_db_error (find_on_sale_by_id req.product_id)
  product ← require found Error.product_not_found
  place_order user_id req channel order_type product now
