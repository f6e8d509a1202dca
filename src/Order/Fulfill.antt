-- ===== src/Order/Fulfill.antt =====
-- order_fulfill_service.go: the notice of a payment, and the renewal that the balance pays.
pub mod Keeps
pub mod Books
pub mod Laws
pub mod Redelivery
use ai_token_mall.Prelude.{ℕ, not, Option, none, some, List, ◌==◌, String, if◌then◌else◌}
use ai_token_mall.Entity.{
  OrderType, OrderStatus, Products, UserOrders, PaymentCallbacks, UserInvoices, is_completed,
  is_pending_payment,
}
use ai_token_mall.Store.Action.{
  Error, Action, pure, raise, ◌>>=◌, ◌>>◌, catch, transaction, raise_if, require,
}
use ai_token_mall.Store.Orders.{find_order_by_out_trade_no, update_order_fields, find_product_by_id}
use ai_token_mall.Store.Callbacks.{find_by_idempotency, create_callback}
use ai_token_mall.Store.Ledger.{create_invoice}
use ai_token_mall.Coupon.{mark_used_from_order_raw_request}
use ai_token_mall.Rebate.OrderRebate.{accrue_invite_rebate_for_paid_order}
use ai_token_mall.Order.Payment.{
  insert_subscription_order_notification, deduct_balance_and_record_flow,
}
use ai_token_mall.Order.Purchase.{fulfill_purchase_order_paid}
use ai_token_mall.Order.Renew.{
  fulfill_renewal_order_paid, renew_subscription_for_order, reactivate_subscription_api_keys,
}
use ai_token_mall.Order.Upgrade.{fulfill_upgrade_order_paid}
use ai_token_mall.Order.QuotaAddon.{fulfill_quota_addon_order_paid}

-- repository.PaymentNotifyInput, less the payload, which is only stored.
pub record PaymentNotifyInput : Type 0 where
  pub channel : String
  pub out_trade_no : List ℕ
  pub third_trade_no : List ℕ
  pub idempotency_key : List ℕ

abbrev pub callback_row : PaymentNotifyInput → String → PaymentCallbacks
callback_row in_ result = record {
  channel = in_.channel;
  idempotency_key = in_.idempotency_key;
  process_result = result;
}

unfoldable pub insert_callback : PaymentNotifyInput → String → Action (Unit {0})
insert_callback in_ result = create_callback (callback_row in_ result) >> pure tt

unfoldable pub fulfill_paid_order_by_type :
    OrderType → UserOrders → Products → String → Option String → ℕ → Action ℕ
fulfill_paid_order_by_type OrderType.renewal order product channel generated now =
    fulfill_renewal_order_paid order product channel now
fulfill_paid_order_by_type OrderType.upgrade order product channel generated now =
    fulfill_upgrade_order_paid order product channel now
fulfill_paid_order_by_type OrderType.quota_addon order product channel generated now =
    fulfill_quota_addon_order_paid order product channel
fulfill_paid_order_by_type OrderType.purchase order product channel generated now =
    fulfill_purchase_order_paid order product channel generated now
fulfill_paid_order_by_type OrderType.empty order product channel generated now =
    fulfill_purchase_order_paid order product channel generated now
fulfill_paid_order_by_type (OrderType.other s) order product channel generated now =
    raise Error.unknown_order_type

abbrev pub complete : List ℕ → ℕ → UserOrders → UserOrders
complete third_trade_no now o = record o {
  status = OrderStatus.completed;
  paid_at = some now;
  third_trade_no = some third_trade_no;
}

abbrev pub invoice_of : UserOrders → UserInvoices
invoice_of order = record {
  order_id = order.id;
  user_id = order.user_id;
  amount = order.total_amount;
}

unfoldable pub create_order_invoice : UserOrders → Action (Unit {0})
create_order_invoice order =
    if order.enterprise_invoice == 0 then pure tt else create_invoice (invoice_of order) >> pure tt

-- What follows the update of the order.
unfoldable pub deliver :
    PaymentNotifyInput → UserOrders → Products → Option String → ℕ → Action (Unit {0})
deliver in_ order product generated now = do
  fulfill_paid_order_by_type order.order_type order product in_.channel generated now
  mark_used_from_order_raw_request order.user_id order.id order.raw_request_json now
  accrue_invite_rebate_for_paid_order order product
  create_order_invoice order
  insert_callback in_ "success"

-- What follows the guards on the order and the product.
unfoldable pub complete_and_fulfill :
    PaymentNotifyInput → UserOrders → Products → Option String → ℕ → Action (Unit {0})
complete_and_fulfill in_ order product generated now = do
  update_order_fields order.id (complete in_.third_trade_no now)
  deliver in_ (complete in_.third_trade_no now order) product generated now

unfoldable pub apply_to_order :
    PaymentNotifyInput → UserOrders → Option String → ℕ → Action (Unit {0})
apply_to_order in_ order generated now =
    if is_completed order.status then catch (insert_callback in_ "ignored") (λ e. pure tt) else do
      raise_if (not (is_pending_payment order.status)) Error.not_payable
      product ← require (← find_product_by_id order.product_id) Error.record_not_found
      complete_and_fulfill in_ order product generated now

abbrev pub apply_unless_seen :
    PaymentNotifyInput → Option String → ℕ → Option PaymentCallbacks → Action (Unit {0})
apply_unless_seen in_ generated now (some existed) = pure tt
apply_unless_seen in_ generated now none = do
  order ← require (← find_order_by_out_trade_no in_.out_trade_no) Error.record_not_found
  apply_to_order in_ order generated now

-- `ApplyPaymentNotifySuccess`
unfoldable pub apply_payment_notify_success :
    PaymentNotifyInput → Option String → ℕ → Action (Unit {0})
apply_payment_notify_success in_ generated now = transaction (do
  existed ← find_by_idempotency in_.channel in_.idempotency_key
  apply_unless_seen in_ generated now existed)

-- `FulfillBalanceRenewalInTx`
unfoldable pub fulfill_balance_renewal_in_tx : UserOrders → Products → ℕ → Action (Unit {0})
fulfill_balance_renewal_in_tx order product now = do
  deduct_balance_and_record_flow order "balance"
  sub ← renew_subscription_for_order order product now
  reactivate_subscription_api_keys sub.id
  insert_subscription_order_notification order sub.id none "subscription_renewed"
  accrue_invite_rebate_for_paid_order order product
