-- ===== src/Order/Purchase.antt =====
-- order_fulfill_service.go: a purchase opens a subscription with its main key.
use ai_token_mall.Prelude.{ℕ, Option, some, [], ◌∷◌, String, if◌then◌else◌}
use ai_token_mall.Prelude.Int.{ℤ, pos, ◌*ℤ◌, ltb_ℤ, wrap_64}
use ai_token_mall.Billing.{period_days, add_periods}
use ai_token_mall.Entity.{
  Products, UserOrders, UserSubscriptions, UserApiKeys, SubscriptionStatus, KeyType, KeyStatus,
}
use ai_token_mall.Store.Action.{Error, Action, pure, ◌>>=◌, ◌>>◌, require}
use ai_token_mall.Store.Subscriptions.{create_subscription}
use ai_token_mall.Store.ApiKeys.{create_api_key, main_api_key_enterprise_fields}
use ai_token_mall.Order.Payment.{
  insert_subscription_order_notification, deduct_balance_and_record_flow,
}

-- `qty := order.Quantity; if qty < 1 { qty = 1 }`
abbrev pub paid_periods : UserOrders → ℤ
paid_periods order = if ltb_ℤ order.quantity (pos 1) then pos 1 else order.quantity

abbrev pub days_of : Products → ℤ
days_of product = period_days product.period_days product.billing_period

abbrev pub token_grant : UserOrders → Products → ℤ
token_grant order product = wrap_64 (product.limit_tokens *ℤ order.quantity)

abbrev pub purchased_subscription : UserOrders → Products → ℕ → UserSubscriptions
purchased_subscription order product now =
    let period_end = add_periods now (days_of product) (paid_periods order) in
    record {
      id = 0;
      user_id = order.user_id;
      product_id = order.product_id;
      orders = order.id ∷ [];
      products_category_name = product.products_category_name;
      sku_product_name = product.sku_product_name;
      base_limit_tokens = token_grant order product;
      limit_tokens = token_grant order product;
      used_tokens = pos 0;
      started_at = now;
      expires_at = period_end;
      period_start = now;
      period_end = period_end;
      status = SubscriptionStatus.active;
    }

unfoldable pub create_subscription_for_purchase :
    UserOrders → Products → ℕ → Action UserSubscriptions
create_subscription_for_purchase order product now = do
  let row = purchased_subscription order product now
  id ← create_subscription row
  pure (record row { id = id })

abbrev pub main_key : UserOrders → UserSubscriptions → Products → String → ℕ × ℕ → UserApiKeys
main_key order sub product hash (owner_user_id, enterprise_inquiry_id) = record {
  id = 0;
  user_id = order.user_id;
  owner_user_id = owner_user_id;
  enterprise_inquiry_id = enterprise_inquiry_id;
  user_subscription_id = sub.id;
  key_type = KeyType.main;
  key_hash = hash;
  products_category_name = product.products_category_name;
  limit_tokens = sub.limit_tokens;
  used_tokens = pos 0;
  status = KeyStatus.active;
}

-- `generated` is the hash that `apikey.Generate` answers with, from the system's randomness, or its
-- failure.
unfoldable pub create_api_key_for_new_subscription :
    UserOrders → UserSubscriptions → Products → Option String → Action ℕ
create_api_key_for_new_subscription order sub product generated = do
  hash ← require generated Error.key_generation
  fields ← main_api_key_enterprise_fields order.user_id
  create_api_key (main_key order sub product hash fields)

unfoldable pub fulfill_purchase_order_paid :
    UserOrders → Products → String → Option String → ℕ → Action ℕ
fulfill_purchase_order_paid order product pay_channel generated now = do
  sub ← create_subscription_for_purchase order product now
  api_key_id ← create_api_key_for_new_subscription order sub product generated
  insert_subscription_order_notification order sub.id (some api_key_id) "subscription_activated"
  deduct_balance_and_record_flow order pay_channel
