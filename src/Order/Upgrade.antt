-- ===== src/Order/Upgrade.antt =====
-- order_fulfill_service.go: an upgrade moves a subscription to another product.
use ai_token_mall.Prelude.{ℕ, Bool, none, [], ◌∷◌, ◌++◌, ◌==◌, String, if◌then◌else◌}
use ai_token_mall.Prelude.Int.{ℤ, pos}
use ai_token_mall.Billing.{add_periods}
use ai_token_mall.Entity.{
  Products, UserOrders, UserSubscriptions, UserApiKeys, SubscriptionStatus, is_active,
}
use ai_token_mall.Store.Action.{Error, Action, pure, ◌>>=◌, ◌>>◌, map_error, raise_if}
use ai_token_mall.Store.Subscriptions.{find_one, update_subscription, reload}
use ai_token_mall.Store.ApiKeys.{is_live_key_of, update_api_keys}
use ai_token_mall.Order.Payment.{
  insert_subscription_order_notification, deduct_balance_and_record_flow,
}
use ai_token_mall.Order.Purchase.{paid_periods, days_of}
use ai_token_mall.Order.Renew.{reactivate_subscription_api_keys}

-- The columns that every upgrade sets.
abbrev pub upgrade_columns :
    UserOrders → Products → UserSubscriptions → UserSubscriptions → UserSubscriptions
upgrade_columns order product sub s = record s {
  product_id = product.id;
  orders = sub.orders ++ order.id ∷ [];
  products_category_name = product.products_category_name;
  sku_product_name = product.sku_product_name;
  base_limit_tokens = product.limit_tokens;
  limit_tokens = product.limit_tokens;
}

-- The columns that are set when the subscription was not active.
abbrev pub restart_columns : ℕ → ℕ → UserSubscriptions → UserSubscriptions
restart_columns period_end now s = record s {
  used_tokens = pos 0;
  started_at = now;
  expires_at = period_end;
  period_start = now;
  period_end = period_end;
  status = SubscriptionStatus.active;
}

abbrev pub upgrade_row :
    UserOrders → Products → UserSubscriptions → ℕ → UserSubscriptions → UserSubscriptions
upgrade_row order product sub now s =
    if is_active sub.status
    then upgrade_columns order product sub s
    else restart_columns (add_periods now (days_of product) (paid_periods order)) now
        (upgrade_columns order product sub s)

-- The answer says too whether the subscription was active.
unfoldable pub upgrade_subscription_for_order :
    UserOrders → Products → ℕ → Action (UserSubscriptions × Bool)
upgrade_subscription_for_order order product now = do
  raise_if (order.user_subscription_id == 0) Error.upgrade_missing_id
  sub ← find_one order.user_subscription_id order.user_id
  update_subscription sub.id (upgrade_row order product sub now)
  reloaded ← reload sub.id
  pure (reloaded, is_active sub.status)

abbrev pub sync_key : Products → ℤ → Bool → UserApiKeys → UserApiKeys
sync_key product limit_tokens was_active k = record k {
  products_category_name = product.products_category_name;
  limit_tokens = limit_tokens;
  used_tokens = if was_active then k.used_tokens else pos 0;
}

-- `syncAPIKeysAfterUpgrade`: every live key, main or sub, gets the limit of the subscription.
unfoldable pub sync_api_keys_after_upgrade : ℕ → Products → ℤ → Bool → Action (Unit {0})
sync_api_keys_after_upgrade subscription_id product limit_tokens was_active =
    update_api_keys (is_live_key_of subscription_id) (sync_key product limit_tokens was_active)

abbrev pub upgrade_error : Error → Error
upgrade_error Error.record_not_found = Error.upgrade_not_found
upgrade_error e = e

unfoldable pub fulfill_upgrade_order_paid : UserOrders → Products → String → ℕ → Action ℕ
fulfill_upgrade_order_paid order product pay_channel now = do
  (sub, was_active) ← map_error upgrade_error (upgrade_subscription_for_order order product now)
  reactivate_subscription_api_keys sub.id
  sync_api_keys_after_upgrade sub.id product sub.limit_tokens was_active
  insert_subscription_order_notification order sub.id none "subscription_upgraded"
  deduct_balance_and_record_flow order pay_channel
