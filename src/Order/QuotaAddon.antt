-- ===== src/Order/QuotaAddon.antt =====
-- order_fulfill_service.go: a quota addon adds tokens to a subscription and to its keys.
pub mod Laws
use ai_token_mall.Prelude.{ℕ, not, none, ◌==◌, String, if◌then◌else◌}
use ai_token_mall.Prelude.Int.{ℤ, ◌+ℤ◌}
use ai_token_mall.Entity.{Products, UserOrders, UserSubscriptions, UserApiKeys, is_active}
use ai_token_mall.Store.Action.{Error, Action, pure, ◌>>=◌, ◌>>◌, map_error, raise_if}
use ai_token_mall.Store.Subscriptions.{find_one, update_subscription, reload}
use ai_token_mall.Store.ApiKeys.{is_live_key_of, update_api_keys}
use ai_token_mall.Order.Payment.{
  insert_subscription_order_notification, deduct_balance_and_record_flow,
}

unfoldable pub load_subscription_for_quota_addon : UserOrders → Action UserSubscriptions
load_subscription_for_quota_addon order = do
  raise_if (order.user_subscription_id == 0) Error.quota_addon_missing_id
  find_one order.user_subscription_id order.user_id

abbrev pub add_quota : ℤ → UserSubscriptions → UserSubscriptions
add_quota addon s = record s { limit_tokens = s.limit_tokens +ℤ addon }

abbrev pub add_key_quota : ℤ → UserApiKeys → UserApiKeys
add_key_quota addon k = record k { limit_tokens = k.limit_tokens +ℤ addon }

abbrev pub quota_addon_error : Error → Error
quota_addon_error Error.record_not_found = Error.quota_addon_not_found
quota_addon_error e = e

unfoldable pub fulfill_quota_addon_order_paid : UserOrders → Products → String → Action ℕ
fulfill_quota_addon_order_paid order product pay_channel = do
  sub ← map_error quota_addon_error (load_subscription_for_quota_addon order)
  raise_if (not (is_active sub.status)) Error.quota_addon_not_active
  update_subscription sub.id (add_quota product.limit_tokens)
  reloaded ← reload sub.id
  update_api_keys (is_live_key_of sub.id) (add_key_quota product.limit_tokens)
  insert_subscription_order_notification order reloaded.id none "subscription_quota_added"
  deduct_balance_and_record_flow order pay_channel
