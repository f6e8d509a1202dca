-- ===== src/Order/Renew.antt =====
-- order_fulfill_service.go: a renewal extends a subscription.
pub mod Laws
use ai_token_mall.Prelude.{ℕ, not, none, [], ◌∷◌, ◌++◌, ◌==◌, ltb, String, if◌then◌else◌}
use ai_token_mall.Billing.{add_periods}
use ai_token_mall.Entity.{Products, UserOrders, UserSubscriptions, KeyStatus, is_active}
use ai_token_mall.Store.Action.{Error, Action, pure, ◌>>=◌, ◌>>◌, map_error, raise_if}
use ai_token_mall.Store.Subscriptions.{find_one, update_subscription, reload}
use ai_token_mall.Store.ApiKeys.{is_live_key_of, update_api_keys}
use ai_token_mall.Order.Payment.{
  insert_subscription_order_notification, deduct_balance_and_record_flow,
}
use ai_token_mall.Order.Purchase.{paid_periods, days_of}

unfoldable pub find_subscription_for_renewal : UserOrders → Action UserSubscriptions
find_subscription_for_renewal order = do
  raise_if (order.user_subscription_id == 0) Error.renew_missing_id
  find_one order.user_subscription_id order.user_id

-- `anchor := now; if sub.ExpiresAt.After(now) { anchor = sub.ExpiresAt }`
abbrev pub renewal_anchor : ℕ → ℕ → ℕ
renewal_anchor expires_at now = if ltb now expires_at then expires_at else now

unfoldable pub renewed_expires : UserOrders → Products → ℕ → ℕ → ℕ
renewed_expires order product expires_at now =
    add_periods (renewal_anchor expires_at now) (days_of product) (paid_periods order)

-- The update is computed from the row that was read.
abbrev pub renew_row :
    UserOrders → Products → UserSubscriptions → ℕ → UserSubscriptions → UserSubscriptions
renew_row order product sub now s = record s {
  orders = sub.orders ++ order.id ∷ [];
  expires_at = renewed_expires order product sub.expires_at now;
}

unfoldable pub renew_subscription_for_order : UserOrders → Products → ℕ → Action UserSubscriptions
renew_subscription_for_order order product now = do
  sub ← find_subscription_for_renewal order
  raise_if (not (sub.product_id == order.product_id)) Error.renew_product_mismatch
  raise_if (not (is_active sub.status)) Error.renew_not_active
  update_subscription sub.id (renew_row order product sub now)
  reload sub.id

-- `reactivateSubscriptionAPIKeys`
unfoldable pub reactivate_subscription_api_keys : ℕ → Action (Unit {0})
reactivate_subscription_api_keys subscription_id =
    update_api_keys (is_live_key_of subscription_id) (λ k. record k { status = KeyStatus.active })

-- `errors.Is(err, gorm.ErrRecordNotFound)`
abbrev pub renew_error : Error → Error
renew_error Error.record_not_found = Error.renew_not_found
renew_error e = e

unfoldable pub fulfill_renewal_order_paid : UserOrders → Products → String → ℕ → Action ℕ
fulfill_renewal_order_paid order product pay_channel now = do
  sub ← map_error renew_error (renew_subscription_for_order order product now)
  reactivate_subscription_api_keys sub.id
  insert_subscription_order_notification order sub.id none "subscription_renewed"
  deduct_balance_and_record_flow order pay_channel
