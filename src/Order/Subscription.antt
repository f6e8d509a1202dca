-- ===== src/Order/Subscription.antt =====
-- order_subscription.go: the subscription that a new order is for.
use ai_token_mall.Prelude.{ℕ, Bool, not, ◌&&◌, ◌==◌, Option, none, some, str_eq, if◌then◌else◌}
use ai_token_mall.Prelude.Int.{ℤ, pos, leb_ℤ}
use ai_token_mall.Billing.{count_upgrade_billing_cycles}
use ai_token_mall.Entity.{OrderType, Products, UserSubscriptions, is_active}
use ai_token_mall.Store.Action.{
  Error, Action, pure, raise, ◌>>=◌, ◌>>◌, map_error, raise_if, require,
}
use ai_token_mall.Store.Orders.{find_subscription_for_user}
use ai_token_mall.Rebate.CommissionTransfer.{to_db_error}

-- The row, when `subscriptionIsActive` holds of it.
abbrev pub active_row : Option UserSubscriptions → Option UserSubscriptions
active_row none = none
active_row (some sub) = if is_active sub.status then some sub else none

-- `loadActiveSubscriptionForUser`
unfoldable pub load_active_subscription_for_user : ℕ → ℕ → Action UserSubscriptions
load_active_subscription_for_user user_id req_sub_id = do
  raise_if (req_sub_id == 0) Error.params_error
  found ← map_error to_db_error (find_subscription_for_user user_id req_sub_id)
  require (active_row found) Error.renew_no_subscription

unfoldable pub upgrade_order_quantity : ℕ → ℕ → ℤ → Action ℤ
upgrade_order_quantity user_id user_sub_id target_period_days = do
  found ← map_error to_db_error (find_subscription_for_user user_id user_sub_id)
  sub ← require (active_row found) Error.renew_no_subscription
  pure (pos (count_upgrade_billing_cycles sub.period_end sub.expires_at target_period_days))

-- `resolveRenewalActiveSubscriptionID`, which has the steps of `loadActiveSubscriptionForUser`
-- written out.
unfoldable pub resolve_renewal_active_subscription_id : ℕ → ℕ → ℕ → Action ℕ
resolve_renewal_active_subscription_id user_id product_id req_sub_id = do
  raise_if (req_sub_id == 0) Error.params_error
  found ← map_error to_db_error (find_subscription_for_user user_id req_sub_id)
  sub ← require (active_row found) Error.renew_no_subscription
  raise_if (not (sub.product_id == product_id)) Error.params_error
  pure sub.id

-- Two categories differ only when both are given.
abbrev pub other_category : Products → UserSubscriptions → Bool
other_category target sub =
    not (str_eq target.products_category_name "")
    && not (str_eq sub.products_category_name "")
    && not (str_eq target.products_category_name sub.products_category_name)

unfoldable pub resolve_upgrade_active_subscription_id : ℕ → Products → ℕ → Action ℕ
resolve_upgrade_active_subscription_id user_id target req_sub_id = do
  sub ← load_active_subscription_for_user user_id req_sub_id
  raise_if (sub.product_id == target.id) Error.params_error
  raise_if (leb_ℤ target.limit_tokens sub.limit_tokens) Error.params_error
  raise_if (other_category target sub) Error.params_error
  pure sub.id

unfoldable pub resolve_quota_addon_active_subscription_id : ℕ → ℕ → ℕ → Action ℕ
resolve_quota_addon_active_subscription_id user_id product_id req_sub_id = do
  sub ← load_active_subscription_for_user user_id req_sub_id
  raise_if (not (sub.product_id == product_id)) Error.params_error
  pure sub.id

unfoldable pub resolve_order_user_subscription_id : ℕ → OrderType → Products → ℕ → Action ℕ
resolve_order_user_subscription_id user_id OrderType.purchase target req_sub_id = pure 0
resolve_order_user_subscription_id user_id OrderType.renewal target req_sub_id =
    resolve_renewal_active_subscription_id user_id target.id req_sub_id
resolve_order_user_subscription_id user_id OrderType.upgrade target req_sub_id =
    resolve_upgrade_active_subscription_id user_id target req_sub_id
resolve_order_user_subscription_id user_id OrderType.quota_addon target req_sub_id =
    resolve_quota_addon_active_subscription_id user_id target.id req_sub_id
resolve_order_user_subscription_id user_id _ target req_sub_id = raise Error.params_error
