-- ===== src/Lifecycle.antt =====
-- application/bot/scripts/subscription_lifecycle: the scheduled job on active subscriptions.
pub mod Laws
pub mod AutoRenewal
use ai_token_mall.Prelude.{
  ℕ, ◌+◌, ◌*◌, ◌/◌, ◌%◌, Bool, false, not, ◌==◌, ltb, Option, none, some, List, [], ◌∷◌, ◌++◌,
  if◌then◌else◌,
}
use ai_token_mall.Prelude.Int.{ℤ, pos, ltb_ℤ}
use ai_token_mall.Text.{codes, decimal}
use ai_token_mall.Billing.{add_period, nanoseconds_per_day}
use ai_token_mall.Entity.{
  OrderType, OrderStatus, OrderNo, SubscriptionStatus, KeyStatus, NotificationStatus, Products,
  UserOrders, UserSubscriptions, UserApiKeys, UserNotifications, Users,
}
use ai_token_mall.Store.Action.{
  Error, Action, pure, ◌>>=◌, ◌>>◌, catch, transaction, raise_if, require,
}
use ai_token_mall.Store.Users.{find_by_id_for_update}
use ai_token_mall.Store.Orders.{create_order, find_product_by_id}
use ai_token_mall.Store.Subscriptions.{find_active_for_update, update_subscription, list_active_ids}
use ai_token_mall.Store.ApiKeys.{
  is_live_key_of, is_live_main_of, is_live_sub_of, is_live_main_or_sub_of, update_api_keys,
}
use ai_token_mall.Store.Ledger.{create_notification}
use ai_token_mall.Order.Purchase.{days_of}
use ai_token_mall.Order.Fulfill.{fulfill_balance_renewal_in_tx}

-- expire.go

abbrev pub lifecycle_notification : UserSubscriptions → UserNotifications
lifecycle_notification sub = record {
  user_id = sub.user_id;
  user_subscription_id = some sub.id;
  api_key_id = none;
  template_code = "subscription_expired";
  status = NotificationStatus.sent;
}

abbrev pub expire_row : UserSubscriptions → UserSubscriptions
expire_row s = record s { status = SubscriptionStatus.expired }

abbrev pub expire_key : UserApiKeys → UserApiKeys
expire_key k = record k { status = KeyStatus.expired }

unfoldable pub expire_active : UserSubscriptions → ℕ → Action (Unit {0})
expire_active sub now = if not (ltb sub.expires_at now) then pure tt else do
  update_subscription sub.id expire_row
  create_notification (lifecycle_notification sub)
  update_api_keys (is_live_main_or_sub_of sub.id) expire_key

abbrev pub if_active :
    (UserSubscriptions → Action (Unit {0})) → Option UserSubscriptions → Action (Unit {0})
if_active f none = pure tt
if_active f (some sub) = f sub

unfoldable pub expire_subscription : ℕ → ℕ → Action (Unit {0})
unfolding expire_active
expire_subscription sub_id now =
    transaction (do sub ← find_active_for_update sub_id; if_active (λ s. expire_active s now) sub)

-- period_reset.go

abbrev pub reset_row : UserSubscriptions → ℕ → UserSubscriptions → UserSubscriptions
reset_row sub new_end s = record s {
  period_start = sub.period_end;
  period_end = new_end;
  limit_tokens = sub.base_limit_tokens;
  used_tokens = pos 0;
}

abbrev pub reset_main_key : ℤ → UserApiKeys → UserApiKeys
reset_main_key limit k = record k { limit_tokens = limit; used_tokens = pos 0 }

abbrev pub reset_sub_key : UserApiKeys → UserApiKeys
reset_sub_key k = record k { used_tokens = pos 0 }

-- `periodResetMainAndSubKeysForSubscription`
unfoldable pub period_reset_main_and_sub_keys : ℕ → ℤ → Action (Unit {0})
period_reset_main_and_sub_keys subscription_id main_limit_tokens = do
  update_api_keys (is_live_main_of subscription_id) (reset_main_key main_limit_tokens)
  update_api_keys (is_live_sub_of subscription_id) reset_sub_key

unfoldable pub reset_active : UserSubscriptions → ℕ → Action (Unit {0})
reset_active sub now =
    if not (ltb sub.period_end now)
    then pure tt
    else if not (ltb sub.period_end sub.expires_at)
    then pure tt
    else do
      product ← require (← find_product_by_id sub.product_id) Error.record_not_found
      update_subscription sub.id (reset_row sub (add_period sub.period_end (days_of product)))
      period_reset_main_and_sub_keys sub.id sub.base_limit_tokens

unfoldable pub period_reset_subscription : ℕ → ℕ → Action (Unit {0})
unfolding reset_active
period_reset_subscription sub_id now =
    transaction (do sub ← find_active_for_update sub_id; if_active (λ s. reset_active s now) sub)

-- auto_renew.go

abbrev pub auto_renew_lead : ℕ
auto_renew_lead = 7 * nanoseconds_per_day

abbrev pub nanoseconds_per_second : ℕ
nanoseconds_per_second = 1000000000

-- The three guards on the times: `now` is in the last seven days, and the last period is running.
-- The difference `expires_at - 7 days` may lie before time 0, so the lead is added to `now`.
abbrev pub is_due : UserSubscriptions → ℕ → Bool
is_due sub now =
    if not (ltb now sub.expires_at)
    then false
    else if ltb (now + auto_renew_lead) sub.expires_at
    then false
    else sub.period_end / nanoseconds_per_second == sub.expires_at / nanoseconds_per_second

abbrev pub renewal_order : UserSubscriptions → ℤ → ℕ → UserOrders
renewal_order sub price now = record {
  id = 0;
  order_no = OrderNo.rn (now / nanoseconds_per_second) (sub.user_id % 10000);
  user_id = sub.user_id;
  product_id = sub.product_id;
  order_type = OrderType.renewal;
  user_subscription_id = sub.id;
  quantity = pos 1;
  unit_price = price;
  status = OrderStatus.completed;
  total_amount = price;
  enterprise_invoice = 0;
  pay_channel = "balance";
  out_trade_no = codes "BALRN" ++ decimal (now / 1000000) ++ decimal sub.id;
  third_trade_no = none;
  raw_request_json = none;
  paid_at = some now;
  expire_at = now + 1800 * nanoseconds_per_second;
  closed_at = none;
}

unfoldable pub renew_due : UserSubscriptions → ℕ → Action (Unit {0})
renew_due sub now = do
  product ← require (← find_product_by_id sub.product_id) Error.record_not_found
  user ← require (← find_by_id_for_update sub.user_id) Error.record_not_found
  if ltb_ℤ user.wallet_balance product.price then pure tt else do
    let row = renewal_order sub product.price now
    id ← create_order row
    fulfill_balance_renewal_in_tx (record row { id = id }) product now

unfoldable pub renew_active : UserSubscriptions → ℕ → Action (Unit {0})
unfolding renew_due
renew_active sub now = if is_due sub now then renew_due sub now else pure tt

unfoldable pub auto_renew_subscription : ℕ → ℕ → Action (Unit {0})
unfolding renew_active
auto_renew_subscription sub_id now =
    transaction (do sub ← find_active_for_update sub_id; if_active (λ s. renew_active s now) sub)

-- entry.go: the batches are run one subscription after the other; an error of one is only logged.
unfoldable pub run_each : (ℕ → ℕ → Action (Unit {0})) → ℕ → List ℕ → Action (Unit {0})
run_each handler now [] = pure tt
run_each handler now (id ∷ ids) = do catch (handler id now) (λ e. pure tt); run_each handler now ids

unfoldable pub run_active : (ℕ → ℕ → Action (Unit {0})) → ℕ → Action (Unit {0})
unfolding run_each
run_active handler now = do ids ← list_active_ids; run_each handler now ids

-- `Run`: a phase that cannot list the subscriptions ends the run.
unfoldable pub run_subscription_lifecycle : ℕ → Action (Unit {0})
unfolding run_active
run_subscription_lifecycle now = do
  run_active auto_renew_subscription now
  run_active period_reset_subscription now
  run_active expire_subscription now
