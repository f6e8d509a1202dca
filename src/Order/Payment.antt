-- ===== src/Order/Payment.antt =====
-- order_fulfill_service.go: what every paid order leaves, a notification and the flow of the buyer.
use ai_token_mall.Prelude.{ℕ, Option, none, some, String, str_eq, if◌then◌else◌}
use ai_token_mall.Prelude.Int.{ℤ, neg_ℤ}
use ai_token_mall.Entity.{
  FlowType, RefType, NotificationStatus, UserOrders, UserWalletFlows, UserNotifications,
}
use ai_token_mall.Store.Action.{Action, ◌>>=◌}
use ai_token_mall.Store.Users.{apply_wallet_delta}
use ai_token_mall.Store.Ledger.{create_flow, create_notification}

abbrev pub order_notification : UserOrders → ℕ → Option ℕ → String → UserNotifications
order_notification order sub_id api_key_id template_code = record {
  user_id = order.user_id;
  user_subscription_id = some sub_id;
  api_key_id = api_key_id;
  template_code = template_code;
  status = NotificationStatus.sent;
}

-- `insertSubscriptionOrderNotification`
unfoldable pub insert_subscription_order_notification :
    UserOrders → ℕ → Option ℕ → String → Action ℕ
insert_subscription_order_notification order sub_id api_key_id template_code =
    create_notification (order_notification order sub_id api_key_id template_code)

abbrev pub pay_flow : UserOrders → Option ℤ → UserWalletFlows
pay_flow order balance_after = record {
  user_id = order.user_id;
  flow_type = FlowType.pay;
  amount = neg_ℤ order.total_amount;
  balance_after = balance_after;
  ref_type = RefType.order;
  ref_id = order.id;
}

-- `deductBalanceAndRecordFlow`: only a payment by balance moves the wallet.
unfoldable pub deduct_balance_and_record_flow : UserOrders → String → Action ℕ
deduct_balance_and_record_flow order channel =
    if str_eq channel "balance"
    then (do
      bal ← apply_wallet_delta order.user_id (neg_ℤ order.total_amount)
      create_flow (pay_flow order (some bal)))
    else create_flow (pay_flow order none)
