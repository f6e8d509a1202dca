-- ===== src/Order/Notify.antt =====
-- order_service.go: the notice of a payment as a request, and the checkout that pays at once.
pub mod Laws
use ai_token_mall.Prelude.{
  ℕ, Bool, not, ◌&&◌, Option, some, none, List, [], ◌∷◌, ◌++◌, String, str_eq, if◌then◌else◌,
}
use ai_token_mall.Text.{codes, codes_eq, trim_space, to_upper, decimal}
use ai_token_mall.Entity.{OrderStatus, UserOrders}
use ai_token_mall.Store.Action.{Error, Action, pure, ◌>>=◌, ◌>>◌, map_error, raise_if, require}
use ai_token_mall.Store.Orders.{find_order_by_out_trade_no}
use ai_token_mall.Rebate.CommissionTransfer.{to_db_error}
use ai_token_mall.Order.Channel.{normalize_pay_channel}
use ai_token_mall.Order.Fulfill.{PaymentNotifyInput, apply_payment_notify_success}
use ai_token_mall.Order.Create.{CreateOrderReq, create_mock_order}

-- request.PaymentNotifyReq
pub record PaymentNotifyReq : Type 0 where
  pub out_trade_no : List ℕ
  pub trade_no : List ℕ
  pub trade_status : List ℕ

-- `status != "" && status != "TRADE_SUCCESS" && status != "SUCCESS"`
abbrev pub is_failed_status : List ℕ → Bool
is_failed_status raw =
    let status = to_upper (trim_space raw) in
    not (codes_eq status [])
    && not (codes_eq status (codes "TRADE_SUCCESS"))
    && not (codes_eq status (codes "SUCCESS"))

abbrev pub third_or_mock : String → ℕ → List ℕ → List ℕ
third_or_mock channel now [] = codes "MOCK_" ++ codes channel ++ codes "_" ++ decimal now
third_or_mock channel now third = third

abbrev pub notify_input : PaymentNotifyReq → String → ℕ → PaymentNotifyInput
notify_input req channel now = record {
  channel = channel;
  out_trade_no = req.out_trade_no;
  third_trade_no = third_or_mock channel now (trim_space req.trade_no);
  idempotency_key = codes channel ++ b':' ∷ req.out_trade_no;
}

-- The tests on the text of the error, in their order. The texts are those of
-- `order_fulfill_service.go`; a number in a text is no word that a test looks for.
abbrev pub notify_error : Error → Error
notify_error Error.not_payable = Error.order_not_payable
notify_error Error.renew_not_active = Error.renew_no_subscription
notify_error Error.renew_not_found = Error.renew_no_subscription
notify_error Error.quota_addon_not_active = Error.renew_no_subscription
notify_error Error.quota_addon_not_found = Error.renew_no_subscription
notify_error Error.quota_addon_missing_id = Error.renew_no_subscription
notify_error Error.upgrade_not_found = Error.renew_no_subscription
notify_error Error.upgrade_missing_id = Error.renew_no_subscription
notify_error Error.unknown_order_type = Error.params_error
notify_error e = Error.payment_fulfill_failed e

-- `generated` is what `apikey.Generate` answers with, and `now` the clock.
unfoldable pub handle_payment_notify :
    List ℕ → PaymentNotifyReq → Option String → ℕ → Action (Unit {0})
handle_payment_notify raw_channel req generated now = do
  channel ← require (normalize_pay_channel raw_channel) Error.params_error
  raise_if (codes_eq (trim_space req.out_trade_no) []) Error.params_error
  raise_if (is_failed_status req.trade_status) Error.params_error
  found ← map_error to_db_error (find_order_by_out_trade_no req.out_trade_no)
  order ← require found Error.payment_not_found
  raise_if (not (str_eq order.pay_channel channel)) Error.params_error
  map_error notify_error (apply_payment_notify_success (notify_input req channel now) generated now)

abbrev pub mock_notify_req : UserOrders → PaymentNotifyReq
mock_notify_req created = record {
  out_trade_no = created.out_trade_no;
  trade_no = [];
  trade_status = codes "TRADE_SUCCESS";
}

-- `MockCheckout`: the two readings of the clock are `now` and `later`.
unfoldable pub mock_checkout : ℕ → CreateOrderReq → Option String → ℕ → ℕ → Action UserOrders
mock_checkout user_id req generated now later = do
  created ← create_mock_order user_id req now
  handle_payment_notify (codes created.pay_channel) (mock_notify_req created) generated later
  pure (record created { status = OrderStatus.completed })
