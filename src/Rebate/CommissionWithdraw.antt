-- ===== src/Rebate/CommissionWithdraw.antt =====
-- commission_withdraw.go: a user asks for a payout of commission.
pub mod Laws
use ai_token_mall.Prelude.{ℕ, Bool, true, not, Option, none, some, List, String, if◌then◌else◌}
use ai_token_mall.Prelude.Int.{ℤ, neg_ℤ}
use ai_token_mall.Entity.{
  FlowType, RefType, UserWalletFlows, UserNotifications, NotificationStatus, WithdrawalStatus,
  UserCommissionWithdrawals, UserCommissionPayoutConfig,
}
use ai_token_mall.Text.{codes, codes_eq, trim_space, to_lower}
use ai_token_mall.Store.Action.{
  Error, Action, pure, ◌>>=◌, ◌>>◌, map_error, transaction, require, raise_if,
}
use ai_token_mall.Store.Users.{apply_commission_delta}
use ai_token_mall.Store.Ledger.{create_flow, create_notification, create_withdrawal, find_payout}
use ai_token_mall.Rebate.Amount.{Decimal, parse_commission_amount_yuan}
use ai_token_mall.Rebate.CommissionTransfer.{to_db_error}

-- `channel != "alipay" && channel != "wechat"` after `TrimSpace(ToLower(channel))`; `none` is refused.
unfoldable pub payout_channel : List ℕ → Option String
payout_channel raw =
    let channel = trim_space (to_lower raw) in
    if codes_eq channel (codes "alipay")
    then some "alipay"
    else if codes_eq channel (codes "wechat")
    then some "wechat"
    else none

-- `payout == nil || !payout.HasQR()`
abbrev pub no_payout : Option UserCommissionPayoutConfig → Bool
no_payout none = true
no_payout (some p) = not p.has_qr

abbrev pub withdraw_error : Error → Error
withdraw_error Error.record_not_found = Error.user_not_found
withdraw_error Error.insufficient_commission_balance = Error.params_error
withdraw_error _ = Error.db_error

abbrev pub withdrawal_row : ℕ → ℤ → String → UserCommissionWithdrawals
withdrawal_row user_id amount channel = record {
  id = 0;
  user_id = user_id;
  amount = amount;
  channel = channel;
  status = WithdrawalStatus.pending;
}

abbrev pub withdraw_flow : ℕ → ℤ → ℤ → ℕ → UserWalletFlows
withdraw_flow user_id amount commission_after withdrawal_id = record {
  user_id = user_id;
  flow_type = FlowType.withdraw;
  amount = neg_ℤ amount;
  balance_after = some commission_after;
  ref_type = RefType.commission_withdrawal;
  ref_id = withdrawal_id;
}

abbrev pub withdraw_notification : ℕ → UserNotifications
withdraw_notification user_id = record {
  user_id = user_id;
  user_subscription_id = none;
  api_key_id = none;
  template_code = "commission_withdraw_submitted";
  status = NotificationStatus.unread;
}

withdraw_tx : ℕ → ℤ → String → Action (ℕ × ℤ)
withdraw_tx user_id amount channel = do
  commission_after ← map_error withdraw_error (apply_commission_delta user_id (neg_ℤ amount))
  withdrawal_id ← map_error to_db_error (create_withdrawal (withdrawal_row user_id amount channel))
  map_error to_db_error (create_flow (withdraw_flow user_id amount commission_after withdrawal_id))
  map_error to_db_error (create_notification (withdraw_notification user_id))
  pure (withdrawal_id, commission_after)

-- The answer is the id of the withdrawal and the commission that is left.
unfoldable pub create_commission_withdrawal :
    (List ℕ → Option Decimal) → ℕ → List ℕ → List ℕ → Action (ℕ × ℤ)
unfolding withdraw_tx
create_commission_withdrawal new_from_string user_id amount_str raw_channel = do
  amount ← require (parse_commission_amount_yuan new_from_string amount_str) Error.params_error
  channel ← require (payout_channel raw_channel) Error.params_error
  payout ← map_error to_db_error (find_payout user_id channel)
  raise_if (no_payout payout) Error.params_error
  transaction (withdraw_tx user_id amount channel)
