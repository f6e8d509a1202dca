-- ===== src/Rebate/CommissionTransfer.antt =====
-- commission_transfer.go: a user moves commission to the wallet. The answer's three amounts are the
-- result; `now` is `time.Now()`.
pub mod Laws
pub mod Success
use ai_token_mall.Prelude.{ℕ, ◌%◌, Option, none, some, List}
use ai_token_mall.Prelude.Int.{ℤ, neg_ℤ}
use ai_token_mall.Entity.{FlowType, RefType, UserWalletFlows, UserNotifications, NotificationStatus}
use ai_token_mall.Store.Action.{Error, Action, pure, ◌>>=◌, ◌>>◌, map_error, transaction, require}
use ai_token_mall.Store.Users.{transfer_commission_to_wallet}
use ai_token_mall.Store.Ledger.{create_flow, create_notification}
use ai_token_mall.Rebate.Amount.{Decimal, parse_commission_amount_yuan}

abbrev pub to_db_error : Error → Error
to_db_error e = Error.db_error

-- The rewording of the errors of `TransferCommissionToWallet`.
abbrev pub transfer_error : Error → Error
transfer_error Error.record_not_found = Error.user_not_found
transfer_error Error.insufficient_commission_balance = Error.params_error
transfer_error Error.invalid_transfer_amount = Error.params_error
transfer_error _ = Error.db_error

-- `uint(now.UnixNano() % 0x7fffffff)`
abbrev pub transfer_ref_id : ℕ → ℕ
transfer_ref_id now = now % 0x7fffffff

abbrev pub transfer_out : ℕ → ℤ → ℤ → ℕ → UserWalletFlows
transfer_out user_id amount commission_after now = record {
  user_id = user_id;
  flow_type = FlowType.commission;
  amount = neg_ℤ amount;
  balance_after = some commission_after;
  ref_type = RefType.commission_transfer;
  ref_id = transfer_ref_id now;
}

abbrev pub transfer_in : ℕ → ℤ → ℤ → ℕ → UserWalletFlows
transfer_in user_id amount wallet_after now = record {
  user_id = user_id;
  flow_type = FlowType.recharge;
  amount = amount;
  balance_after = some wallet_after;
  ref_type = RefType.commission_transfer;
  ref_id = transfer_ref_id now;
}

abbrev pub transfer_notification : ℕ → UserNotifications
transfer_notification user_id = record {
  user_id = user_id;
  user_subscription_id = none;
  api_key_id = none;
  template_code = "commission_transferred_to_wallet";
  status = NotificationStatus.unread;
}

transfer_in_tx : ℕ → ℤ → ℕ → Action (ℤ × ℤ × ℤ)
transfer_in_tx user_id amount now = do
  (commission_after, wallet_after) ←
      map_error transfer_error (transfer_commission_to_wallet user_id amount)
  map_error to_db_error (create_flow (transfer_out user_id amount commission_after now))
  map_error to_db_error (create_flow (transfer_in user_id amount wallet_after now))
  map_error to_db_error (create_notification (transfer_notification user_id))
  pure (commission_after, wallet_after, amount)

unfoldable pub transfer_commission_to_balance :
    (List ℕ → Option Decimal) → ℕ → List ℕ → ℕ → Action (ℤ × ℤ × ℤ)
unfolding transfer_in_tx
transfer_commission_to_balance new_from_string user_id amount_str now = do
  amount ← require (parse_commission_amount_yuan new_from_string amount_str) Error.params_error
  transaction (transfer_in_tx user_id amount now)
