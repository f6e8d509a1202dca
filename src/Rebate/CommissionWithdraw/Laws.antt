-- ===== src/Rebate/CommissionWithdraw/Laws.antt =====
-- A withdrawal of commission: what it books, and that it is all or nothing.
use ai_token_mall.Prelude.{ℕ, ◌≡◌, refl, Option, none, some, List, [], ◌∷◌, ◌++◌, String}
use ai_token_mall.Prelude.Int.{ℤ, pos, ◌+ℤ◌, ◌≤ℤ◌, neg_ℤ, int_laws}
use ai_token_mall.Entity.{
  Users, UserWalletFlows, UserNotifications, UserCommissionWithdrawals, FlowType, RefType,
  NotificationStatus, WithdrawalStatus,
}
use ai_token_mall.Store.Action.{Tables}
use ai_token_mall.Store.Ensures.{
  Ensures, Ensures-pure, Ensures-bind, Ensures-require, Ensures-map_error, Ensures-transaction,
  Ensures-weaken, Ensures-raise_if, Ensures-query,
}
use ai_token_mall.Store.Users.{user_of, update_user}
use ai_token_mall.Store.Ledger.{find_payout}
use ai_token_mall.Store.Rules.{
  Ensures-apply_commission_delta, Ensures-create_flow, Ensures-create_notification,
  Ensures-create_withdrawal,
}
use ai_token_mall.Store.Balances.{Reconciled, Solvent}
use ai_token_mall.Store.Balances.Posting.{post_commission, NonNegative-with_commission}
use ai_token_mall.Rebate.Amount.{
  Decimal, parse_commission_amount_yuan, parse_commission_amount_yuan_bounds, max_amount,
}
use ai_token_mall.Rebate.CommissionWithdraw.{
  payout_channel, withdraw_tx, create_commission_withdrawal,
}

-- The tables after a withdrawal, written out: the commission, the pending withdrawal of the amount
-- to the channel, a withdraw flow of the negated amount with the balance after it, and the
-- notification.
abbrev pub withdrawn : ℕ → ℤ → String → Users → ℕ → Tables → Tables
withdrawn user_id amount channel u n t =
    let c = u.commission_balance +ℤ neg_ℤ amount in
    let asked : UserCommissionWithdrawals = record {
      id = n;
      user_id = user_id;
      amount = amount;
      channel = channel;
      status = WithdrawalStatus.pending;
    } in
    let paid_out : UserWalletFlows = record {
      user_id = user_id;
      flow_type = FlowType.withdraw;
      amount = neg_ℤ amount;
      balance_after = some c;
      ref_type = RefType.commission_withdrawal;
      ref_id = n;
    } in
    let note : UserNotifications = record {
      user_id = user_id;
      user_subscription_id = none;
      api_key_id = none;
      template_code = "commission_withdraw_submitted";
      status = NotificationStatus.unread;
    } in
    record t {
      users = update_user user_id (λ r. record r { commission_balance = c }) t.users;
      withdrawals = t.withdrawals ++ asked ∷ [];
      flows = t.flows ++ paid_out ∷ [];
      notifications = t.notifications ++ note ∷ [];
    }

-- What a withdrawal that returns has done.
pub record Withdraws (new_from_string : List ℕ → Option Decimal) (amount_str : List ℕ)
    (raw_channel : List ℕ) (user_id : ℕ) (t : Tables) (r : ℕ × ℤ) (t' : Tables) : Type 0 where
  pub user : Users
  pub amount : ℤ
  pub channel : String
  pub parsed : parse_commission_amount_yuan new_from_string amount_str ≡ some amount
  pub payable : payout_channel raw_channel ≡ some channel
  pub found : user_of user_id t ≡ some user
  pub positive : pos 1 ≤ℤ amount
  pub capped : amount ≤ℤ max_amount
  pub covered : amount ≤ℤ user.commission_balance
  pub left : r.1 ≡ user.commission_balance +ℤ neg_ℤ amount
  pub result : t' ≡ withdrawn user_id amount channel user r.0 t

module _ (new_from_string : List ℕ → Option Decimal) (user_id : ℕ)
    (amount_str raw_channel : List ℕ) where
  -- A withdrawal that returns has booked the parsed amount, between a cent and a million yuan and
  -- covered by the commission: the commission is reduced by it, and a pending withdrawal of the
  -- amount to the requested channel, a flow of the negated amount and a notification are added, and
  -- nothing else is changed.
  pub withdraw-Withdraws :
      (t : Tables)
      → Ensures
          (create_commission_withdrawal new_from_string user_id amount_str raw_channel)
          (Withdraws new_from_string amount_str raw_channel user_id t)
          t
  unfolding create_commission_withdrawal withdraw_tx find_payout
  withdraw-Withdraws t = Ensures-bind (
      Ensures-require (parse_commission_amount_yuan new_from_string amount_str) _ λ amount parsed.
        Ensures-bind (
          Ensures-require (payout_channel raw_channel) _ λ channel known. Ensures-bind (
            Ensures-map_error _ (
              Ensures-query _ (
                Ensures-bind (
                  Ensures-raise_if _ _ λ configured. Ensures-transaction (
                    Ensures-bind (
                      Ensures-map_error _ (
                        Ensures-apply_commission_delta user_id _ λ u found covered. Ensures-bind (
                          Ensures-map_error _ (
                            Ensures-create_withdrawal _ λ n. Ensures-bind (
                              Ensures-map_error _ (
                                Ensures-create_flow _ λ _ _. Ensures-bind (
                                  Ensures-map_error _ (
                                    Ensures-create_notification _ λ _. Ensures-pure _ (
                                      let bounds =
                                        parse_commission_amount_yuan_bounds new_from_string
                                          amount_str amount parsed in
                                      record {
                                        user = u;
                                        amount = amount;
                                        channel = channel;
                                        parsed = parsed;
                                        payable = known;
                                        found = found;
                                        positive = bounds.0;
                                        capped = bounds.1;
                                        covered = omega int_laws;
                                        left = refl;
                                        result = refl;
                                      }))))))))))))))))

  -- A withdrawal that returns keeps every balance at zero or more, and its flow accounts for the
  -- change.
  pub withdraw_keeps_books :
      (t : Tables)
      → Solvent t
      → Ensures
          (create_commission_withdrawal new_from_string user_id amount_str raw_channel)
          (λ _ t'. Solvent t' × Reconciled t t')
          t
  withdraw_keeps_books t solvent = Ensures-weaken (withdraw-Withdraws t) λ r t' x. rw x.result (
    NonNegative-with_commission t.users user_id solvent _ (let c = x.covered in omega int_laws),
    post_commission t user_id x.user x.found (neg_ℤ x.amount) _ refl refl refl refl,
  )
