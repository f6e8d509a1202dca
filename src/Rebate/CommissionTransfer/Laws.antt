-- ===== src/Rebate/CommissionTransfer/Laws.antt =====
-- A transfer of commission to the wallet: conservation, books, atomicity.
use ai_token_mall.Prelude.{
  ℕ, ◌%◌, ◌≡◌, refl, subst, Option, none, some, List, [], ◌∷◌, ◌++◌, arith, inl, inr, Option-cases,
}
use ai_token_mall.Prelude.Int.{ℤ, pos, ◌+ℤ◌, ◌-ℤ◌, ◌≤ℤ◌, neg_ℤ, int_laws}
use ai_token_mall.Entity.{
  Users, UserWalletFlows, UserNotifications, FlowType, RefType, NotificationStatus,
}
use ai_token_mall.Store.Action.{Tables, Db, Error, err, require, ◌>>=◌, pure, raise}
use ai_token_mall.Store.Ensures.{
  Ensures, Ensures-pure, Ensures-bind, Ensures-require, Ensures-map_error, Ensures-transaction,
  Ensures-weaken, transaction_rolls_back,
}
use ai_token_mall.Store.Users.{user_of, update_user, with_both}
use ai_token_mall.Store.Rules.{
  Ensures-transfer_commission_to_wallet, Ensures-create_flow, Ensures-create_notification,
}
use ai_token_mall.Store.Balances.{wallet_in, Reconciled, Solvent, NonNegative}
use ai_token_mall.Store.Balances.Posting.{post_transfer, NonNegative-with_both}
use ai_token_mall.Rebate.Amount.{Decimal, parse_commission_amount_yuan}
use ai_token_mall.Rebate.CommissionTransfer.{transfer_in_tx, transfer_commission_to_balance}

sub-eq-add_neg : (a b : ℤ) → a -ℤ b ≡ a +ℤ neg_ℤ b
sub-eq-add_neg a b = omega int_laws

wallet_of_solvent :
    (t : Tables)
    → Solvent t
    → (id : ℕ) (u : Users) → user_of id t ≡ some u
    → pos 0 ≤ℤ u.wallet_balance
wallet_of_solvent t h id u found = subst (λ o. pos 0 ≤ℤ wallet_in o) found (h.wallet id)

-- The tables after a transfer, written out: the balances, a commission flow of the negated amount
-- and a recharge flow of the amount, both with the balance after it, and the notification.
abbrev pub transferred : ℕ → ℤ → ℕ → Users → Tables → Tables
transferred user_id amount now u t =
    let c = u.commission_balance -ℤ amount in
    let w = u.wallet_balance +ℤ amount in
    let paid_out : UserWalletFlows = record {
      user_id = user_id;
      flow_type = FlowType.commission;
      amount = neg_ℤ amount;
      balance_after = some c;
      ref_type = RefType.commission_transfer;
      ref_id = now % 0x7fffffff;
    } in
    let paid_in : UserWalletFlows = record {
      user_id = user_id;
      flow_type = FlowType.recharge;
      amount = amount;
      balance_after = some w;
      ref_type = RefType.commission_transfer;
      ref_id = now % 0x7fffffff;
    } in
    let note : UserNotifications = record {
      user_id = user_id;
      user_subscription_id = none;
      api_key_id = none;
      template_code = "commission_transferred_to_wallet";
      status = NotificationStatus.unread;
    } in
    record t {
      users =
          update_user user_id (λ r. record r { commission_balance = c; wallet_balance = w })
            t.users;
      flows = (t.flows ++ paid_out ∷ []) ++ paid_in ∷ [];
      notifications = t.notifications ++ note ∷ [];
    }

-- What a transfer that returns has done.
pub record Transfers (new_from_string : List ℕ → Option Decimal) (amount_str : List ℕ) (user_id : ℕ)
    (now : ℕ) (t : Tables) (r : ℤ × ℤ × ℤ) (t' : Tables) : Type 0 where
  pub user : Users
  pub parsed : parse_commission_amount_yuan new_from_string amount_str ≡ some r.2
  pub found : user_of user_id t ≡ some user
  pub positive : pos 1 ≤ℤ r.2
  pub covered : r.2 ≤ℤ user.commission_balance
  pub commission_after : r.0 ≡ user.commission_balance -ℤ r.2
  pub wallet_after : r.1 ≡ user.wallet_balance +ℤ r.2
  pub result : t' ≡ transferred user_id r.2 now user t

module _ (new_from_string : List ℕ → Option Decimal) (user_id : ℕ) (amount_str : List ℕ)
    (now : ℕ) where
  -- A transfer that returns answers with the parsed amount, which is positive and covered by the
  -- commission of the user, and with the commission less the amount and the wallet plus the amount.
  -- It has changed both balances of the user to these, added a commission flow of the negated
  -- amount, a recharge flow of the amount and a notification, and nothing else.
  pub transfer-Transfers :
      (t : Tables)
      → Ensures
          (transfer_commission_to_balance new_from_string user_id amount_str now)
          (Transfers new_from_string amount_str user_id now t)
          t
  unfolding transfer_commission_to_balance transfer_in_tx
  transfer-Transfers t = Ensures-bind (
      Ensures-require (parse_commission_amount_yuan new_from_string amount_str) _ λ amount parsed.
        Ensures-transaction (
          Ensures-bind (
            Ensures-map_error _ (
              Ensures-transfer_commission_to_wallet user_id amount λ u found positive covered.
                Ensures-bind (
                  Ensures-map_error _ (
                    Ensures-create_flow _ λ _ _. Ensures-bind (
                      Ensures-map_error _ (
                        Ensures-create_flow _ λ _ _. Ensures-bind (
                          Ensures-map_error _ (
                            Ensures-create_notification _ λ _. Ensures-pure _ (record {
                              user = u;
                              parsed = parsed;
                              found = found;
                              positive = positive;
                              covered = omega int_laws;
                              commission_after = refl;
                              wallet_after = refl;
                              result = refl;
                            })))))))))))

  -- A transfer that returns moves the parsed amount from the commission to the wallet: the sum of
  -- the two balances stays, neither falls below zero, and the two flows account for the changes.
  pub transfer_conserves :
      (t : Tables) (u : Users)
      → user_of user_id t ≡ some u
      → Solvent t
      → Ensures
          (transfer_commission_to_balance new_from_string user_id amount_str now)
          (λ r t'.
            (r.0 +ℤ r.1 ≡ u.commission_balance +ℤ u.wallet_balance) × Solvent t' × Reconciled t t')
          t
  transfer_conserves t u found solvent = Ensures-weaken (transfer-Transfers t) λ r t' x. (
    (let same : u ≡ x.user = let there = x.found in ground arith in
        rw (same, x.commission_after, x.wallet_after) (omega int_laws)),
    rw x.result (keeps_solvent r.2 x.user x.found x.positive x.covered),
    rw x.result (keeps_books r.2 x.user x.found),
  )
    where
      keeps_solvent :
          (a : ℤ) (u : Users)
          → user_of user_id t ≡ some u
          → pos 1 ≤ℤ a
          → a ≤ℤ u.commission_balance
          → NonNegative (
              update_user user_id
                (with_both (u.commission_balance -ℤ a) (u.wallet_balance +ℤ a))
                t.users)
      keeps_solvent a u found p c =
          let w : pos 0 ≤ℤ u.wallet_balance = wallet_of_solvent t solvent user_id u found in
          NonNegative-with_both t.users user_id solvent _ _ (omega int_laws) (omega int_laws)

      keeps_books :
          (a : ℤ) (u : Users)
          → user_of user_id t ≡ some u
          → Reconciled t (transferred user_id a now u t)
      keeps_books a u found = rw (sub-eq-add_neg u.commission_balance a) (
          post_transfer t user_id u found (neg_ℤ a) _ _ a (refl, refl, refl, refl)
            (refl, refl, refl, refl))

  -- A transfer that raises leaves every table as it was.
  pub transfer_atomic :
      (db db' : Db) (e : Error)
      → transfer_commission_to_balance new_from_string user_id amount_str now db ≡ err e db'
      → db'.tables ≡ db.tables
  unfolding transfer_commission_to_balance raise pure ◌>>=◌
  transfer_atomic db db' e h =
      elim (Option-cases (parse_commission_amount_yuan new_from_string amount_str)) [
        | inl bad ↦ ground arith
        | inr (amount, good) ↦
            transaction_rolls_back (transfer_in_tx user_id amount now) db (rw (good, require) at h)
      ]
