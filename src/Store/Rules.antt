-- ===== src/Store/Rules.antt =====
-- Rules of `Ensures` for the statements of the repositories.
use ai_token_mall.Prelude.{ℕ, ◌≡◌, false, Option, some, arith, ◌==◌, exists_where}
use ai_token_mall.Prelude.Int.{ℤ, pos, ◌+ℤ◌, ◌-ℤ◌, ◌≤ℤ◌, ltb_ℤ, leb_ℤ}
use ai_token_mall.Entity.{
  Users, UserWalletFlows, UserCommissionRecords, UserCommissionWithdrawals, UserNotifications,
  UserInvoices, VipConfig,
}
use ai_token_mall.Store.Action.{Tables}
use ai_token_mall.Store.Ensures.{
  Ensures, Ensures-pure, Ensures-query, Ensures-exec, Ensures-insert, Ensures-bind, Ensures-require,
  Ensures-raise_if,
}
use ai_token_mall.Store.Users.{
  user_of, set_user, with_commission, with_wallet, with_both, find_by_id_for_update,
  apply_commission_delta, apply_wallet_delta, transfer_commission_to_wallet,
}
use ai_token_mall.Store.Ledger.{
  same_flow, add_flow, create_flow, record_of_order, find_record_by_order_id, add_record,
  create_record, add_withdrawal, create_withdrawal, add_notification, create_notification,
  add_invoice, create_invoice, find_vip_config_by_id, find_default_vip_config, vip_config_of,
  default_level,
}

-- A sum that the code did not find negative.
nonneg_of_test : (a : ℤ) → ltb_ℤ a (pos 0) ≡ false → pos 0 ≤ℤ a
nonneg_of_test a h = ground arith

module _ {Q : Option Users → Tables → Type 0} {t : Tables} where
  pub Ensures-find_by_id_for_update :
      (id : ℕ) → Q (user_of id t) t → Ensures (find_by_id_for_update id) Q t
  unfolding find_by_id_for_update
  Ensures-find_by_id_for_update id h = Ensures-query (user_of id) h

module _ {Q : ℤ → Tables → Type 0} {t : Tables} (id : ℕ) (d : ℤ) where
  pub Ensures-apply_commission_delta :
      ((u : Users)
        → user_of id t ≡ some u
        → pos 0 ≤ℤ u.commission_balance +ℤ d
        → Q
            (u.commission_balance +ℤ d)
            (set_user id (with_commission (u.commission_balance +ℤ d)) t))
      → Ensures (apply_commission_delta id d) Q t
  unfolding apply_commission_delta
  Ensures-apply_commission_delta k = Ensures-bind (
      Ensures-query (user_of id) (
        Ensures-bind (
          Ensures-require (user_of id t) _ λ u found. Ensures-bind (
            Ensures-raise_if _ _ λ covered.
              Ensures-bind
                (Ensures-exec _ (Ensures-pure _ (k u found (nonneg_of_test _ covered))))))))

  pub Ensures-apply_wallet_delta :
      ((u : Users)
        → user_of id t ≡ some u
        → pos 0 ≤ℤ u.wallet_balance +ℤ d
        → Q (u.wallet_balance +ℤ d) (set_user id (with_wallet (u.wallet_balance +ℤ d)) t))
      → Ensures (apply_wallet_delta id d) Q t
  unfolding apply_wallet_delta
  Ensures-apply_wallet_delta k = Ensures-bind (
      Ensures-query (user_of id) (
        Ensures-bind (
          Ensures-require (user_of id t) _ λ u found. Ensures-bind (
            Ensures-raise_if _ _ λ covered.
              Ensures-bind
                (Ensures-exec _ (Ensures-pure _ (k u found (nonneg_of_test _ covered))))))))

pos_of_test : (a : ℤ) → leb_ℤ a (pos 0) ≡ false → pos 1 ≤ℤ a
pos_of_test a h = ground arith

module _ {Q : ℤ × ℤ → Tables → Type 0} {t : Tables} (id : ℕ) (amount : ℤ) where
  pub Ensures-transfer_commission_to_wallet :
      ((u : Users)
        → user_of id t ≡ some u
        → pos 1 ≤ℤ amount
        → pos 0 ≤ℤ u.commission_balance -ℤ amount
        → Q
            (u.commission_balance -ℤ amount, u.wallet_balance +ℤ amount)
            (set_user id
              (with_both (u.commission_balance -ℤ amount) (u.wallet_balance +ℤ amount))
              t))
      → Ensures (transfer_commission_to_wallet id amount) Q t
  unfolding transfer_commission_to_wallet
  Ensures-transfer_commission_to_wallet k = Ensures-bind (
      Ensures-query (user_of id) (
        Ensures-bind (
          Ensures-require (user_of id t) _ λ u found. Ensures-bind (
            Ensures-raise_if _ _ λ positive. Ensures-bind (
              Ensures-raise_if _ _ λ covered. Ensures-bind (
                Ensures-exec _ (
                  Ensures-pure _
                    (k u found (pos_of_test _ positive) (nonneg_of_test _ covered)))))))))

module _ {Q : ℕ → Tables → Type 0} {t : Tables} where
  pub Ensures-create_flow :
      (row : UserWalletFlows)
      → ((n : ℕ) → exists_where (same_flow row) t.flows ≡ false → Q n (add_flow row t))
      → Ensures (create_flow row) Q t
  unfolding create_flow
  Ensures-create_flow row k = Ensures-insert _ _ k

  pub Ensures-create_record :
      (row : UserCommissionRecords)
      → ((n : ℕ)
          → exists_where (λ r. r.order_id == row.order_id) t.records ≡ false
          → Q n (add_record (record row { id = n }) t))
      → Ensures (create_record row) Q t
  unfolding create_record
  Ensures-create_record row k = Ensures-insert _ _ k

  pub Ensures-create_withdrawal :
      (row : UserCommissionWithdrawals)
      → ((n : ℕ) → Q n (add_withdrawal (record row { id = n }) t))
      → Ensures (create_withdrawal row) Q t
  unfolding create_withdrawal
  Ensures-create_withdrawal row k = Ensures-insert _ _ (λ n _. k n)

  pub Ensures-create_notification :
      (row : UserNotifications)
      → ((n : ℕ) → Q n (add_notification row t))
      → Ensures (create_notification row) Q t
  unfolding create_notification
  Ensures-create_notification row k = Ensures-insert _ _ (λ n _. k n)

  pub Ensures-create_invoice :
      (row : UserInvoices) → ((n : ℕ) → Q n (add_invoice row t)) → Ensures (create_invoice row) Q t
  unfolding create_invoice
  Ensures-create_invoice row k = Ensures-insert _ _ (λ n _. k n)

module _ {Q : Option VipConfig → Tables → Type 0} {t : Tables} where
  pub Ensures-find_vip_config_by_id :
      (id : ℕ) → Q (vip_config_of id t) t → Ensures (find_vip_config_by_id id) Q t
  unfolding find_vip_config_by_id
  Ensures-find_vip_config_by_id id h = Ensures-query _ h

  pub Ensures-find_default_vip_config : Q (default_level t) t → Ensures find_default_vip_config Q t
  unfolding find_default_vip_config
  Ensures-find_default_vip_config h = Ensures-bind (Ensures-query _ (Ensures-query _ h))

module _ {Q : Option UserCommissionRecords → Tables → Type 0} {t : Tables} where
  pub Ensures-find_record_by_order_id :
      (order_id : ℕ)
      → Q (record_of_order order_id t) t
      → Ensures (find_record_by_order_id order_id) Q t
  unfolding find_record_by_order_id
  Ensures-find_record_by_order_id order_id h = Ensures-query _ h
