-- ===== src/Order/Notify/Laws.antt =====
-- The notice of a payment as a request: all or nothing, and with the books kept.
use ai_token_mall.Prelude.{
  ℕ, ◌≡◌, refl, false, not, List, [], Option, some, String, str_eq, eq_iff, arith, ◌⊎◌, inl, inr,
  Bool-cases,
}
use ai_token_mall.Entity.{UserOrders}
use ai_token_mall.Text.{codes, codes_eq, eq_of_codes_eq, trim_space, to_upper}
use ai_token_mall.Store.Action.{Tables, Db, Error, err}
use ai_token_mall.Store.Ensures.{
  Ensures, Ensures-bind, Ensures-require, Ensures-raise_if, Ensures-map_error, Ensures-query,
  Ensures-weaken,
}
use ai_token_mall.Store.Atomic.{
  ReadOnly-require, ReadOnly-raise_if, ReadOnly-map_error, ReadOnly-query, Atomic-bind,
  Atomic-map_error, Atomic-transaction, Atomic-raises,
}
use ai_token_mall.Store.Balances.{Reconciled, Solvent}
use ai_token_mall.Store.Orders.{order_by_out_trade_no, find_order_by_out_trade_no}
use ai_token_mall.Order.Channel.{normalize_pay_channel}
use ai_token_mall.Order.Fulfill.{apply_payment_notify_success}
use ai_token_mall.Order.Fulfill.Books.{apply_keeps_books}
use ai_token_mall.Order.Notify.{
  PaymentNotifyReq, is_failed_status, notify_input, notify_error, handle_payment_notify,
}

accepted_status :
    (raw : List ℕ)
    → is_failed_status raw ≡ false
    → (to_upper (trim_space raw) ≡ [])
      ⊎ (to_upper (trim_space raw) ≡ codes "TRADE_SUCCESS")
      ⊎ (to_upper (trim_space raw) ≡ codes "SUCCESS")
accepted_status raw h =
    let status = to_upper (trim_space raw) in
    elim (Bool-cases (codes_eq status [])) [
      | inl empty ↦ inl (eq_of_codes_eq status [] empty)
      | inr named ↦ elim (Bool-cases (codes_eq status (codes "TRADE_SUCCESS"))) [
        | inl trade ↦ inr (inl (eq_of_codes_eq status (codes "TRADE_SUCCESS") trade))
        | inr other ↦ inr (inr (eq_of_codes_eq status (codes "SUCCESS") (ground arith)))
      ]
    ]

module _ (raw_channel : List ℕ) (req : PaymentNotifyReq) (generated : Option String) (now : ℕ) where
  -- A notice that is refused or fails, at whatever step, leaves every table as it was.
  pub handle_atomic :
      (db db' : Db) (e : Error)
      → handle_payment_notify raw_channel req generated now db ≡ err e db'
      → db'.tables ≡ db.tables
  unfolding handle_payment_notify find_order_by_out_trade_no apply_payment_notify_success
  handle_atomic db db' e h =
      Atomic-raises db db' e
        (Atomic-bind (ReadOnly-require (normalize_pay_channel raw_channel) _) λ channel.
          Atomic-bind (ReadOnly-raise_if _ _) λ _. Atomic-bind (ReadOnly-raise_if _ _) λ _.
            Atomic-bind (ReadOnly-map_error _ (ReadOnly-query _)) λ found.
              Atomic-bind (ReadOnly-require found _) λ order.
                Atomic-bind (ReadOnly-raise_if _ _) λ _. Atomic-map_error _ (Atomic-transaction _))
        h

  -- A notice that returns, on tables without a negative balance, came on the channel that its order
  -- was placed for, and its status, trimmed and in upper case, is empty, TRADE_SUCCESS or SUCCESS.
  -- It keeps the books: the flows account for every change of a balance, and none falls below zero.
  pub handle_accepts :
      (t : Tables)
      → Solvent t
      → Ensures
          (handle_payment_notify raw_channel req generated now)
          (λ _ t'.
            (o : UserOrders) × (order_by_out_trade_no req.out_trade_no t.orders ≡ some o)
            × (normalize_pay_channel raw_channel ≡ some o.pay_channel)
            × ((to_upper (trim_space req.trade_status) ≡ [])
                ⊎ (to_upper (trim_space req.trade_status) ≡ codes "TRADE_SUCCESS")
                ⊎ (to_upper (trim_space req.trade_status) ≡ codes "SUCCESS"))
            × Reconciled t t'
            × Solvent t')
          t
  unfolding handle_payment_notify find_order_by_out_trade_no
  handle_accepts t solvent = Ensures-bind (
      Ensures-require (normalize_pay_channel raw_channel) _ λ channel known. Ensures-bind (
        Ensures-raise_if _ _ λ named. Ensures-bind (
          Ensures-raise_if (is_failed_status req.trade_status) _ λ success. Ensures-bind (
            Ensures-map_error _ (
              Ensures-query _ (
                Ensures-bind (
                  Ensures-require _ _ λ order found. Ensures-bind (
                    Ensures-raise_if (not (str_eq order.pay_channel channel)) _ λ same.
                      Ensures-map_error notify_error (
                        Ensures-weaken
                          (apply_keeps_books (notify_input req channel now) generated now t solvent)
                          λ _ t' (books, above).
                            let equal : order.pay_channel ≡ channel =
                              (eq_iff _ _).0 (ground arith) in
                            (
                              order,
                              found,
                              rw (known, equal) refl,
                              accepted_status req.trade_status success,
                              books,
                              above,
                            ))))))))))
