-- ===== src/Order/Fulfill/Laws.antt =====
-- The notice of a payment: once, whole, and for a pending order only.
use ai_token_mall.Prelude.{
  ℕ, ◌≡◌, refl, ap, ◌∙◌, arith, Bool, true, false, not, ◌⊎◌, inl, inr, Option, none, some, List, [],
  ◌∷◌, ◌++◌, Option-cases, String, str_eq, eq_refl, find_first, find_first-append, update_where,
  ◌==◌,
}
use ai_token_mall.Entity.{
  OrderStatus, Products, UserOrders, PaymentCallbacks, is_completed, is_pending_payment,
}
use ai_token_mall.Text.{codes_eq_refl}
use ai_token_mall.Store.Action.{Tables, Db, Error, err}
use ai_token_mall.Store.Ensures.{
  Ensures, Ensures-pure, Ensures-raise, Ensures-query, Ensures-exec, Ensures-insert, Ensures-bind,
  Ensures-require, Ensures-raise_if, Ensures-if, Ensures-transaction, Ensures-weaken,
  Ensures-catch-insert, transaction_rolls_back,
}
use ai_token_mall.Store.Rules.{Ensures-apply_wallet_delta, Ensures-create_flow}
use ai_token_mall.Store.Keeps.{Keeps, Frame}
use ai_token_mall.Store.Orders.{
  order_by_out_trade_no, find_order_by_out_trade_no, update_order, update_order_fields,
  find_product_by_id,
}
use ai_token_mall.Store.Callbacks.{
  has_key, callback_of, find_by_idempotency, create_callback, add_callback,
}
use ai_token_mall.Rebate.OrderRebate.{accrue_invite_rebate_for_paid_order}
use ai_token_mall.Rebate.OrderRebate.Accrual.{Accrues, accrue-Accrues}
use ai_token_mall.Order.Payment.{deduct_balance_and_record_flow}
use ai_token_mall.Order.Keeps.{by_type-Keeps}
use ai_token_mall.Order.Fulfill.{
  PaymentNotifyInput, callback_row, insert_callback, deliver, complete_and_fulfill, apply_to_order,
  apply_payment_notify_success,
}
use ai_token_mall.Order.Fulfill.Keeps.{mark_used-Keeps, invoice-Keeps}

abbrev SameOrders : Tables → Tables → Type 0
SameOrders t t' = t'.orders ≡ t.orders

orders_frame : Frame SameOrders
orders_frame = record {
  same = λ t. refl;
  chain = λ t u v a b. b ∙ a;
  notification = λ row t. refl;
  new_subscription = λ row t. refl;
  subscription = λ id f t. refl;
  new_api_key = λ row t. refl;
  api_keys = λ p f t. refl;
  coupons = λ p f t. refl;
  invoice = λ row t. refl;
  callback = λ row t. refl;
}

deduct-SameOrders :
    (order : UserOrders) (channel : String)
    → Keeps SameOrders (deduct_balance_and_record_flow order channel)
unfolding deduct_balance_and_record_flow
deduct-SameOrders order channel t =
    Ensures-if (str_eq channel "balance")
      (λ _. Ensures-bind (
        Ensures-apply_wallet_delta order.user_id _
          λ u found covered. Ensures-create_flow _ λ _ _. refl))
      (λ _. Ensures-create_flow _ λ _ _. refl)

Accrues-SameOrders :
    (order : UserOrders) (product : Products) (t t' : Tables)
    → Accrues order product t t'
    → t'.orders ≡ t.orders
Accrues-SameOrders order product t t' (inl same) = ap (λ s. s.orders) same
Accrues-SameOrders order product t t' (inr s) = ap (λ s. s.orders) s.result

accrue-SameOrders :
    (order : UserOrders) (product : Products)
    → Keeps SameOrders (accrue_invite_rebate_for_paid_order order product)
accrue-SameOrders order product t =
    Ensures-weaken (accrue-Accrues order product t)
      (λ _ t' a. Accrues-SameOrders order product t t' a)

-- The notice has its callback.
abbrev pub Seen : PaymentNotifyInput → Tables → Type 0
Seen in_ t =
    (c : PaymentCallbacks) × (callback_of in_.channel in_.idempotency_key t.callbacks ≡ some c)

found_last :
    {A : Type 0} (p : A → Bool) (xs : List A) (x : A)
    → p x ≡ true
    → (y : A) × (find_first p (xs ++ x ∷ []) ≡ some y)
unfolding find_first
found_last p xs x h = elim (Option-cases (find_first p xs)) [
  | inl missing ↦ (x, rw (find_first-append p xs (x ∷ []), missing, h) refl)
  | inr (y, found) ↦ (y, rw (find_first-append p xs (x ∷ []), found) refl)
]

has_own_key :
    (in_ : PaymentNotifyInput) (result : String)
    → has_key in_.channel in_.idempotency_key (callback_row in_ result) ≡ true
has_own_key in_ result = rw (eq_refl in_.channel, codes_eq_refl in_.idempotency_key) refl

Seen-add_callback :
    (in_ : PaymentNotifyInput) (result : String) (t : Tables)
    → Seen in_ (add_callback (callback_row in_ result) t)
unfolding callback_of
Seen-add_callback in_ result t =
    found_last (has_key in_.channel in_.idempotency_key) t.callbacks _ (has_own_key in_ result)

module _ (in_ : PaymentNotifyInput) (generated : Option String) (now : ℕ) where
  deliver_delivers :
      (order : UserOrders) (product : Products) (t : Tables)
      → Ensures
          (deliver in_ order product generated now)
          (λ _ t'. (t'.orders ≡ t.orders) × Seen in_ t')
          t
  unfolding deliver insert_callback create_callback
  deliver_delivers order product t = Ensures-bind (
      Ensures-weaken
        (by_type-Keeps orders_frame deduct-SameOrders order product now order.order_type in_.channel
          generated t)
        λ _ t1 e1. Ensures-bind (
          Ensures-weaken
            (mark_used-Keeps orders_frame order.user_id order.id order.raw_request_json now t1)
            λ _ t2 e2. Ensures-bind (
              Ensures-weaken (accrue-SameOrders order product t2) λ _ t3 e3. Ensures-bind (
                Ensures-weaken (invoice-Keeps orders_frame order t3) λ _ t4 e4. Ensures-bind (
                  Ensures-insert _ _ λ _ _.
                    Ensures-pure tt (e4 ∙ e3 ∙ e2 ∙ e1, Seen-add_callback in_ "success" t4))))))

  -- A notice whose callback is there changes nothing.
  pub apply-Seen :
      (t : Tables)
      → Seen in_ t
      → Ensures (apply_payment_notify_success in_ generated now) (λ _ t'. t' ≡ t) t
  unfolding apply_payment_notify_success find_by_idempotency
  apply-Seen t (c, found) =
      Ensures-transaction (Ensures-bind (Ensures-query _ (rw found (Ensures-pure tt refl))))

  module _ (t : Tables) (o : UserOrders)
      (fresh : callback_of in_.channel in_.idempotency_key t.callbacks ≡ none)
      (found : order_by_out_trade_no in_.out_trade_no t.orders ≡ some o) where
    apply_fresh :
        {Q : Unit {0} → Tables → Type 0}
        → Ensures (apply_to_order in_ o generated now) Q t
        → Ensures (apply_payment_notify_success in_ generated now) Q t
    unfolding apply_payment_notify_success find_by_idempotency find_order_by_out_trade_no
    apply_fresh {Q} e = Ensures-transaction (
        Ensures-bind (
          Ensures-query _ (
            rw fresh
              (Ensures-bind (Ensures-query _ (Ensures-bind (rw found (Ensures-pure o e))))))))

    -- A completed order is not delivered again: at most an ignored callback is added.
    pub apply_completed :
        is_completed o.status ≡ true
        → Ensures
            (apply_payment_notify_success in_ generated now)
            (λ _ t'. (t' ≡ t) ⊎ (t' ≡ add_callback (callback_row in_ "ignored") t))
            t
    unfolding apply_to_order insert_callback create_callback
    apply_completed completed =
        apply_fresh (rw completed (Ensures-catch-insert _ t _ _ (inl refl) (λ _ _. inr refl)))

    -- A notice without a callback under its key, whose order is neither completed nor pending,
    -- never returns.
    pub apply_refuses :
        is_completed o.status ≡ false
        → is_pending_payment o.status ≡ false
        → Ensures (apply_payment_notify_success in_ generated now) (λ _ _. ⊥) t
    unfolding apply_to_order
    apply_refuses undone not_pending =
        apply_fresh (rw undone (Ensures-bind (rw not_pending (Ensures-raise _))))

    -- A notice without a callback under its key, whose order is not completed, found the order
    -- pending if it returns. It has set the order's status to completed, its trade number to that
    -- of the notice and its time of payment, has changed no other column and no other order, and
    -- has left a callback under the key.
    pub apply_completes :
        is_completed o.status ≡ false
        → Ensures
            (apply_payment_notify_success in_ generated now)
            (λ _ t'.
              (is_pending_payment o.status ≡ true)
              × (t'.orders
                  ≡ update_where
                      (λ r. r.id == o.id)
                      (λ r. record r {
                        status = OrderStatus.completed;
                        paid_at = some now;
                        third_trade_no = some in_.third_trade_no;
                      })
                      t.orders)
              × Seen in_ t')
            t
    unfolding apply_to_order complete_and_fulfill update_order update_order_fields
        find_product_by_id
    apply_completes undone = apply_fresh (
        rw undone (
          Ensures-bind (
            Ensures-raise_if (not (is_pending_payment o.status)) _ λ pending. Ensures-bind (
              Ensures-query _ (
                Ensures-bind (
                  Ensures-require _ _ λ product known. Ensures-bind (
                    Ensures-exec _ (
                      Ensures-weaken (deliver_delivers _ product _)
                        λ _ t' (kept, seen). (ground arith, kept, seen)))))))))

-- A notice that raises leaves every table as it was.
pub apply_atomic :
    (in_ : PaymentNotifyInput) (generated : Option String) (now : ℕ) (db db' : Db) (e : Error)
    → apply_payment_notify_success in_ generated now db ≡ err e db'
    → db'.tables ≡ db.tables
unfolding apply_payment_notify_success
apply_atomic in_ generated now db db' e h = transaction_rolls_back _ db h
