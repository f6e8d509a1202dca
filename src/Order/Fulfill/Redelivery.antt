-- ===== src/Order/Fulfill/Redelivery.antt =====
-- The gateway may send a notice again, with the same or with another key: later notices of one order.
use ai_token_mall.Prelude.{
  ℕ, ◌≡◌, refl, ap, ◌∙◌, true, false, ◌==◌, ==_refl, ◌⊎◌, inl, inr, Option, none, some, List,
  Option-cases, Bool-cases, String, find_first_rewritten, update_where,
}
use ai_token_mall.Text.{codes_eq}
use ai_token_mall.Entity.{OrderStatus, UserOrders, is_completed}
use ai_token_mall.Store.Action.{Tables}
use ai_token_mall.Store.Ensures.{
  Ensures, Ensures-raise, Ensures-query, Ensures-bind, Ensures-transaction, Ensures-weaken,
}
use ai_token_mall.Store.Yields.{Yields, Yields-pure, Yields-query, Yields-bind, Yields-transaction}
use ai_token_mall.Store.Orders.{order_by_out_trade_no, find_order_by_out_trade_no}
use ai_token_mall.Store.Callbacks.{callback_of, find_by_idempotency, add_callback}
use ai_token_mall.Order.Fulfill.{PaymentNotifyInput, callback_row, apply_payment_notify_success}
use ai_token_mall.Order.Fulfill.Laws.{Seen, apply-Seen, apply_completed, apply_completes}

-- The order with the number is completed.
abbrev pub Completed : List ℕ → Tables → Type 0
Completed out_trade_no t =
    (o : UserOrders) × (order_by_out_trade_no out_trade_no t.orders ≡ some o)
    × (is_completed o.status ≡ true)

-- At most an ignored callback apart.
abbrev pub Untouched : PaymentNotifyInput → Tables → Tables → Type 0
Untouched in_ t t' = (t' ≡ t) ⊎ (t' ≡ add_callback (callback_row in_ "ignored") t)

-- The notice `again`, for the order of `in_`.
abbrev pub for_order_of : PaymentNotifyInput → PaymentNotifyInput → PaymentNotifyInput
for_order_of in_ again = record again { out_trade_no = in_.out_trade_no }

module _ (in_ : PaymentNotifyInput) (generated : Option String) (now : ℕ) where
  Completed-Untouched :
      (t t' : Tables)
      → Completed in_.out_trade_no t
      → Untouched in_ t t'
      → Completed in_.out_trade_no t'
  Completed-Untouched t t' (o, found, completed) (inl same) =
      (o, ap (λ s. order_by_out_trade_no in_.out_trade_no s.orders) same ∙ found, completed)
  Completed-Untouched t t' (o, found, completed) (inr added) =
      (o, ap (λ s. order_by_out_trade_no in_.out_trade_no s.orders) added ∙ found, completed)

  -- The order that was completed is still found under its number.
  completed_found :
      (t t' : Tables) (o : UserOrders)
      → order_by_out_trade_no in_.out_trade_no t.orders ≡ some o
      → t'.orders
        ≡ update_where
            (λ r. r.id == o.id)
            (λ r. record r {
              status = OrderStatus.completed;
              paid_at = some now;
              third_trade_no = some in_.third_trade_no;
            })
            t.orders
      → Completed in_.out_trade_no t'
  unfolding order_by_out_trade_no
  completed_found t t' o found result = (
    _,
    ap (order_by_out_trade_no in_.out_trade_no) result
        ∙ find_first_rewritten (λ r. codes_eq r.out_trade_no in_.out_trade_no) (λ r. r.id == o.id) _
            (λ r. refl) t.orders o found (==_refl o.id),
    refl,
  )

  fresh_missing :
      {Q : Unit {0} → Tables → Type 0} (t : Tables)
      → callback_of in_.channel in_.idempotency_key t.callbacks ≡ none
      → order_by_out_trade_no in_.out_trade_no t.orders ≡ none
      → Ensures (apply_payment_notify_success in_ generated now) Q t
  unfolding apply_payment_notify_success find_by_idempotency find_order_by_out_trade_no
  fresh_missing t fresh missing = Ensures-transaction (
      Ensures-bind (
        Ensures-query _ (
          rw fresh (Ensures-bind (Ensures-query _ (Ensures-bind (rw missing (Ensures-raise _))))))))

  -- A notice under a new key that returns leaves its order completed.
  fresh-Completed :
      (t : Tables)
      → callback_of in_.channel in_.idempotency_key t.callbacks ≡ none
      → Ensures (apply_payment_notify_success in_ generated now) (λ _. Completed in_.out_trade_no) t
  fresh-Completed t fresh = elim (Option-cases (order_by_out_trade_no in_.out_trade_no t.orders)) [
    | inl missing ↦ fresh_missing t fresh missing
    | inr (o, found) ↦ elim (Bool-cases (is_completed o.status)) [
      | inl completed ↦
          Ensures-weaken (apply_completed in_ generated now t o fresh found completed)
            λ _ t' u. Completed-Untouched t t' (o, found, completed) u
      | inr undone ↦
          Ensures-weaken (apply_completes in_ generated now t o fresh found undone)
            λ _ t' r. completed_found t t' o found r.1
    ]
  ]

  -- A notice for a completed order changes nothing, but for an ignored callback.
  Completed-again :
      (t : Tables)
      → Completed in_.out_trade_no t
      → Ensures (apply_payment_notify_success in_ generated now) (λ _. Untouched in_ t) t
  Completed-again t (o, found, completed) =
      elim (Option-cases (callback_of in_.channel in_.idempotency_key t.callbacks)) [
        | inr seen ↦ Ensures-weaken (apply-Seen in_ generated now t seen) (λ _ t' same. inl same)
        | inl fresh ↦ apply_completed in_ generated now t o fresh found completed
      ]

-- A notice that had no callback under its key and that returns has left its order completed. While
-- the orders are then as it left them, whatever the other tables hold, any later notice for that
-- order that returns, whatever its channel, key, trade number and time, has changed no table but
-- for at most one ignored callback.
pub apply_once :
    (in_ : PaymentNotifyInput) (generated : Option String) (now : ℕ) (t : Tables)
    → callback_of in_.channel in_.idempotency_key t.callbacks ≡ none
    → Ensures
        (apply_payment_notify_success in_ generated now)
        (λ _ t'.
          Completed in_.out_trade_no t'
          × ((again : PaymentNotifyInput) (generated' : Option String) (now' : ℕ) (later : Tables)
              → Ensures
                  (apply_payment_notify_success (for_order_of in_ again) generated' now')
                  (λ _. Untouched (for_order_of in_ again) (record later { orders = t'.orders }))
                  (record later { orders = t'.orders })))
        t
apply_once in_ generated now t fresh =
    Ensures-weaken (fresh-Completed in_ generated now t fresh) λ _ t' done. (
      done,
      λ again generated' now' later.
          Completed-again (for_order_of in_ again) generated' now'
            (record later { orders = t'.orders }) done,
    )

Seen-acknowledged :
    (in_ : PaymentNotifyInput) (generated : Option String) (now : ℕ) (t : Tables)
    → Seen in_ t
    → Yields (apply_payment_notify_success in_ generated now) (λ _ t'. t' ≡ t) t
unfolding apply_payment_notify_success find_by_idempotency
Seen-acknowledged in_ generated now t (c, found) =
    Yields-transaction (Yields-bind (Yields-query _ (rw found (Yields-pure tt refl))))

-- Once the first notice of an order has returned, a repeated delivery of it during which no
-- statement fails returns, so the gateway gets its acknowledgement, and leaves every table as it
-- is.
pub apply_acknowledges :
    (in_ : PaymentNotifyInput) (generated generated' : Option String) (now now' : ℕ) (t : Tables)
    (o : UserOrders)
    → callback_of in_.channel in_.idempotency_key t.callbacks ≡ none
    → order_by_out_trade_no in_.out_trade_no t.orders ≡ some o
    → is_completed o.status ≡ false
    → Ensures
        (apply_payment_notify_success in_ generated now)
        (λ _ t'. Yields (apply_payment_notify_success in_ generated' now') (λ _ t''. t'' ≡ t') t')
        t
apply_acknowledges in_ generated generated' now now' t o fresh found undone =
    Ensures-weaken (apply_completes in_ generated now t o fresh found undone)
      (λ _ t' r. Seen-acknowledged in_ generated' now' t' r.2)
