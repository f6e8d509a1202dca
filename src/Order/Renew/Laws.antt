-- ===== src/Order/Renew/Laws.antt =====
-- A renewal extends an active subscription, and takes nothing that was paid before.
use ai_token_mall.Prelude.{
  ℕ, ◌+◌, ◌*◌, ◌≤◌, ◌≡◌, refl, arith, true, not, some, ◌==◌, [], ◌∷◌, ◌++◌, update_where,
}
use ai_token_mall.Prelude.Int.{pos_part}
use ai_token_mall.Billing.{add_periods, nanoseconds_per_day}
use ai_token_mall.Billing.Cycles.{add_periods_closed, period_length_pos}
use ai_token_mall.Entity.{Products, UserOrders, UserSubscriptions, is_active}
use ai_token_mall.Store.Action.{Tables}
use ai_token_mall.Store.Ensures.{
  Ensures, Ensures-pure, Ensures-query, Ensures-exec, Ensures-bind, Ensures-require,
  Ensures-raise_if, Ensures-weaken,
}
use ai_token_mall.Store.Orders.{subscription_for_user}
use ai_token_mall.Store.Subscriptions.{find_one, update_subscription, set_subscription, reload}
use ai_token_mall.Order.Purchase.{paid_periods, days_of}
use ai_token_mall.Order.Renew.{
  find_subscription_for_renewal, renewal_anchor, renewed_expires, renew_row,
  renew_subscription_for_order,
}

paid_periods_pos : (order : UserOrders) → 1 ≤ pos_part (paid_periods order)
paid_periods_pos order = ground arith

-- At least one whole day is added to what is left.
day_added :
    (a n len : ℕ) → 1 ≤ n → nanoseconds_per_day ≤ len → a + nanoseconds_per_day ≤ a + n * len
day_added a n len h k = grind arith

-- The new end is later than the old end and than the time of the payment, by a day or more.
pub renewed_expires_later :
    (order : UserOrders) (product : Products) (expires_at now : ℕ)
    → (expires_at + nanoseconds_per_day ≤ renewed_expires order product expires_at now)
      × (now + nanoseconds_per_day ≤ renewed_expires order product expires_at now)
unfolding renewed_expires
renewed_expires_later order product expires_at now =
    let days = days_of product in
    let anchor = renewal_anchor expires_at now in
    let closed = add_periods_closed anchor days (paid_periods order) in
    let h : anchor + nanoseconds_per_day ≤ add_periods anchor days (paid_periods order) =
      rw closed (day_added anchor _ _ (paid_periods_pos order) (period_length_pos days)) in
    let old : expires_at ≤ anchor = ground arith in
    let paid : now ≤ anchor = ground arith in (omega arith, omega arith)

module _ (order : UserOrders) (product : Products) (now : ℕ) where
  -- What a renewal that returns found and wrote.
  pub renew_writes :
      (t : Tables) (s : UserSubscriptions)
      → subscription_for_user order.user_id order.user_subscription_id t.subscriptions ≡ some s
      → Ensures
          (renew_subscription_for_order order product now)
          (λ _ t'.
            (t' ≡ set_subscription s.id (renew_row order product s now) t)
            × (is_active s.status ≡ true)
            × (s.product_id ≡ order.product_id))
          t
  unfolding renew_subscription_for_order find_subscription_for_renewal find_one update_subscription
      reload
  renew_writes t s found = Ensures-bind (
      Ensures-bind (
        Ensures-raise_if (order.user_subscription_id == 0) _ λ given. Ensures-bind (
          Ensures-query _ (
            rw found (
              Ensures-pure s (
                Ensures-bind (
                  Ensures-raise_if (not (s.product_id == order.product_id)) _ λ same. Ensures-bind (
                    Ensures-raise_if (not (is_active s.status)) _ λ active. Ensures-bind (
                      Ensures-exec _ (
                        Ensures-bind (
                          Ensures-query _ (
                            Ensures-require _ _
                              λ row reloaded. (refl, ground arith, ground arith)))))))))))))

  -- A renewal that returns found the subscription of the order active and of the order's product.
  -- It has added the order to the orders of that subscription and moved its end to a time at least
  -- one day after the old end and after the time of the payment, and has changed nothing else.
  pub renew_extends :
      (t : Tables) (s : UserSubscriptions)
      → subscription_for_user order.user_id order.user_subscription_id t.subscriptions ≡ some s
      → Ensures
          (renew_subscription_for_order order product now)
          (λ _ t'.
            (is_active s.status ≡ true)
            × (s.product_id ≡ order.product_id)
            × (end : ℕ) × (s.expires_at + nanoseconds_per_day ≤ end)
            × (now + nanoseconds_per_day ≤ end)
            × (t' ≡ record t {
              subscriptions =
                  update_where
                    (λ r. r.id == s.id)
                    (λ r. record r { orders = s.orders ++ order.id ∷ []; expires_at = end })
                    t.subscriptions;
            }))
          t
  renew_extends t s found = Ensures-weaken (renew_writes t s found) λ _ t' w.
      let later = renewed_expires_later order product s.expires_at now in
      (w.1, w.2, renewed_expires order product s.expires_at now, later.0, later.1, w.0)
