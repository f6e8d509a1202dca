-- ===== src/Lifecycle/AutoRenewal.antt =====
-- auto_renew.go: the renewal that the balance pays happens once for the end of a subscription.
use ai_token_mall.Prelude.{
  ℕ, ◌+◌, ◌/◌, ◌≤◌, ◌<◌, ◌≡◌, refl, ap, ◌∙◌, arith, true, false, ◌&&◌, ◌==◌, ==_refl, ◌⊎◌, inl, inr,
  Option, none, some, find_first, find_first_sound, update_where,
}
use ai_token_mall.Prelude.Keys.{Unique, find_first_same, find_first_updated}
use ai_token_mall.Prelude.Int.{ltb_ℤ}
use ai_token_mall.Billing.{nanoseconds_per_day}
use ai_token_mall.Entity.{Products, UserOrders, UserSubscriptions, is_active}
use ai_token_mall.Store.Action.{Tables}
use ai_token_mall.Store.Ensures.{
  Ensures, Ensures-pure, Ensures-query, Ensures-insert, Ensures-exec, Ensures-bind, Ensures-require,
  Ensures-if, Ensures-transaction, Ensures-weaken,
}
use ai_token_mall.Store.Rules.{Ensures-find_by_id_for_update, Ensures-create_notification}
use ai_token_mall.Store.Orders.{subscription_for_user, find_product_by_id, create_order}
use ai_token_mall.Store.Subscriptions.{active_by_id, find_active_for_update}
use ai_token_mall.Store.ApiKeys.{update_api_keys}
use ai_token_mall.Rebate.OrderRebate.Accrual.{Accrues, accrue-Accrues}
use ai_token_mall.Order.Payment.{insert_subscription_order_notification}
use ai_token_mall.Order.Renew.{renew_row, reactivate_subscription_api_keys}
use ai_token_mall.Order.Renew.Laws.{renew_writes, renewed_expires_later}
use ai_token_mall.Order.QuotaAddon.Laws.{deduct_keeps_plans}
use ai_token_mall.Order.Fulfill.{fulfill_balance_renewal_in_tx}
use ai_token_mall.Lifecycle.{
  is_due, renew_due, renew_active, if_active, auto_renew_subscription, nanoseconds_per_second,
}

Accrues-subscriptions :
    (order : UserOrders) (product : Products) (t t' : Tables)
    → Accrues order product t t'
    → t'.subscriptions ≡ t.subscriptions
Accrues-subscriptions order product t t' (inl same) = ap (λ s. s.subscriptions) same
Accrues-subscriptions order product t t' (inr s) = ap (λ s. s.subscriptions) s.result

balance_renewal_extends :
    (order : UserOrders) (product : Products) (now : ℕ) (t : Tables) (s : UserSubscriptions)
    → subscription_for_user order.user_id order.user_subscription_id t.subscriptions ≡ some s
    → Ensures
        (fulfill_balance_renewal_in_tx order product now)
        (λ _ t'.
          t'.subscriptions
          ≡ update_where (λ r. r.id == s.id) (renew_row order product s now) t.subscriptions)
        t
unfolding fulfill_balance_renewal_in_tx reactivate_subscription_api_keys update_api_keys
    insert_subscription_order_notification
balance_renewal_extends order product now t s found = Ensures-bind (
    Ensures-weaken (deduct_keeps_plans order "balance" t) λ _ t1 (subs, keys). Ensures-bind (
      Ensures-weaken (renew_writes order product now t1 s (rw subs found)) λ sub t2 x.
        Ensures-bind (
          Ensures-exec _ (
            Ensures-bind (
              Ensures-create_notification _ λ _.
                Ensures-weaken (accrue-Accrues order product _) λ _ t' a.
                  Accrues-subscriptions order product _ t' a
                  ∙ ap (λ u. u.subscriptions) x.0
                  ∙ ap (update_where (λ r. r.id == s.id) (renew_row order product s now)) subs)))))

-- The last period is over before the subscription ends, so no renewal is due at any time.
abbrev pub PaidAhead : ℕ → Tables → Type 0
PaidAhead id t =
    (s : UserSubscriptions) × (active_by_id id t.subscriptions ≡ some s)
    × (s.period_end / nanoseconds_per_second < s.expires_at / nanoseconds_per_second)

not_due :
    (s : UserSubscriptions) (now : ℕ)
    → s.period_end / nanoseconds_per_second < s.expires_at / nanoseconds_per_second
    → is_due s now ≡ false
not_due s now h = ground arith

due_ends :
    (s : UserSubscriptions) (now : ℕ)
    → is_due s now ≡ true
    → s.period_end / nanoseconds_per_second ≡ s.expires_at / nanoseconds_per_second
due_ends s now h = ground arith

later_second :
    (p e e' : ℕ)
    → p / nanoseconds_per_second ≡ e / nanoseconds_per_second
    → e + nanoseconds_per_day ≤ e'
    → p / nanoseconds_per_second < e' / nanoseconds_per_second
later_second p e e' h k = omega arith

module _ (id now : ℕ) (t : Tables) (unique : Unique (λ s. s.id) t.subscriptions) where
  -- Unchanged, or paid ahead.
  abbrev Settled : Tables → Type 0
  Settled t' = (t' ≡ t) ⊎ PaidAhead id t'

  own_row :
      (s : UserSubscriptions)
      → active_by_id id t.subscriptions ≡ some s
      → subscription_for_user s.user_id s.id t.subscriptions ≡ some s
  unfolding active_by_id subscription_for_user
  own_row s found =
      find_first_same (λ r. r.id) _ _ t.subscriptions s unique found (ground arith)
        (λ b h. ground arith)

  renewed_ahead :
      (s : UserSubscriptions) (order : UserOrders) (product : Products) (t' : Tables)
      → active_by_id id t.subscriptions ≡ some s
      → is_due s now ≡ true
      → t'.subscriptions
        ≡ update_where (λ r. r.id == s.id) (renew_row order product s now) t.subscriptions
      → PaidAhead id t'
  unfolding active_by_id
  renewed_ahead s order product t' found due result =
      let passes =
        find_first_sound (λ r. r.id == id && is_active r.status) t.subscriptions s found in
      (
        renew_row order product s now s,
        ap (find_first (λ r. r.id == id && is_active r.status)) result
            ∙ find_first_updated (λ r. r.id) (λ r. r.id == id && is_active r.status)
                (λ r. r.id == s.id) (renew_row order product s now) t.subscriptions s unique found
                passes (==_refl s.id) (λ b h. ground arith),
        later_second s.period_end s.expires_at _ (due_ends s now due)
            (renewed_expires_later order product s.expires_at now).0,
      )

  renew_due_settles :
      (s : UserSubscriptions)
      → active_by_id id t.subscriptions ≡ some s
      → is_due s now ≡ true
      → Ensures (renew_due s now) (λ _. Settled) t
  unfolding renew_due find_product_by_id create_order
  renew_due_settles s found due = Ensures-bind (
      Ensures-query _ (
        Ensures-bind (
          Ensures-require _ _ λ product known. Ensures-bind (
            Ensures-find_by_id_for_update s.user_id (
              Ensures-bind (
                Ensures-require _ _ λ user there.
                  Ensures-if (ltb_ℤ user.wallet_balance product.price)
                    (λ _. Ensures-pure tt (inl refl))
                    (λ _. Ensures-bind (
                      Ensures-insert _ _ λ n _.
                        Ensures-weaken (balance_renewal_extends _ product now _ s (own_row s found))
                          λ _ t' e. inr (renewed_ahead s _ product t' found due e)))))))))

  found_settles :
      (o : Option UserSubscriptions)
      → active_by_id id t.subscriptions ≡ o
      → Ensures (if_active (λ s. renew_active s now) o) (λ _. Settled) t
  unfolding renew_active
  found_settles none found = Ensures-pure tt (inl refl)
  found_settles (some s) found =
      Ensures-if (is_due s now) (renew_due_settles s found) (λ _. Ensures-pure tt (inl refl))

  auto_renew_settles : Ensures (auto_renew_subscription id now) (λ _. Settled) t
  unfolding auto_renew_subscription find_active_for_update
  auto_renew_settles = Ensures-transaction (Ensures-bind (Ensures-query _ (found_settles _ refl)))

ahead_stays :
    (id now : ℕ) (t : Tables)
    → PaidAhead id t
    → Ensures (auto_renew_subscription id now) (λ _ t'. t' ≡ t) t
unfolding auto_renew_subscription find_active_for_update renew_active
ahead_stays id now t (s, found, ahead) =
    Ensures-transaction
      (Ensures-bind (Ensures-query _ (rw found (rw (not_due s now ahead) (Ensures-pure tt refl)))))

-- The ids of subscriptions being unique, an automatic renewal that returns has changed nothing, or
-- has paid the subscription ahead: until its period moves on, a further automatic renewal at any
-- time changes nothing, so the balance is not charged twice.
pub auto_renew_once :
    (id now : ℕ) (t : Tables)
    → Unique (λ s. s.id) t.subscriptions
    → Ensures
        (auto_renew_subscription id now)
        (λ _ t'.
          (t' ≡ t)
          ⊎ ((now' : ℕ) → Ensures (auto_renew_subscription id now') (λ _ t''. t'' ≡ t') t'))
        t
auto_renew_once id now t unique = Ensures-weaken (auto_renew_settles id now t unique) λ _ t' r.
    elim r [ inl same ↦ inl same | inr ahead ↦ inr (λ now'. ahead_stays id now' t' ahead) ]
