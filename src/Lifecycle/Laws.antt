-- ===== src/Lifecycle/Laws.antt =====
-- What the scheduled job does to one subscription: books, resets and expiry.
use ai_token_mall.Prelude.{
  ℕ, ◌+◌, ◌≤◌, ◌<◌, ◌≡◌, refl, arith, not, ◌&&◌, ◌||◌, ltb, ◌==◌, ◌⊎◌, inl, inr, Option, none, some,
  [], ◌∷◌, ◌++◌, update_where,
}
use ai_token_mall.Prelude.Int.{pos, ltb_ℤ}
use ai_token_mall.Billing.{add_period, nanoseconds_per_day}
use ai_token_mall.Billing.Cycles.{period_length_pos}
use ai_token_mall.Entity.{
  SubscriptionStatus, KeyStatus, NotificationStatus, UserSubscriptions, UserNotifications, is_main,
  is_sub, is_rotated,
}
use ai_token_mall.Store.Action.{Tables}
use ai_token_mall.Store.Ensures.{
  Ensures, Ensures-pure, Ensures-query, Ensures-exec, Ensures-bind, Ensures-require, Ensures-if,
  Ensures-transaction,
}
use ai_token_mall.Store.Rules.{Ensures-create_notification}
use ai_token_mall.Store.Balances.{Reconciled, Solvent}
use ai_token_mall.Store.Keeps.{
  Keeps-pure, Keeps-query, Keeps-require, Keeps-if, Keeps-insert, Keeps-bind, Keeps-transaction,
}
use ai_token_mall.Store.Books.{Booked-frame, books_frame, KeepsBooks, books_of}
use ai_token_mall.Store.Users.{find_by_id_for_update}
use ai_token_mall.Store.Orders.{create_order, find_product_by_id}
use ai_token_mall.Store.Subscriptions.{active_by_id, find_active_for_update, update_subscription}
use ai_token_mall.Store.ApiKeys.{update_api_keys}
use ai_token_mall.Order.Purchase.{days_of}
use ai_token_mall.Order.Fulfill.Books.{balance_renewal-KeepsBooks}
use ai_token_mall.Lifecycle.{
  expire_active, if_active, expire_subscription, period_reset_main_and_sub_keys, reset_active,
  period_reset_subscription, is_due, renew_due, renew_active, auto_renew_subscription,
}

-- The tables after an expiry, written out: the status of the subscription and of its main and sub
-- keys that are not rotated, and the notification.
abbrev pub expired : UserSubscriptions → Tables → Tables
expired s t =
    let note : UserNotifications = record {
      user_id = s.user_id;
      user_subscription_id = some s.id;
      api_key_id = none;
      template_code = "subscription_expired";
      status = NotificationStatus.sent;
    } in
    record t {
      subscriptions =
          update_where (λ r. r.id == s.id) (λ r. record r { status = SubscriptionStatus.expired })
            t.subscriptions;
      api_keys =
          update_where
            (λ k.
              k.user_subscription_id == s.id
              && (is_main k.key_type || is_sub k.key_type)
              && not (is_rotated k.status))
            (λ k. record k { status = KeyStatus.expired }) t.api_keys;
      notifications = t.notifications ++ note ∷ [];
    }

-- The tables after a period reset, written out: the period that starts at the old end, and the
-- tokens of the subscription and of its keys.
abbrev pub reset : UserSubscriptions → ℕ → Tables → Tables
reset s new_end t = record t {
  subscriptions =
      update_where (λ r. r.id == s.id)
        (λ r. record r {
          period_start = s.period_end;
          period_end = new_end;
          limit_tokens = s.base_limit_tokens;
          used_tokens = pos 0;
        })
        t.subscriptions;
  api_keys =
      update_where
        (λ k. k.user_subscription_id == s.id && is_sub k.key_type && not (is_rotated k.status))
        (λ k. record k { used_tokens = pos 0 })
        (update_where
          (λ k. k.user_subscription_id == s.id && is_main k.key_type && not (is_rotated k.status))
          (λ k. record k { limit_tokens = s.base_limit_tokens; used_tokens = pos 0 }) t.api_keys);
}

module _ (id now : ℕ) (t : Tables) (s : UserSubscriptions)
    (found : active_by_id id t.subscriptions ≡ some s) where
  -- The expiry of an active subscription that returns has done nothing while the subscription's end
  -- is not past. Once it is past, it has set the status of the subscription, and of each of its
  -- main and sub keys that is not rotated, to expired, has added the notification, and has changed
  -- nothing else.
  pub expire_on_time :
      Ensures
        (expire_subscription id now)
        (λ _ t'. ((now ≤ s.expires_at) × (t' ≡ t)) ⊎ ((s.expires_at < now) × (t' ≡ expired s t)))
        t
  unfolding expire_subscription expire_active find_active_for_update update_subscription
      update_api_keys
  expire_on_time = Ensures-transaction (
      Ensures-bind (
        Ensures-query _ (
          rw found (
            Ensures-if (not (ltb s.expires_at now))
              (λ early. Ensures-pure tt (inl (ground arith, refl)))
              (λ late. Ensures-bind (
                Ensures-exec _ (
                  Ensures-bind (
                    Ensures-create_notification _
                      λ _. Ensures-exec _ (inr (ground arith, refl))))))))))

  -- A period reset of an active subscription that returns has done nothing while the period runs,
  -- nor in the last period. Otherwise the period now starts where the last one ended and is at
  -- least a day long; the subscription and its main keys that are not rotated have the base quota
  -- with nothing used, its sub keys that are not rotated have nothing used and keep their limits,
  -- and nothing else is changed.
  pub period_reset_resets :
      Ensures
        (period_reset_subscription id now)
        (λ _ t'.
          (((now ≤ s.period_end) ⊎ (s.expires_at ≤ s.period_end)) × (t' ≡ t))
          ⊎ ((s.period_end < now)
              × (s.period_end < s.expires_at)
              × (new_end : ℕ) × (s.period_end + nanoseconds_per_day ≤ new_end)
              × (t' ≡ reset s new_end t)))
        t
  unfolding period_reset_subscription reset_active find_active_for_update update_subscription
      update_api_keys period_reset_main_and_sub_keys find_product_by_id add_period
  period_reset_resets = Ensures-transaction (
      Ensures-bind (
        Ensures-query _ (
          rw found (
            Ensures-if (not (ltb s.period_end now))
              (λ early. Ensures-pure tt (inl (inl (ground arith), refl)))
              (λ over.
                Ensures-if (not (ltb s.period_end s.expires_at))
                  (λ last. Ensures-pure tt (inl (inr (ground arith), refl)))
                  (λ more. Ensures-bind (
                    Ensures-query _ (
                      Ensures-bind (
                        Ensures-require _ _ λ product known. Ensures-bind (
                          Ensures-exec _ (
                            Ensures-bind (
                              Ensures-exec _ (
                                Ensures-exec _ (
                                  let long = period_length_pos (days_of product) in
                                  inr
                                    (ground arith, ground arith, _, omega arith, refl)))))))))))))))

renew_due-KeepsBooks : (s : UserSubscriptions) (now : ℕ) → KeepsBooks (renew_due s now)
unfolding renew_due find_product_by_id find_by_id_for_update create_order
renew_due-KeepsBooks s now = Keeps-bind books_frame (Keeps-query books_frame _) λ p.
    Keeps-bind books_frame (Keeps-require books_frame p _) λ product.
      Keeps-bind books_frame (Keeps-query books_frame _) λ u.
        Keeps-bind books_frame (Keeps-require books_frame u _) λ user.
          Keeps-if books_frame (ltb_ℤ user.wallet_balance product.price) (Keeps-pure books_frame _)
            (Keeps-bind books_frame
              (Keeps-insert books_frame _ _ (λ _ t. Booked-frame t _ refl refl))
              λ n. balance_renewal-KeepsBooks _ product now)

if_active-KeepsBooks :
    (o : Option UserSubscriptions) (now : ℕ) → KeepsBooks (if_active (λ s. renew_active s now) o)
unfolding renew_active
if_active-KeepsBooks none now = Keeps-pure books_frame _
if_active-KeepsBooks (some s) now =
    Keeps-if books_frame (is_due s now) (renew_due-KeepsBooks s now) (Keeps-pure books_frame _)

-- An automatic renewal that returns, on tables without a negative balance: the flows that it adds
-- account for every change of a wallet or a commission, and no balance falls below zero.
pub auto_renew_keeps_books :
    (id now : ℕ) (t : Tables)
    → Solvent t
    → Ensures (auto_renew_subscription id now) (λ _ t'. Reconciled t t' × Solvent t') t
unfolding auto_renew_subscription find_active_for_update
auto_renew_keeps_books id now t h =
    books_of
      (Keeps-transaction books_frame
        (Keeps-bind books_frame (Keeps-query books_frame _) (λ o. if_active-KeepsBooks o now)))
      h
