-- ===== src/Order/QuotaAddon/Laws.antt =====
-- A quota addon adds the same tokens to an active subscription and to each of its live keys.
use ai_token_mall.Prelude.{
  ◌≡◌, refl, arith, true, not, ◌&&◌, some, String, str_eq, ◌==◌, update_where,
}
use ai_token_mall.Prelude.Int.{◌+ℤ◌}
use ai_token_mall.Entity.{Products, UserOrders, UserSubscriptions, is_active, is_rotated}
use ai_token_mall.Store.Action.{Tables}
use ai_token_mall.Store.Ensures.{
  Ensures, Ensures-pure, Ensures-query, Ensures-exec, Ensures-bind, Ensures-require,
  Ensures-raise_if, Ensures-weaken, Ensures-map_error, Ensures-if,
}
use ai_token_mall.Store.Rules.{
  Ensures-create_notification, Ensures-create_flow, Ensures-apply_wallet_delta,
}
use ai_token_mall.Store.Orders.{subscription_for_user}
use ai_token_mall.Store.Subscriptions.{find_one, update_subscription, reload}
use ai_token_mall.Store.ApiKeys.{update_api_keys}
use ai_token_mall.Order.Payment.{
  insert_subscription_order_notification, deduct_balance_and_record_flow,
}
use ai_token_mall.Order.QuotaAddon.{
  load_subscription_for_quota_addon, quota_addon_error, fulfill_quota_addon_order_paid,
}

pub deduct_keeps_plans :
    (order : UserOrders) (channel : String) (t : Tables)
    → Ensures
        (deduct_balance_and_record_flow order channel)
        (λ _ t'. (t'.subscriptions ≡ t.subscriptions) × (t'.api_keys ≡ t.api_keys))
        t
unfolding deduct_balance_and_record_flow
deduct_keeps_plans order channel t =
    Ensures-if (str_eq channel "balance")
      (λ _. Ensures-bind (
        Ensures-apply_wallet_delta order.user_id _
          λ u found covered. Ensures-create_flow _ λ _ _. (refl, refl)))
      (λ _. Ensures-create_flow _ λ _ _. (refl, refl))

-- A quota addon that returns found the subscription of the order active. It has added the tokens of
-- the product to the limit of that subscription and of each of its keys that is not rotated, and
-- changed no other column of a subscription or a key.
pub quota_addon_adds :
    (order : UserOrders) (product : Products) (channel : String) (t : Tables)
    (s : UserSubscriptions)
    → subscription_for_user order.user_id order.user_subscription_id t.subscriptions ≡ some s
    → Ensures
        (fulfill_quota_addon_order_paid order product channel)
        (λ _ t'.
          (is_active s.status ≡ true)
          × (t'.subscriptions
              ≡ update_where
                  (λ r. r.id == s.id)
                  (λ r. record r { limit_tokens = r.limit_tokens +ℤ product.limit_tokens })
                  t.subscriptions)
          × (t'.api_keys
              ≡ update_where
                  (λ k. k.user_subscription_id == s.id && not (is_rotated k.status))
                  (λ k. record k { limit_tokens = k.limit_tokens +ℤ product.limit_tokens })
                  t.api_keys))
        t
unfolding fulfill_quota_addon_order_paid load_subscription_for_quota_addon find_one
    update_subscription reload update_api_keys insert_subscription_order_notification
quota_addon_adds order product channel t s found = Ensures-bind (
    Ensures-map_error quota_addon_error (
      Ensures-bind (
        Ensures-raise_if (order.user_subscription_id == 0) _ λ given. Ensures-bind (
          Ensures-query _ (
            rw found (
              Ensures-pure s (
                Ensures-bind (
                  Ensures-raise_if (not (is_active s.status)) _ λ active. Ensures-bind (
                    Ensures-exec _ (
                      Ensures-bind (
                        Ensures-bind (
                          Ensures-query _ (
                            Ensures-require _ _ λ row reloaded. Ensures-bind (
                              Ensures-exec _ (
                                Ensures-bind (
                                  Ensures-create_notification _ λ _.
                                    Ensures-weaken (deduct_keeps_plans order channel _)
                                      λ _ t' (subs, keys).
                                        (ground arith, subs, keys)))))))))))))))))
