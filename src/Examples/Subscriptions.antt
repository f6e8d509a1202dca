-- ===== src/Examples/Subscriptions.antt =====
-- Subscriptions in the shop: renewals, resets, expiry and addons.
use ai_token_mall.Prelude.{
  ℕ, ◌+◌, ◌*◌, ◌≤◌, ◌<◌, ◌≡◌, ◌⊎◌, refl, true, false, Option, some, none, arith, [], ◌∷◌, List,
  ◌++◌, not, ◌&&◌, count_where, update_where, ◌==◌,
}
use ai_token_mall.Prelude.Keys.{Unique}
use ai_token_mall.Prelude.Int.{ℤ, pos, ◌+ℤ◌}
use ai_token_mall.Billing.{
  add_periods, period_length, nanoseconds_per_day, count_upgrade_billing_cycles,
}
use ai_token_mall.Billing.Cycles.{Covers, count_upgrade_billing_cycles-Covers}
use ai_token_mall.Store.Action.{Outcome, ok, err}
use ai_token_mall.Store.Ensures.{Ensures}
use ai_token_mall.Store.Balances.{Solvent, Reconciled, wallet_of}
use ai_token_mall.Entity.{is_rotated}
use ai_token_mall.Order.Renew.{renew_subscription_for_order}
use ai_token_mall.Order.Renew.Laws.{renew_extends}
use ai_token_mall.Order.QuotaAddon.{fulfill_quota_addon_order_paid}
use ai_token_mall.Order.QuotaAddon.Laws.{quota_addon_adds}
use ai_token_mall.Lifecycle.{
  expire_subscription, period_reset_subscription, auto_renew_subscription,
}
use ai_token_mall.Lifecycle.Laws.{
  expired, reset, expire_on_time, period_reset_resets, auto_renew_keeps_books,
}
use ai_token_mall.Lifecycle.AutoRenewal.{auto_renew_once}
use ai_token_mall.Examples.{shop, shop-Solvent, renewal, plan, subscription, day, db_of}

Unique-ids : Unique (λ s. s.id) shop.subscriptions
unfolding count_where
Unique-ids k = ground arith

-- Day 25 is in the last week of the subscription.
auto_renew_once_example :
    Ensures
      (auto_renew_subscription 7 2160000000000000)
      (λ _ t'.
        (t' ≡ shop)
        ⊎ ((now' : ℕ) → Ensures (auto_renew_subscription 7 now') (λ _ t''. t'' ≡ t') t'))
      shop
auto_renew_once_example = auto_renew_once 7 2160000000000000 shop Unique-ids

auto_renew_keeps_books_example :
    Ensures
      (auto_renew_subscription 7 2160000000000000)
      (λ _ t'. Reconciled shop t' × Solvent t')
      shop
auto_renew_keeps_books_example = auto_renew_keeps_books 7 2160000000000000 shop shop-Solvent

expire_on_time_example :
    Ensures
      (expire_subscription 7 2592000000000001)
      (λ _ t'.
        ((2592000000000001 ≤ 2592000000000000) × (t' ≡ shop))
        ⊎ ((2592000000000000 < 2592000000000001) × (t' ≡ expired subscription shop)))
      shop
unfolding ai_token_mall.Store.Subscriptions.active_by_id ai_token_mall.Prelude.find_first
expire_on_time_example = expire_on_time 7 2592000000000001 shop subscription refl

period_reset_resets_example :
    Ensures
      (period_reset_subscription 7 2592000000000001)
      (λ _ t'.
        (((2592000000000001 ≤ 2592000000000000) ⊎ (2592000000000000 ≤ 2592000000000000))
          × (t' ≡ shop))
        ⊎ ((2592000000000000 < 2592000000000001)
            × (2592000000000000 < 2592000000000000)
            × (new_end : ℕ) × (2592000000000000 + nanoseconds_per_day ≤ new_end)
            × (t' ≡ reset subscription new_end shop)))
      shop
unfolding ai_token_mall.Store.Subscriptions.active_by_id ai_token_mall.Prelude.find_first
period_reset_resets_example = period_reset_resets 7 2592000000000001 shop subscription refl

renew_extends_example :
    Ensures
      (renew_subscription_for_order renewal plan day)
      (λ _ t'.
        (true ≡ true)
        × (plan.id ≡ 5)
        × (end : ℕ) × (2592000000000000 + nanoseconds_per_day ≤ end)
        × (day + nanoseconds_per_day ≤ end)
        × (t' ≡ record shop {
          subscriptions =
              update_where
                (λ r. r.id == 7)
                (λ r. record r {
                  orders = subscription.orders ++ renewal.id ∷ [];
                  expires_at = end;
                })
                shop.subscriptions;
        }))
      shop
unfolding ai_token_mall.Store.Orders.subscription_for_user ai_token_mall.Prelude.find_first
renew_extends_example = renew_extends renewal plan day shop subscription refl

quota_addon_adds_example :
    Ensures
      (fulfill_quota_addon_order_paid renewal plan "alipay")
      (λ _ t'.
        (true ≡ true)
        × (t'.subscriptions
            ≡ update_where
                (λ r. r.id == 7)
                (λ r. record r { limit_tokens = r.limit_tokens +ℤ pos 1000 })
                shop.subscriptions)
        × (t'.api_keys
            ≡ update_where
                (λ k. k.user_subscription_id == 7 && not (is_rotated k.status))
                (λ k. record k { limit_tokens = k.limit_tokens +ℤ pos 1000 })
                shop.api_keys))
      shop
unfolding ai_token_mall.Store.Orders.subscription_for_user ai_token_mall.Prelude.find_first
quota_addon_adds_example = quota_addon_adds renewal plan "alipay" shop subscription refl

count_upgrade_billing_cycles-Covers_example :
    Covers
      (period_length (pos 30))
      0
      5184000000000001
      1
      (count_upgrade_billing_cycles 0 5184000000000001 (pos 30))
count_upgrade_billing_cycles-Covers_example =
    count_upgrade_billing_cycles-Covers 0 5184000000000001 (pos 30)

abbrev wallet_after : Outcome (Unit {0}) → Option ℤ
wallet_after (ok a db) = some (wallet_of 2 db.tables)
wallet_after (err e db) = none

-- The automatic renewal takes the price of the plan from the wallet of 1000 yuan.
renewal_charges :
    wallet_after (auto_renew_subscription 7 2160000000000000 (db_of shop)) ≡ some (pos 90100)
unfolding ai_token_mall.Store.Action.pure ai_token_mall.Store.Action.raise
    ai_token_mall.Store.Action.◌>>=◌ ai_token_mall.Store.Action.consume
    ai_token_mall.Store.Action.statement ai_token_mall.Store.Action.query
    ai_token_mall.Store.Action.exec ai_token_mall.Store.Action.insert
    ai_token_mall.Store.Action.catch ai_token_mall.Store.Action.map_error
    ai_token_mall.Store.Action.transaction ai_token_mall.Store.Users.lookup_user
    ai_token_mall.Store.Users.update_user ai_token_mall.Store.Users.find_by_id_for_update
    ai_token_mall.Store.Users.apply_commission_delta
    ai_token_mall.Store.Users.transfer_commission_to_wallet
    ai_token_mall.Store.Users.apply_wallet_delta ai_token_mall.Store.Ledger.create_flow
    ai_token_mall.Store.Ledger.record_of_order ai_token_mall.Store.Ledger.find_record_by_order_id
    ai_token_mall.Store.Ledger.create_record ai_token_mall.Store.Ledger.create_withdrawal
    ai_token_mall.Store.Ledger.create_notification ai_token_mall.Store.Ledger.create_invoice
    ai_token_mall.Store.Ledger.vip_config_of ai_token_mall.Store.Ledger.find_vip_config_by_id
    ai_token_mall.Store.Ledger.find_default_vip_config ai_token_mall.Store.Ledger.find_payout
    ai_token_mall.Store.Orders.create_order
    ai_token_mall.Store.Orders.create_order_replacing_pending
    ai_token_mall.Store.Orders.order_by_out_trade_no
    ai_token_mall.Store.Orders.find_order_by_out_trade_no ai_token_mall.Store.Orders.update_order
    ai_token_mall.Store.Orders.update_order_fields ai_token_mall.Store.Orders.subscription_for_user
    ai_token_mall.Store.Orders.find_subscription_for_user
    ai_token_mall.Store.Orders.find_product_by_id ai_token_mall.Store.Orders.find_on_sale_by_id
    ai_token_mall.Store.Subscriptions.find_one ai_token_mall.Store.Subscriptions.active_by_id
    ai_token_mall.Store.Subscriptions.find_active_for_update
    ai_token_mall.Store.Subscriptions.subscription_by_id ai_token_mall.Store.Subscriptions.reload
    ai_token_mall.Store.Subscriptions.create_subscription
    ai_token_mall.Store.Subscriptions.update_subscription
    ai_token_mall.Store.Subscriptions.list_active_ids ai_token_mall.Store.ApiKeys.create_api_key
    ai_token_mall.Store.ApiKeys.update_api_keys
    ai_token_mall.Store.ApiKeys.find_active_enterprise_user_by_linked_user_id
    ai_token_mall.Store.ApiKeys.latest_enterprise_inquiry_id_by_owner
    ai_token_mall.Store.ApiKeys.fields_of_member
    ai_token_mall.Store.ApiKeys.main_api_key_enterprise_fields
    ai_token_mall.Store.Callbacks.callback_of ai_token_mall.Store.Callbacks.find_by_idempotency
    ai_token_mall.Store.Callbacks.create_callback ai_token_mall.Store.Coupons.coupon_for_user
    ai_token_mall.Store.Coupons.find_coupon_for_user ai_token_mall.Store.Coupons.mark_coupon_used
    ai_token_mall.Store.Coupons.expire_available_before ai_token_mall.Prelude.find_first
    ai_token_mall.Prelude.find_last ai_token_mall.Prelude.update_where
    ai_token_mall.Prelude.exists_where ai_token_mall.Prelude.count_where ai_token_mall.Text.codes_eq
    ai_token_mall.Order.Fulfill.insert_callback
    ai_token_mall.Order.Fulfill.fulfill_paid_order_by_type
    ai_token_mall.Order.Fulfill.create_order_invoice ai_token_mall.Order.Fulfill.deliver
    ai_token_mall.Order.Fulfill.complete_and_fulfill ai_token_mall.Order.Fulfill.apply_to_order
    ai_token_mall.Order.Fulfill.apply_payment_notify_success
    ai_token_mall.Order.Fulfill.fulfill_balance_renewal_in_tx
    ai_token_mall.Order.Payment.insert_subscription_order_notification
    ai_token_mall.Order.Payment.deduct_balance_and_record_flow
    ai_token_mall.Order.Purchase.create_subscription_for_purchase
    ai_token_mall.Order.Purchase.create_api_key_for_new_subscription
    ai_token_mall.Order.Purchase.fulfill_purchase_order_paid
    ai_token_mall.Order.Renew.find_subscription_for_renewal
    ai_token_mall.Order.Renew.renewed_expires ai_token_mall.Order.Renew.renew_subscription_for_order
    ai_token_mall.Order.Renew.reactivate_subscription_api_keys
    ai_token_mall.Order.Renew.fulfill_renewal_order_paid
    ai_token_mall.Order.Upgrade.upgrade_subscription_for_order
    ai_token_mall.Order.Upgrade.sync_api_keys_after_upgrade
    ai_token_mall.Order.Upgrade.fulfill_upgrade_order_paid
    ai_token_mall.Order.QuotaAddon.load_subscription_for_quota_addon
    ai_token_mall.Order.QuotaAddon.fulfill_quota_addon_order_paid
    ai_token_mall.Coupon.discount_amount ai_token_mall.Coupon.is_coupon_usable
    ai_token_mall.Coupon.resolve_for_checkout ai_token_mall.Coupon.mark_used_from_order_raw_request
    ai_token_mall.Coupon.run_coupon_expire ai_token_mall.Rebate.OrderRebate.rebate_rate_for_inviter
    ai_token_mall.Rebate.OrderRebate.rebate_of
    ai_token_mall.Rebate.OrderRebate.accrue_invite_rebate_for_paid_order
    ai_token_mall.Money.round_div ai_token_mall.Money.mul_qty
    ai_token_mall.Money.add_invoice_surcharge ai_token_mall.Prelude.Int.◌+ℤ◌
    ai_token_mall.Prelude.Int.◌-ℤ◌ ai_token_mall.Prelude.Int.◌*ℤ◌ ai_token_mall.Prelude.Int.neg_ℤ
    ai_token_mall.Prelude.Int.wrap_64 ai_token_mall.Billing.period_days
    ai_token_mall.Billing.period_length ai_token_mall.Billing.add_period
    ai_token_mall.Billing.add_periods ai_token_mall.Billing.upgrade_cycles_from
    ai_token_mall.Billing.count_upgrade_billing_cycles ai_token_mall.Lifecycle.expire_active
    ai_token_mall.Lifecycle.expire_subscription
    ai_token_mall.Lifecycle.period_reset_main_and_sub_keys ai_token_mall.Lifecycle.reset_active
    ai_token_mall.Lifecycle.period_reset_subscription ai_token_mall.Lifecycle.renew_due
    ai_token_mall.Lifecycle.renew_active ai_token_mall.Lifecycle.auto_renew_subscription
    ai_token_mall.Lifecycle.run_each ai_token_mall.Lifecycle.run_active
    ai_token_mall.Lifecycle.run_subscription_lifecycle ai_token_mall.Text.decimal
renewal_charges = refl
