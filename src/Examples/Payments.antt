-- ===== src/Examples/Payments.antt =====
-- Notices of payments in the shop.
use ai_token_mall.Prelude.{
  ℕ, String, ◌≡◌, refl, ◌⊎◌, true, false, Bool, ◌==◌, Option, none, some, List, [], ◌∷◌,
  update_where,
}
use ai_token_mall.Prelude.Int.{ℤ, pos, ◌≤ℤ◌}
use ai_token_mall.Text.{codes, trim_space, to_upper}
use ai_token_mall.Entity.{OrderStatus, UserOrders}
use ai_token_mall.Store.Action.{Tables, Db, Outcome, ok, err, Error}
use ai_token_mall.Store.Ensures.{Ensures}
use ai_token_mall.Store.Yields.{Yields}
use ai_token_mall.Store.Balances.{Solvent, Reconciled}
use ai_token_mall.Store.Users.{lookup_user}
use ai_token_mall.Store.Orders.{order_by_out_trade_no}
use ai_token_mall.Order.Fulfill.{PaymentNotifyInput, apply_payment_notify_success}
use ai_token_mall.Order.Fulfill.Laws.{Seen, apply_refuses, apply_completes}
use ai_token_mall.Order.Fulfill.Redelivery.{
  Completed, Untouched, for_order_of, apply_once, apply_acknowledges,
}
use ai_token_mall.Order.Fulfill.Books.{apply_keeps_books}
use ai_token_mall.Order.Notify.{PaymentNotifyReq, handle_payment_notify}
use ai_token_mall.Order.Notify.Laws.{handle_atomic, handle_accepts}
use ai_token_mall.Order.Channel.{normalize_pay_channel}
use ai_token_mall.Examples.{notice, shop-Solvent, shop, shop_with, purchase, cancelled, db_of}

abbrev is_ok : {A : Type 0} → Outcome A → Bool
is_ok (ok a db) = true
is_ok (err e db) = false

-- The notice of the purchase is delivered, and again.
notice_delivers : is_ok (apply_payment_notify_success notice (some "h9") 60 (db_of shop)) ≡ true
unfolding ai_token_mall.Store.Action.pure ai_token_mall.Store.Action.raise
    ai_token_mall.Store.Action.◌>>=◌ ai_token_mall.Store.Action.consume
    ai_token_mall.Store.Action.statement ai_token_mall.Store.Action.query
    ai_token_mall.Store.Action.exec ai_token_mall.Store.Action.insert
    ai_token_mall.Store.Action.catch ai_token_mall.Store.Action.map_error
    ai_token_mall.Store.Action.transaction ai_token_mall.Store.Users.lookup_user
    ai_token_mall.Store.Users.update_user ai_token_mall.Store.Users.find_by_id_for_update
    ai_token_mall.Store.Users.apply_commission_delta
    ai_token_mall.Store.Users.transfer_commission_to_wallet
    ai_token_mall.Store.Users.apply_wallet_delta ai_token_mall.Store.Ledger.create_flow
    ai_token_mall.Store.Ledger.record_of_order ai_token_mall.Store.Ledger.find_record_by_order_id
    ai_token_mall.Store.Ledger.create_record ai_token_mall.Store.Ledger.create_withdrawal
    ai_token_mall.Store.Ledger.create_notification ai_token_mall.Store.Ledger.create_invoice
    ai_token_mall.Store.Ledger.vip_config_of ai_token_mall.Store.Ledger.find_vip_config_by_id
    ai_token_mall.Store.Ledger.find_default_vip_config ai_token_mall.Store.Ledger.find_payout
    ai_token_mall.Store.Orders.create_order
    ai_token_mall.Store.Orders.create_order_replacing_pending
    ai_token_mall.Store.Orders.order_by_out_trade_no
    ai_token_mall.Store.Orders.find_order_by_out_trade_no ai_token_mall.Store.Orders.update_order
    ai_token_mall.Store.Orders.update_order_fields ai_token_mall.Store.Orders.subscription_for_user
    ai_token_mall.Store.Orders.find_subscription_for_user
    ai_token_mall.Store.Orders.find_product_by_id ai_token_mall.Store.Orders.find_on_sale_by_id
    ai_token_mall.Store.Subscriptions.find_one ai_token_mall.Store.Subscriptions.active_by_id
    ai_token_mall.Store.Subscriptions.find_active_for_update
    ai_token_mall.Store.Subscriptions.subscription_by_id ai_token_mall.Store.Subscriptions.reload
    ai_token_mall.Store.Subscriptions.create_subscription
    ai_token_mall.Store.Subscriptions.update_subscription
    ai_token_mall.Store.Subscriptions.list_active_ids ai_token_mall.Store.ApiKeys.create_api_key
    ai_token_mall.Store.ApiKeys.update_api_keys
    ai_token_mall.Store.ApiKeys.find_active_enterprise_user_by_linked_user_id
    ai_token_mall.Store.ApiKeys.latest_enterprise_inquiry_id_by_owner
    ai_token_mall.Store.ApiKeys.fields_of_member
    ai_token_mall.Store.ApiKeys.main_api_key_enterprise_fields
    ai_token_mall.Store.Callbacks.callback_of ai_token_mall.Store.Callbacks.find_by_idempotency
    ai_token_mall.Store.Callbacks.create_callback ai_token_mall.Store.Coupons.coupon_for_user
    ai_token_mall.Store.Coupons.find_coupon_for_user ai_token_mall.Store.Coupons.mark_coupon_used
    ai_token_mall.Store.Coupons.expire_available_before ai_token_mall.Prelude.find_first
    ai_token_mall.Prelude.find_last ai_token_mall.Prelude.update_where
    ai_token_mall.Prelude.exists_where ai_token_mall.Prelude.count_where ai_token_mall.Text.codes_eq
    ai_token_mall.Order.Fulfill.insert_callback
    ai_token_mall.Order.Fulfill.fulfill_paid_order_by_type
    ai_token_mall.Order.Fulfill.create_order_invoice ai_token_mall.Order.Fulfill.deliver
    ai_token_mall.Order.Fulfill.complete_and_fulfill ai_token_mall.Order.Fulfill.apply_to_order
    ai_token_mall.Order.Fulfill.apply_payment_notify_success
    ai_token_mall.Order.Fulfill.fulfill_balance_renewal_in_tx
    ai_token_mall.Order.Payment.insert_subscription_order_notification
    ai_token_mall.Order.Payment.deduct_balance_and_record_flow
    ai_token_mall.Order.Purchase.create_subscription_for_purchase
    ai_token_mall.Order.Purchase.create_api_key_for_new_subscription
    ai_token_mall.Order.Purchase.fulfill_purchase_order_paid
    ai_token_mall.Order.Renew.find_subscription_for_renewal
    ai_token_mall.Order.Renew.renewed_expires ai_token_mall.Order.Renew.renew_subscription_for_order
    ai_token_mall.Order.Renew.reactivate_subscription_api_keys
    ai_token_mall.Order.Renew.fulfill_renewal_order_paid
    ai_token_mall.Order.Upgrade.upgrade_subscription_for_order
    ai_token_mall.Order.Upgrade.sync_api_keys_after_upgrade
    ai_token_mall.Order.Upgrade.fulfill_upgrade_order_paid
    ai_token_mall.Order.QuotaAddon.load_subscription_for_quota_addon
    ai_token_mall.Order.QuotaAddon.fulfill_quota_addon_order_paid
    ai_token_mall.Coupon.discount_amount ai_token_mall.Coupon.is_coupon_usable
    ai_token_mall.Coupon.resolve_for_checkout ai_token_mall.Coupon.mark_used_from_order_raw_request
    ai_token_mall.Coupon.run_coupon_expire ai_token_mall.Rebate.OrderRebate.rebate_rate_for_inviter
    ai_token_mall.Rebate.OrderRebate.rebate_of
    ai_token_mall.Rebate.OrderRebate.accrue_invite_rebate_for_paid_order
    ai_token_mall.Money.round_div ai_token_mall.Money.mul_qty
    ai_token_mall.Money.add_invoice_surcharge ai_token_mall.Prelude.Int.◌+ℤ◌
    ai_token_mall.Prelude.Int.◌-ℤ◌ ai_token_mall.Prelude.Int.◌*ℤ◌ ai_token_mall.Prelude.Int.neg_ℤ
    ai_token_mall.Prelude.Int.wrap_64 ai_token_mall.Billing.period_days
    ai_token_mall.Billing.period_length ai_token_mall.Billing.add_period
    ai_token_mall.Billing.add_periods ai_token_mall.Billing.upgrade_cycles_from
    ai_token_mall.Billing.count_upgrade_billing_cycles
notice_delivers = refl

apply_once_example :
    Ensures
      (apply_payment_notify_success notice (some "h9") 60)
      (λ _ t'.
        Completed (codes "PAY1") t'
        × ((again : PaymentNotifyInput) (generated' : Option String) (now' : ℕ) (later : Tables)
            → Ensures
                (apply_payment_notify_success (for_order_of notice again) generated' now')
                (λ _. Untouched (for_order_of notice again) (record later { orders = t'.orders }))
                (record later { orders = t'.orders })))
      shop
unfolding ai_token_mall.Store.Callbacks.callback_of ai_token_mall.Prelude.find_first
apply_once_example = apply_once notice (some "h9") 60 shop refl

apply_acknowledges_example :
    Ensures
      (apply_payment_notify_success notice (some "h9") 60)
      (λ _ t'. Yields (apply_payment_notify_success notice (some "h10") 90) (λ _ t''. t'' ≡ t') t')
      shop
unfolding ai_token_mall.Store.Orders.order_by_out_trade_no ai_token_mall.Store.Callbacks.callback_of
    ai_token_mall.Prelude.find_first ai_token_mall.Text.codes_eq
apply_acknowledges_example =
    apply_acknowledges notice (some "h9") (some "h10") 60 90 shop purchase refl refl refl

apply_completes_example :
    Ensures
      (apply_payment_notify_success notice (some "h9") 60)
      (λ _ t'.
        (true ≡ true)
        × (t'.orders
            ≡ update_where
                (λ r. r.id == 11)
                (λ r. record r {
                  status = OrderStatus.completed;
                  paid_at = some 60;
                  third_trade_no = some (codes "T1");
                })
                (purchase ∷ []))
        × Seen notice t')
      shop
unfolding ai_token_mall.Store.Orders.order_by_out_trade_no ai_token_mall.Store.Callbacks.callback_of
    ai_token_mall.Prelude.find_first ai_token_mall.Text.codes_eq
apply_completes_example = apply_completes notice (some "h9") 60 shop purchase refl refl refl

apply_refuses_example :
    Ensures
      (apply_payment_notify_success notice (some "h9") 60)
      (λ _ _. ⊥)
      (shop_with (cancelled ∷ []))
unfolding ai_token_mall.Store.Orders.order_by_out_trade_no ai_token_mall.Store.Callbacks.callback_of
    ai_token_mall.Prelude.find_first ai_token_mall.Text.codes_eq
apply_refuses_example =
    apply_refuses notice (some "h9") 60 (shop_with (cancelled ∷ [])) cancelled refl refl refl refl

apply_keeps_books_example :
    Ensures
      (apply_payment_notify_success notice (some "h9") 60)
      (λ _ t'. Reconciled shop t' × Solvent t')
      shop
apply_keeps_books_example = apply_keeps_books notice (some "h9") 60 shop shop-Solvent

abbrev request : PaymentNotifyReq
request = record {
  out_trade_no = codes "PAY1";
  trade_no = codes "T1";
  trade_status = codes "SUCCESS";
}

handle_accepts_example :
    Ensures
      (handle_payment_notify (codes "Alipay") request (some "h9") 60)
      (λ _ t'.
        (o : UserOrders) × (order_by_out_trade_no (codes "PAY1") shop.orders ≡ some o)
        × (normalize_pay_channel (codes "Alipay") ≡ some o.pay_channel)
        × ((to_upper (trim_space (codes "SUCCESS")) ≡ [])
            ⊎ (to_upper (trim_space (codes "SUCCESS")) ≡ codes "TRADE_SUCCESS")
            ⊎ (to_upper (trim_space (codes "SUCCESS")) ≡ codes "SUCCESS"))
        × Reconciled shop t'
        × Solvent t')
      shop
handle_accepts_example = handle_accepts (codes "Alipay") request (some "h9") 60 shop shop-Solvent

-- The key of the new subscription fails, after the order was completed and the subscription created.
abbrev broken : Outcome (Unit {0})
broken = handle_payment_notify (codes "Alipay") request none 60 (db_of shop)

abbrev db_after : Outcome (Unit {0}) → Db
db_after (ok a db) = db
db_after (err e db) = db

handle_atomic_example : (db_after broken).tables ≡ shop
unfolding ai_token_mall.Store.Action.pure ai_token_mall.Store.Action.raise
    ai_token_mall.Store.Action.◌>>=◌ ai_token_mall.Store.Action.consume
    ai_token_mall.Store.Action.statement ai_token_mall.Store.Action.query
    ai_token_mall.Store.Action.exec ai_token_mall.Store.Action.insert
    ai_token_mall.Store.Action.catch ai_token_mall.Store.Action.map_error
    ai_token_mall.Store.Action.transaction ai_token_mall.Store.Users.lookup_user
    ai_token_mall.Store.Users.update_user ai_token_mall.Store.Users.find_by_id_for_update
    ai_token_mall.Store.Users.apply_commission_delta
    ai_token_mall.Store.Users.transfer_commission_to_wallet
    ai_token_mall.Store.Users.apply_wallet_delta ai_token_mall.Store.Ledger.create_flow
    ai_token_mall.Store.Ledger.record_of_order ai_token_mall.Store.Ledger.find_record_by_order_id
    ai_token_mall.Store.Ledger.create_record ai_token_mall.Store.Ledger.create_withdrawal
    ai_token_mall.Store.Ledger.create_notification ai_token_mall.Store.Ledger.create_invoice
    ai_token_mall.Store.Ledger.vip_config_of ai_token_mall.Store.Ledger.find_vip_config_by_id
    ai_token_mall.Store.Ledger.find_default_vip_config ai_token_mall.Store.Ledger.find_payout
    ai_token_mall.Store.Orders.create_order
    ai_token_mall.Store.Orders.create_order_replacing_pending
    ai_token_mall.Store.Orders.order_by_out_trade_no
    ai_token_mall.Store.Orders.find_order_by_out_trade_no ai_token_mall.Store.Orders.update_order
    ai_token_mall.Store.Orders.update_order_fields ai_token_mall.Store.Orders.subscription_for_user
    ai_token_mall.Store.Orders.find_subscription_for_user
    ai_token_mall.Store.Orders.find_product_by_id ai_token_mall.Store.Orders.find_on_sale_by_id
    ai_token_mall.Store.Subscriptions.find_one ai_token_mall.Store.Subscriptions.active_by_id
    ai_token_mall.Store.Subscriptions.find_active_for_update
    ai_token_mall.Store.Subscriptions.subscription_by_id ai_token_mall.Store.Subscriptions.reload
    ai_token_mall.Store.Subscriptions.create_subscription
    ai_token_mall.Store.Subscriptions.update_subscription
    ai_token_mall.Store.Subscriptions.list_active_ids ai_token_mall.Store.ApiKeys.create_api_key
    ai_token_mall.Store.ApiKeys.update_api_keys
    ai_token_mall.Store.ApiKeys.find_active_enterprise_user_by_linked_user_id
    ai_token_mall.Store.ApiKeys.latest_enterprise_inquiry_id_by_owner
    ai_token_mall.Store.ApiKeys.fields_of_member
    ai_token_mall.Store.ApiKeys.main_api_key_enterprise_fields
    ai_token_mall.Store.Callbacks.callback_of ai_token_mall.Store.Callbacks.find_by_idempotency
    ai_token_mall.Store.Callbacks.create_callback ai_token_mall.Store.Coupons.coupon_for_user
    ai_token_mall.Store.Coupons.find_coupon_for_user ai_token_mall.Store.Coupons.mark_coupon_used
    ai_token_mall.Store.Coupons.expire_available_before ai_token_mall.Prelude.find_first
    ai_token_mall.Prelude.find_last ai_token_mall.Prelude.update_where
    ai_token_mall.Prelude.exists_where ai_token_mall.Prelude.count_where ai_token_mall.Text.codes_eq
    ai_token_mall.Order.Fulfill.insert_callback
    ai_token_mall.Order.Fulfill.fulfill_paid_order_by_type
    ai_token_mall.Order.Fulfill.create_order_invoice ai_token_mall.Order.Fulfill.deliver
    ai_token_mall.Order.Fulfill.complete_and_fulfill ai_token_mall.Order.Fulfill.apply_to_order
    ai_token_mall.Order.Fulfill.apply_payment_notify_success
    ai_token_mall.Order.Fulfill.fulfill_balance_renewal_in_tx
    ai_token_mall.Order.Payment.insert_subscription_order_notification
    ai_token_mall.Order.Payment.deduct_balance_and_record_flow
    ai_token_mall.Order.Purchase.create_subscription_for_purchase
    ai_token_mall.Order.Purchase.create_api_key_for_new_subscription
    ai_token_mall.Order.Purchase.fulfill_purchase_order_paid
    ai_token_mall.Order.Renew.find_subscription_for_renewal
    ai_token_mall.Order.Renew.renewed_expires ai_token_mall.Order.Renew.renew_subscription_for_order
    ai_token_mall.Order.Renew.reactivate_subscription_api_keys
    ai_token_mall.Order.Renew.fulfill_renewal_order_paid
    ai_token_mall.Order.Upgrade.upgrade_subscription_for_order
    ai_token_mall.Order.Upgrade.sync_api_keys_after_upgrade
    ai_token_mall.Order.Upgrade.fulfill_upgrade_order_paid
    ai_token_mall.Order.QuotaAddon.load_subscription_for_quota_addon
    ai_token_mall.Order.QuotaAddon.fulfill_quota_addon_order_paid
    ai_token_mall.Coupon.discount_amount ai_token_mall.Coupon.is_coupon_usable
    ai_token_mall.Coupon.resolve_for_checkout ai_token_mall.Coupon.mark_used_from_order_raw_request
    ai_token_mall.Coupon.run_coupon_expire ai_token_mall.Rebate.OrderRebate.rebate_rate_for_inviter
    ai_token_mall.Rebate.OrderRebate.rebate_of
    ai_token_mall.Rebate.OrderRebate.accrue_invite_rebate_for_paid_order
    ai_token_mall.Money.round_div ai_token_mall.Money.mul_qty
    ai_token_mall.Money.add_invoice_surcharge ai_token_mall.Prelude.Int.◌+ℤ◌
    ai_token_mall.Prelude.Int.◌-ℤ◌ ai_token_mall.Prelude.Int.◌*ℤ◌ ai_token_mall.Prelude.Int.neg_ℤ
    ai_token_mall.Prelude.Int.wrap_64 ai_token_mall.Billing.period_days
    ai_token_mall.Billing.period_length ai_token_mall.Billing.add_period
    ai_token_mall.Billing.add_periods ai_token_mall.Billing.upgrade_cycles_from
    ai_token_mall.Billing.count_upgrade_billing_cycles ai_token_mall.Text.trim_space
    ai_token_mall.Text.trim_left ai_token_mall.Text.trim_right ai_token_mall.Text.is_space
    ai_token_mall.Text.lower_code ai_token_mall.Text.upper_code ai_token_mall.Text.to_lower
    ai_token_mall.Text.to_upper ai_token_mall.Text.decimal
    ai_token_mall.Order.Channel.normalize_pay_channel
    ai_token_mall.Order.Notify.handle_payment_notify
handle_atomic_example =
    handle_atomic (codes "Alipay") request none 60 (db_of shop) (db_after broken)
      (Error.payment_fulfill_failed Error.key_generation) refl
