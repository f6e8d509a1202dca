-- ===== src/Order/Keeps.antt =====
-- The fulfilment of an order keeps what its postings keep.
use ai_token_mall.Prelude.{ℕ, Option, none, some, String}
use ai_token_mall.Entity.{
  OrderType, Products, UserOrders, UserSubscriptions, UserApiKeys, EnterpriseUsers,
}
use ai_token_mall.Store.Action.{Tables}
use ai_token_mall.Store.Keeps.{
  Keeps, Frame, Keeps-pure, Keeps-raise, Keeps-query, Keeps-require, Keeps-map_error, Keeps-bind,
  Keeps-raise_if, Keeps-exec, Keeps-insert,
}
use ai_token_mall.Store.Subscriptions.{find_one, reload, create_subscription, update_subscription}
use ai_token_mall.Store.ApiKeys.{
  create_api_key, update_api_keys, fields_of_member, main_api_key_enterprise_fields,
  find_active_enterprise_user_by_linked_user_id, latest_enterprise_inquiry_id_by_owner,
}
use ai_token_mall.Store.Ledger.{create_notification}
use ai_token_mall.Rebate.OrderRebate.{accrue_invite_rebate_for_paid_order}
use ai_token_mall.Order.Payment.{
  insert_subscription_order_notification, deduct_balance_and_record_flow,
}
use ai_token_mall.Order.Purchase.{
  create_subscription_for_purchase, create_api_key_for_new_subscription,
  fulfill_purchase_order_paid,
}
use ai_token_mall.Order.Renew.{
  find_subscription_for_renewal, renew_subscription_for_order, reactivate_subscription_api_keys,
  fulfill_renewal_order_paid,
}
use ai_token_mall.Order.Upgrade.{
  upgrade_subscription_for_order, sync_api_keys_after_upgrade, fulfill_upgrade_order_paid,
}
use ai_token_mall.Order.QuotaAddon.{
  load_subscription_for_quota_addon, fulfill_quota_addon_order_paid,
}
use ai_token_mall.Order.Fulfill.{fulfill_paid_order_by_type, fulfill_balance_renewal_in_tx}

module _ {R : Tables → Tables → Type 0} (fr : Frame R)
    (deduct : (order : UserOrders) (channel : String)
      → Keeps R (deduct_balance_and_record_flow order channel)) where
  notify-Keeps :
      (order : UserOrders) (sub_id : ℕ) (key : Option ℕ) (template : String)
      → Keeps R (insert_subscription_order_notification order sub_id key template)
  unfolding insert_subscription_order_notification create_notification
  notify-Keeps order sub_id key template = Keeps-insert fr _ _ (λ _. fr.notification _)

  update_api_keys-Keeps :
      (p : UserApiKeys → _) (f : UserApiKeys → UserApiKeys) → Keeps R (update_api_keys p f)
  unfolding update_api_keys
  update_api_keys-Keeps p f = Keeps-exec fr _ (fr.api_keys p f)

  update_subscription-Keeps :
      (id : ℕ) (f : UserSubscriptions → UserSubscriptions) → Keeps R (update_subscription id f)
  unfolding update_subscription
  update_subscription-Keeps id f = Keeps-exec fr _ (fr.subscription id f)

  find_one-Keeps : (id user_id : ℕ) → Keeps R (find_one id user_id)
  unfolding find_one
  find_one-Keeps id user_id = Keeps-bind fr (Keeps-query fr _) (λ o. Keeps-require fr o _)

  reload-Keeps : (id : ℕ) → Keeps R (reload id)
  unfolding reload
  reload-Keeps id = Keeps-bind fr (Keeps-query fr _) (λ o. Keeps-require fr o _)

  member-Keeps : (id : ℕ) (m : Option EnterpriseUsers) → Keeps R (fields_of_member id m)
  unfolding fields_of_member latest_enterprise_inquiry_id_by_owner
  member-Keeps id (some m) = Keeps-pure fr _
  member-Keeps id none = Keeps-bind fr (Keeps-query fr _) (λ _. Keeps-pure fr _)

  fields-Keeps : (id : ℕ) → Keeps R (main_api_key_enterprise_fields id)
  unfolding main_api_key_enterprise_fields find_active_enterprise_user_by_linked_user_id
  fields-Keeps id = Keeps-bind fr (Keeps-query fr _) (member-Keeps id)

  module _ (order : UserOrders) (product : Products) (now : ℕ) where
    purchase-Keeps :
        (channel : String) (generated : Option String)
        → Keeps R (fulfill_purchase_order_paid order product channel generated now)
    unfolding fulfill_purchase_order_paid create_subscription_for_purchase
        create_api_key_for_new_subscription create_subscription create_api_key
    purchase-Keeps channel generated =
        Keeps-bind fr
          (Keeps-bind fr (Keeps-insert fr _ _ (λ _. fr.new_subscription _)) λ id. Keeps-pure fr _)
          λ sub.
            Keeps-bind fr
              (Keeps-bind fr (Keeps-require fr generated _) λ hash.
                Keeps-bind fr (fields-Keeps order.user_id)
                  λ fields. Keeps-insert fr _ _ (λ _. fr.new_api_key _))
              λ key.
                Keeps-bind fr (notify-Keeps order sub.id (some key) _) λ _. deduct order channel

    renew-Keeps : Keeps R (renew_subscription_for_order order product now)
    unfolding renew_subscription_for_order find_subscription_for_renewal
    renew-Keeps =
        Keeps-bind fr (Keeps-bind fr (Keeps-raise_if fr _ _) (λ _. find_one-Keeps _ _)) λ sub.
          Keeps-bind fr (Keeps-raise_if fr _ _) λ _.
            Keeps-bind fr (Keeps-raise_if fr _ _)
              λ _. Keeps-bind fr (update_subscription-Keeps _ _) (λ _. reload-Keeps _)

    renewal-Keeps :
        (channel : String) → Keeps R (fulfill_renewal_order_paid order product channel now)
    unfolding fulfill_renewal_order_paid reactivate_subscription_api_keys
    renewal-Keeps channel = Keeps-bind fr (Keeps-map_error fr _ renew-Keeps) λ sub.
        Keeps-bind fr (update_api_keys-Keeps _ _)
          λ _. Keeps-bind fr (notify-Keeps order sub.id none _) λ _. deduct order channel

    upgrade-Keeps :
        (channel : String) → Keeps R (fulfill_upgrade_order_paid order product channel now)
    unfolding fulfill_upgrade_order_paid upgrade_subscription_for_order
        reactivate_subscription_api_keys sync_api_keys_after_upgrade
    upgrade-Keeps channel =
        Keeps-bind fr
          (Keeps-map_error fr _ (
            Keeps-bind fr (Keeps-raise_if fr _ _) λ _. Keeps-bind fr (find_one-Keeps _ _) λ sub.
              Keeps-bind fr (update_subscription-Keeps _ _)
                λ _. Keeps-bind fr (reload-Keeps _) (λ _. Keeps-pure fr _)))
          λ answer. Keeps-bind fr (update_api_keys-Keeps _ _) λ _.
            Keeps-bind fr (update_api_keys-Keeps _ _)
              λ _. Keeps-bind fr (notify-Keeps order answer.0.id none _) λ _. deduct order channel

    quota_addon-Keeps :
        (channel : String) → Keeps R (fulfill_quota_addon_order_paid order product channel)
    unfolding fulfill_quota_addon_order_paid load_subscription_for_quota_addon
    quota_addon-Keeps channel =
        Keeps-bind fr
          (Keeps-map_error fr _ (Keeps-bind fr (Keeps-raise_if fr _ _) (λ _. find_one-Keeps _ _)))
          λ sub. Keeps-bind fr (Keeps-raise_if fr _ _) λ _.
            Keeps-bind fr (update_subscription-Keeps _ _) λ _.
              Keeps-bind fr (reload-Keeps _) λ reloaded.
                Keeps-bind fr (update_api_keys-Keeps _ _) λ _.
                  Keeps-bind fr (notify-Keeps order reloaded.id none _) λ _. deduct order channel

    pub by_type-Keeps :
        (type : OrderType) (channel : String) (generated : Option String)
        → Keeps R (fulfill_paid_order_by_type type order product channel generated now)
    unfolding fulfill_paid_order_by_type
    by_type-Keeps OrderType.renewal channel generated = renewal-Keeps channel
    by_type-Keeps OrderType.upgrade channel generated = upgrade-Keeps channel
    by_type-Keeps OrderType.quota_addon channel generated = quota_addon-Keeps channel
    by_type-Keeps OrderType.purchase channel generated = purchase-Keeps channel generated
    by_type-Keeps OrderType.empty channel generated = purchase-Keeps channel generated
    by_type-Keeps (OrderType.other s) channel generated = Keeps-raise fr _

    pub balance_renewal-Keeps :
        ((o : UserOrders) (p : Products) → Keeps R (accrue_invite_rebate_for_paid_order o p))
        → Keeps R (fulfill_balance_renewal_in_tx order product now)
    unfolding fulfill_balance_renewal_in_tx reactivate_subscription_api_keys
    balance_renewal-Keeps accrue = Keeps-bind fr (deduct order "balance") λ _.
        Keeps-bind fr renew-Keeps λ sub.
          Keeps-bind fr (update_api_keys-Keeps _ _)
            λ _. Keeps-bind fr (notify-Keeps order sub.id none _) λ _. accrue order product
