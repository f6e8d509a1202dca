-- ===== src/Examples/Teams.antt =====
-- Sub keys in the shop: the buyer is the owner, and user 9 a member of the team.
use ai_token_mall.Prelude.{
  ℕ, ◌≡◌, refl, true, false, Bool, Option, none, some, List, [], ◌∷◌, arith,
}
use ai_token_mall.Prelude.Int.{ℤ, pos, ◌≤ℤ◌}
use ai_token_mall.Entity.{UserApiKeys, EnterpriseUsers, KeyType}
use ai_token_mall.Store.Action.{Tables, Outcome, ok, err}
use ai_token_mall.Store.Ensures.{Ensures}
use ai_token_mall.SubKey.{CreateSubApiKeyReq, limit_sum, create_sub_key}
use ai_token_mall.SubKey.Cap.{create_sub_key_capped}
use ai_token_mall.Examples.{shop, subscription, key, db_of}

abbrev member : EnterpriseUsers
member = record { owner_user_id = 2; enterprise_inquiry_id = 1; user_id = 9; is_active = true }

abbrev given : UserApiKeys
given = record key {
  id = 4;
  user_id = 8;
  key_type = KeyType.sub;
  key_hash = "h4";
  limit_tokens = pos 5;
}

abbrev team : Tables
team = record shop { enterprise_users = member ∷ []; api_keys = key ∷ given ∷ [] }

abbrev request_of : ℤ → CreateSubApiKeyReq
request_of limit = record { user_subscription_id = 7; member_user_id = 9; limit_tokens = limit }

create_sub_key_capped_example :
    Ensures
      (create_sub_key 2 (request_of (pos 600)) (some "h5"))
      (λ _ t'. (true ≡ true) × (limit_sum 7 0 t'.api_keys ≤ℤ pos 1500))
      team
unfolding ai_token_mall.Store.Orders.subscription_for_user ai_token_mall.Prelude.find_first
    limit_sum ai_token_mall.Prelude.Int.wrap_64 ai_token_mall.Prelude.Int.◌+ℤ◌
create_sub_key_capped_example =
    create_sub_key_capped 2 (request_of (pos 600)) (some "h5") team subscription refl refl

abbrev is_ok : {A : Type 0} → Outcome A → Bool
is_ok (ok a db) = true
is_ok (err e db) = false

-- A limit of 2 ^ 63 - 1 passes the test of the cap: the sum wraps below zero.
huge_limit_passes :
    is_ok (create_sub_key 2 (request_of (pos 9223372036854775807)) (some "h5") (db_of team)) ≡ true
unfolding ai_token_mall.Store.Action.pure ai_token_mall.Store.Action.raise
    ai_token_mall.Store.Action.◌>>=◌ ai_token_mall.Store.Action.consume
    ai_token_mall.Store.Action.statement ai_token_mall.Store.Action.query
    ai_token_mall.Store.Action.exec ai_token_mall.Store.Action.insert
    ai_token_mall.Store.Action.catch ai_token_mall.Store.Action.map_error
    ai_token_mall.Store.Action.transaction ai_token_mall.Store.Orders.create_order
    ai_token_mall.Store.Orders.create_order_replacing_pending
    ai_token_mall.Store.Orders.order_by_out_trade_no
    ai_token_mall.Store.Orders.find_order_by_out_trade_no ai_token_mall.Store.Orders.update_order
    ai_token_mall.Store.Orders.update_order_fields ai_token_mall.Store.Orders.subscription_for_user
    ai_token_mall.Store.Orders.find_subscription_for_user
    ai_token_mall.Store.Orders.find_product_by_id ai_token_mall.Store.Orders.find_on_sale_by_id
    ai_token_mall.Store.Subscriptions.find_one ai_token_mall.Store.Subscriptions.active_by_id
    ai_token_mall.Store.Subscriptions.find_active_for_update
    ai_token_mall.Store.Subscriptions.subscription_by_id ai_token_mall.Store.Subscriptions.reload
    ai_token_mall.Store.Subscriptions.create_subscription
    ai_token_mall.Store.Subscriptions.update_subscription
    ai_token_mall.Store.Subscriptions.list_active_ids ai_token_mall.Store.ApiKeys.create_api_key
    ai_token_mall.Store.ApiKeys.update_api_keys
    ai_token_mall.Store.ApiKeys.find_active_enterprise_user_by_linked_user_id
    ai_token_mall.Store.ApiKeys.latest_enterprise_inquiry_id_by_owner
    ai_token_mall.Store.ApiKeys.fields_of_member
    ai_token_mall.Store.ApiKeys.main_api_key_enterprise_fields ai_token_mall.Prelude.find_first
    ai_token_mall.Prelude.find_last ai_token_mall.Prelude.update_where
    ai_token_mall.Prelude.exists_where ai_token_mall.Prelude.count_where
    ai_token_mall.Prelude.Int.◌+ℤ◌ ai_token_mall.Prelude.Int.◌-ℤ◌ ai_token_mall.Prelude.Int.◌*ℤ◌
    ai_token_mall.Prelude.Int.neg_ℤ ai_token_mall.Prelude.Int.wrap_64 ai_token_mall.SubKey.limit_sum
    ai_token_mall.SubKey.sum_active_sub_key_limit_tokens ai_token_mall.SubKey.exists_active_sub_key
    ai_token_mall.SubKey.create_sub_key ai_token_mall.SubKey.update_sub_key_limit
huge_limit_passes = refl

-- A limit above the cap is refused otherwise.
large_limit_refused :
    is_ok (create_sub_key 2 (request_of (pos 1496)) (some "h5") (db_of team)) ≡ false
unfolding ai_token_mall.Store.Action.pure ai_token_mall.Store.Action.raise
    ai_token_mall.Store.Action.◌>>=◌ ai_token_mall.Store.Action.consume
    ai_token_mall.Store.Action.statement ai_token_mall.Store.Action.query
    ai_token_mall.Store.Action.exec ai_token_mall.Store.Action.insert
    ai_token_mall.Store.Action.catch ai_token_mall.Store.Action.map_error
    ai_token_mall.Store.Action.transaction ai_token_mall.Store.Orders.create_order
    ai_token_mall.Store.Orders.create_order_replacing_pending
    ai_token_mall.Store.Orders.order_by_out_trade_no
    ai_token_mall.Store.Orders.find_order_by_out_trade_no ai_token_mall.Store.Orders.update_order
    ai_token_mall.Store.Orders.update_order_fields ai_token_mall.Store.Orders.subscription_for_user
    ai_token_mall.Store.Orders.find_subscription_for_user
    ai_token_mall.Store.Orders.find_product_by_id ai_token_mall.Store.Orders.find_on_sale_by_id
    ai_token_mall.Store.Subscriptions.find_one ai_token_mall.Store.Subscriptions.active_by_id
    ai_token_mall.Store.Subscriptions.find_active_for_update
    ai_token_mall.Store.Subscriptions.subscription_by_id ai_token_mall.Store.Subscriptions.reload
    ai_token_mall.Store.Subscriptions.create_subscription
    ai_token_mall.Store.Subscriptions.update_subscription
    ai_token_mall.Store.Subscriptions.list_active_ids ai_token_mall.Store.ApiKeys.create_api_key
    ai_token_mall.Store.ApiKeys.update_api_keys
    ai_token_mall.Store.ApiKeys.find_active_enterprise_user_by_linked_user_id
    ai_token_mall.Store.ApiKeys.latest_enterprise_inquiry_id_by_owner
    ai_token_mall.Store.ApiKeys.fields_of_member
    ai_token_mall.Store.ApiKeys.main_api_key_enterprise_fields ai_token_mall.Prelude.find_first
    ai_token_mall.Prelude.find_last ai_token_mall.Prelude.update_where
    ai_token_mall.Prelude.exists_where ai_token_mall.Prelude.count_where
    ai_token_mall.Prelude.Int.◌+ℤ◌ ai_token_mall.Prelude.Int.◌-ℤ◌ ai_token_mall.Prelude.Int.◌*ℤ◌
    ai_token_mall.Prelude.Int.neg_ℤ ai_token_mall.Prelude.Int.wrap_64 ai_token_mall.SubKey.limit_sum
    ai_token_mall.SubKey.sum_active_sub_key_limit_tokens ai_token_mall.SubKey.exists_active_sub_key
    ai_token_mall.SubKey.create_sub_key ai_token_mall.SubKey.update_sub_key_limit
large_limit_refused = refl
