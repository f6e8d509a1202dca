-- ===== src/Store/ApiKeys.antt =====
-- infrastructure/mysql/user_api_keys.go, and the enterprise rows that a new main key reads
-- (application/core-service/order/api_key_enterprise_fields.go).
use ai_token_mall.Prelude.{
  ℕ, Bool, not, ◌&&◌, ◌||◌, Option, none, some, [], ◌∷◌, ◌++◌, ◌==◌, str_eq, find_last,
  update_where, exists_where,
}
use ai_token_mall.Entity.{
  UserApiKeys, EnterpriseUsers, EnterpriseInquiry, is_rotated, is_main, is_sub,
}
use ai_token_mall.Store.Action.{Tables, Action, pure, ◌>>=◌, query, exec, insert}

abbrev pub add_api_key : UserApiKeys → Tables → Tables
add_api_key row t = record t { api_keys = t.api_keys ++ row ∷ [] }

-- uk_user_api_keys_hash (key_hash); the row gets its id here.
unfoldable pub create_api_key : UserApiKeys → Action ℕ
create_api_key row =
    insert (λ t n. exists_where (λ k. str_eq k.key_hash row.key_hash) t.api_keys)
      (λ n t. add_api_key (record row { id = n }) t)

abbrev pub set_api_keys : (UserApiKeys → Bool) → (UserApiKeys → UserApiKeys) → Tables → Tables
set_api_keys p f t = record t { api_keys = update_where p f t.api_keys }

-- `UpdateWhere`
unfoldable pub update_api_keys :
    (UserApiKeys → Bool) → (UserApiKeys → UserApiKeys) → Action (Unit {0})
update_api_keys p f = exec (set_api_keys p f)

-- `user_subscription_id = ? AND status <> 'rotated'`
abbrev pub is_live_key_of : ℕ → UserApiKeys → Bool
is_live_key_of subscription_id k =
    k.user_subscription_id == subscription_id && not (is_rotated k.status)

-- … AND key_type = 'main'
abbrev pub is_live_main_of : ℕ → UserApiKeys → Bool
is_live_main_of subscription_id k =
    k.user_subscription_id == subscription_id && is_main k.key_type && not (is_rotated k.status)

-- … AND key_type = 'sub'
abbrev pub is_live_sub_of : ℕ → UserApiKeys → Bool
is_live_sub_of subscription_id k =
    k.user_subscription_id == subscription_id && is_sub k.key_type && not (is_rotated k.status)

-- `user_subscription_id = ? AND key_type IN ('main', 'sub') AND status <> 'rotated'`
abbrev pub is_live_main_or_sub_of : ℕ → UserApiKeys → Bool
is_live_main_or_sub_of subscription_id k =
    k.user_subscription_id == subscription_id
    && (is_main k.key_type || is_sub k.key_type)
    && not (is_rotated k.status)

unfoldable pub find_active_enterprise_user_by_linked_user_id : ℕ → Action (Option EnterpriseUsers)
find_active_enterprise_user_by_linked_user_id user_id =
    query (λ t. find_last (λ m. m.user_id == user_id && m.is_active) t.enterprise_users)

abbrev pub inquiry_id : Option EnterpriseInquiry → ℕ
inquiry_id none = 0
inquiry_id (some i) = i.id

unfoldable pub latest_enterprise_inquiry_id_by_owner : ℕ → Action ℕ
latest_enterprise_inquiry_id_by_owner owner_user_id =
    query (λ t. inquiry_id (find_last (λ i. i.owner_user_id == owner_user_id) t.inquiries))

unfoldable pub fields_of_member : ℕ → Option EnterpriseUsers → Action (ℕ × ℕ)
fields_of_member buyer_user_id (some m) = pure (m.owner_user_id, m.enterprise_inquiry_id)
fields_of_member buyer_user_id none = do
  inquiry ← latest_enterprise_inquiry_id_by_owner buyer_user_id
  pure (buyer_user_id, inquiry)

-- `MainAPIKeyEnterpriseFields`: the owner and the inquiry of a new main key.
unfoldable pub main_api_key_enterprise_fields : ℕ → Action (ℕ × ℕ)
unfolding fields_of_member
main_api_key_enterprise_fields buyer_user_id = do
  member ← find_active_enterprise_user_by_linked_user_id buyer_user_id
  fields_of_member buyer_user_id member
