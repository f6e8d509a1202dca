-- ===== src/SubKey.antt =====
-- application/core-service/user_api_key/service.go: the sub keys that an owner gives to members.
pub mod Cap
use ai_token_mall.Prelude.{
  ℕ, ◌+◌, Bool, true, not, ◌&&◌, ◌||◌, ◌==◌, Option, none, some, List, [], ◌∷◌, find_first,
  exists_where, String, if◌then◌else◌,
}
use ai_token_mall.Prelude.Int.{ℤ, pos, ◌+ℤ◌, ltb_ℤ, wrap_64}
use ai_token_mall.Entity.{
  UserApiKeys, UserSubscriptions, EnterpriseUsers, KeyType, KeyStatus, is_active, is_sub,
  is_active_key,
}
use ai_token_mall.Store.Action.{
  Error, Action, pure, ◌>>=◌, ◌>>◌, map_error, transaction, query, raise_if, require,
}
use ai_token_mall.Store.Subscriptions.{find_one, subscription_by_id}
use ai_token_mall.Store.ApiKeys.{
  is_live_sub_of, create_api_key, update_api_keys, find_active_enterprise_user_by_linked_user_id,
  main_api_key_enterprise_fields,
}
use ai_token_mall.Rebate.CommissionTransfer.{to_db_error}

-- request.CreateSubAPIKeyReq; its binding lets no limit below 1 through.
pub record CreateSubApiKeyReq : Type 0 where
  pub user_subscription_id : ℕ
  pub member_user_id : ℕ
  pub limit_tokens : ℤ

-- The rows of `SumActiveSubKeyLimitTokensBySubscription`.
abbrev pub is_summed : ℕ → ℕ → UserApiKeys → Bool
is_summed subscription_id exclude_key_id k =
    is_live_sub_of subscription_id k && (exclude_key_id == 0 || not (k.id == exclude_key_id))

unfoldable pub limit_sum : ℕ → ℕ → List UserApiKeys → ℤ
limit_sum subscription_id exclude_key_id [] = pos 0
limit_sum subscription_id exclude_key_id (k ∷ ks) =
    (if is_summed subscription_id exclude_key_id k then k.limit_tokens else pos 0)
    +ℤ limit_sum subscription_id exclude_key_id ks

unfoldable pub sum_active_sub_key_limit_tokens : ℕ → ℕ → Action ℤ
sum_active_sub_key_limit_tokens subscription_id exclude_key_id =
    query (λ t. limit_sum subscription_id exclude_key_id t.api_keys)

unfoldable pub exists_active_sub_key : ℕ → ℕ → Action Bool
exists_active_sub_key subscription_id member_user_id = query (λ t.
    exists_where
      (λ k.
        k.user_subscription_id == subscription_id
        && k.user_id == member_user_id
        && is_sub k.key_type
        && is_active_key k.status)
      t.api_keys)

abbrev pub subscription_error : Error → Error
subscription_error Error.record_not_found = Error.renew_no_subscription
subscription_error _ = Error.db_error

-- `member == nil || member.OwnerUserID != ownerUserID`
abbrev pub is_foreign : ℕ → Option EnterpriseUsers → Bool
is_foreign owner_user_id none = true
is_foreign owner_user_id (some m) = not (m.owner_user_id == owner_user_id)

abbrev pub sub_key : CreateSubApiKeyReq → UserSubscriptions → String → ℕ × ℕ → UserApiKeys
sub_key req sub hash (owner_uid, inquiry_id) = record {
  id = 0;
  user_id = req.member_user_id;
  owner_user_id = owner_uid;
  enterprise_inquiry_id = inquiry_id;
  user_subscription_id = sub.id;
  key_type = KeyType.sub;
  key_hash = hash;
  products_category_name = sub.products_category_name;
  limit_tokens = req.limit_tokens;
  used_tokens = pos 0;
  status = KeyStatus.active;
}

-- The transaction of `CreateSubKey`; the answer is the id of the key. The sum is one of 64 bits.
unfoldable pub create_sub_key : ℕ → CreateSubApiKeyReq → Option String → Action ℕ
create_sub_key owner_user_id req generated = transaction (do
  sub ← map_error subscription_error (find_one req.user_subscription_id owner_user_id)
  raise_if (not (is_active sub.status)) Error.renew_no_subscription
  member ← map_error to_db_error (find_active_enterprise_user_by_linked_user_id req.member_user_id)
  raise_if (is_foreign owner_user_id member) Error.api_key_forbidden
  dup ← map_error to_db_error (exists_active_sub_key req.user_subscription_id req.member_user_id)
  raise_if dup Error.sub_key_duplicate
  sum_sub ← map_error to_db_error (sum_active_sub_key_limit_tokens req.user_subscription_id 0)
  raise_if (ltb_ℤ sub.limit_tokens (wrap_64 (sum_sub +ℤ req.limit_tokens)))
      Error.sub_key_limit_exceeded
  fields ← main_api_key_enterprise_fields owner_user_id
  hash ← require generated Error.key_generation
  map_error to_db_error (create_api_key (sub_key req sub hash fields)))

abbrev pub key_error : Error → Error
key_error Error.record_not_found = Error.api_key_not_found
key_error _ = Error.db_error

find_key : ℕ → Action UserApiKeys
find_key key_id = do
  found ← query (λ t. find_first (λ k. k.id == key_id) t.api_keys)
  require found Error.record_not_found

find_subscription : ℕ → Action UserSubscriptions
find_subscription id = do
  found ← query (λ t. subscription_by_id id t.subscriptions)
  require found Error.record_not_found

unfoldable pub update_sub_key_limit : ℕ → ℕ → ℤ → Action (Unit {0})
unfolding find_key find_subscription
update_sub_key_limit owner_user_id key_id limit_tokens = transaction (do
  row ← map_error key_error (find_key key_id)
  raise_if (not (row.owner_user_id == owner_user_id) || not (is_sub row.key_type))
      Error.api_key_forbidden
  raise_if (ltb_ℤ limit_tokens row.used_tokens) Error.params_error
  sub ← map_error subscription_error (find_subscription row.user_subscription_id)
  sum_sub ← map_error to_db_error (sum_active_sub_key_limit_tokens row.user_subscription_id row.id)
  raise_if (ltb_ℤ sub.limit_tokens (wrap_64 (sum_sub +ℤ limit_tokens))) Error.sub_key_limit_exceeded
  update_api_keys (λ k. k.id == key_id) (λ k. record k { limit_tokens = limit_tokens }))
