-- ===== src/Store/Subscriptions.antt =====
-- infrastructure/mysql/user_subscriptions.go
use ai_token_mall.Prelude.{
  ℕ, false, ◌&&◌, Option, List, [], ◌∷◌, ◌++◌, ◌==◌, find_first, update_where, select, map,
}
use ai_token_mall.Entity.{UserSubscriptions, is_active}
use ai_token_mall.Store.Action.{Tables, Error, Action, ◌>>=◌, query, exec, insert, require}
use ai_token_mall.Store.Orders.{subscription_for_user}

-- `FindOne` with `id = ?` and `user_id = ?`: a missing row is an error.
unfoldable pub find_one : ℕ → ℕ → Action UserSubscriptions
find_one id user_id = do
  found ← query (λ t. subscription_for_user user_id id t.subscriptions)
  require found Error.record_not_found

unfoldable pub active_by_id : ℕ → List UserSubscriptions → Option UserSubscriptions
active_by_id id = find_first (λ s. s.id == id && is_active s.status)

-- `FindActiveForUpdate`
unfoldable pub find_active_for_update : ℕ → Action (Option UserSubscriptions)
find_active_for_update id = query (λ t. active_by_id id t.subscriptions)

unfoldable pub subscription_by_id : ℕ → List UserSubscriptions → Option UserSubscriptions
subscription_by_id id = find_first (λ s. s.id == id)

-- `Reload`; its callers use the row, and a missing one is a nil pointer.
unfoldable pub reload : ℕ → Action UserSubscriptions
reload id = do
  found ← query (λ t. subscription_by_id id t.subscriptions)
  require found Error.nil_pointer

abbrev pub add_subscription : UserSubscriptions → Tables → Tables
add_subscription row t = record t { subscriptions = t.subscriptions ++ row ∷ [] }

-- `Create`: the row gets its id here.
unfoldable pub create_subscription : UserSubscriptions → Action ℕ
create_subscription row = insert (λ t n. false) (λ n t. add_subscription (record row { id = n }) t)

abbrev pub set_subscription : ℕ → (UserSubscriptions → UserSubscriptions) → Tables → Tables
set_subscription id f t = record t {
  subscriptions = update_where (λ s. s.id == id) f t.subscriptions;
}

-- `Update` with `id = ?`
unfoldable pub update_subscription : ℕ → (UserSubscriptions → UserSubscriptions) → Action (Unit {0})
update_subscription id f = exec (set_subscription id f)

-- `ListActiveIDs`
unfoldable pub list_active_ids : Action (List ℕ)
list_active_ids = query (λ t. map (λ s. s.id) (select (λ s. is_active s.status) t.subscriptions))
