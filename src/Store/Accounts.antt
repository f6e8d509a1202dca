-- ===== src/Store/Accounts.antt =====
-- infrastructure/mysql/users.go, the rows of accounts, and vip_domain_config.go. `column_eq` is the
-- equality of the collation of MySQL, by which text columns are compared.
use ai_token_mall.Prelude.{
  ℕ, Bool, true, false, not, ◌||◌, Option, none, some, List, [], ◌∷◌, ◌++◌, find_first, select,
  exists_where,
}
use ai_token_mall.Entity.{Users, VipDomainConfig}
use ai_token_mall.Store.Action.{Tables, Error, Action, ◌>>=◌, query, exec, insert, require}
use ai_token_mall.Store.Users.{user_of, set_user}

-- `First` by the primary key: a missing row is an error.
unfoldable pub find_by_id : ℕ → Action Users
find_by_id id = do u ← query (user_of id); require u Error.record_not_found

abbrev pub with_last_login : ℕ → Users → Users
with_last_login now u = record u { last_login_at = some now }

unfoldable pub update_last_login : ℕ → ℕ → Action (Unit {0})
update_last_login id now = exec (set_user id (with_last_login now))

abbrev pub with_password : List ℕ → List ℕ → Users → Users
with_password hash plain u = record u { password_hash = hash; password_plain = plain }

unfoldable pub update_password : ℕ → List ℕ → List ℕ → Action (Unit {0})
update_password id hash plain = exec (set_user id (with_password hash plain))

unfoldable pub list_non_official : Action (List VipDomainConfig)
list_non_official = query (λ t. select (λ d. not d.is_official) t.vip_domains)

-- Columns that the statement omits get the defaults of the table.
abbrev pub registered_row : Bool → Users → Users
registered_row true u = u
registered_row false u = record u { parent_user_id = 0; vip_config_id = 1; vip_domain = none }

abbrev pub add_user : Users → Tables → Tables
add_user u t = record t { users = t.users ++ u ∷ [] }

module _ (column_eq : List ℕ → List ℕ → Bool) where
  -- `column = ?`, which no NULL passes.
  abbrev pub holds : Option (List ℕ) → List ℕ → Bool
  holds none s = false
  holds (some c) s = column_eq c s

  -- The key of both is there and is the same.
  abbrev pub shares : Option (List ℕ) → Option (List ℕ) → Bool
  shares c none = false
  shares c (some s) = holds c s

  abbrev pub user_by_email : List ℕ → Tables → Option Users
  user_by_email email t = find_first (λ u. holds u.email email) t.users

  abbrev pub user_by_phone : List ℕ → Tables → Option Users
  user_by_phone phone t = find_first (λ u. holds u.phone phone) t.users

  unfoldable pub find_by_email : List ℕ → Action (Option Users)
  find_by_email email = query (user_by_email email)

  unfoldable pub find_by_phone : List ℕ → Action (Option Users)
  find_by_phone phone = query (user_by_phone phone)

  unfoldable pub find_by_vip_domain : List ℕ → Action (Option Users)
  find_by_vip_domain vip_domain =
      query (λ t. find_first (λ u. holds u.vip_domain vip_domain) t.users)

  -- The unique keys uk_users_email and uk_users_phone.
  abbrev pub same_identity : Users → Users → Bool
  same_identity u v = shares v.email u.email || shares v.phone u.phone

  -- … and uk_users_vip_domain.
  abbrev pub same_user_key : Users → Users → Bool
  same_user_key u v = same_identity u v || shares v.vip_domain u.vip_domain

  unfoldable pub create_register : Users → Bool → Action ℕ
  create_register u with_invite_fields =
      let row = registered_row with_invite_fields u in
      insert (λ t n. exists_where (same_user_key row) t.users)
        (λ n t. add_user (record row { id = n }) t)

  unfoldable pub find_by_domain : List ℕ → Action (Option VipDomainConfig)
  find_by_domain domain = query (λ t. find_first (λ d. column_eq d.domain domain) t.vip_domains)
