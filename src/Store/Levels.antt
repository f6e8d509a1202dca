-- ===== src/Store/Levels.antt =====
-- infrastructure/mysql/users.go and vip_config.go: the levels of users, and what the users that they
-- invited have paid. A map of the code is a function, which gives the zero value for a missing key.
use ai_token_mall.Prelude.{
  ℕ, Bool, ◌&&◌, ◌||◌, List, [], ◌∷◌, ◌==◌, ltb, leb, if◌then◌else◌, select, count_where, map, drop,
  take,
}
use ai_token_mall.Prelude.Int.{ℤ, pos, ◌+ℤ◌, ltb_ℤ, eqb_ℤ}
use ai_token_mall.Entity.{Users, UserOrders, VipConfig, is_completed}
use ai_token_mall.Store.Action.{Tables, Action, query, exec}
use ai_token_mall.Store.Users.{set_user}

-- ORDER BY sort_order ASC, id ASC
abbrev pub tier_before : VipConfig → VipConfig → Bool
tier_before a b =
    ltb_ℤ a.sort_order b.sort_order || (eqb_ℤ a.sort_order b.sort_order && leb a.id b.id)

unfoldable pub insert_tier : VipConfig → List VipConfig → List VipConfig
insert_tier a [] = a ∷ []
insert_tier a (b ∷ tiers) =
    let rest = insert_tier a tiers in if tier_before a b then a ∷ b ∷ tiers else b ∷ rest

unfoldable pub sort_tiers : List VipConfig → List VipConfig
unfolding insert_tier
sort_tiers [] = []
sort_tiers (a ∷ tiers) = insert_tier a (sort_tiers tiers)

abbrev pub enabled_tiers_of : Tables → List VipConfig
enabled_tiers_of t = sort_tiers (select (λ v. v.enabled) t.vip_configs)

unfoldable pub list_enabled : Action (List VipConfig)
list_enabled = query enabled_tiers_of

unfoldable pub list_all : Action (List VipConfig)
list_all = query (λ t. sort_tiers t.vip_configs)

abbrev pub is_invitee_of : ℕ → Users → Bool
is_invitee_of inviter_id u = u.parent_user_id == inviter_id

unfoldable pub count_by_parent_user_id : ℕ → Action ℕ
count_by_parent_user_id id = query (λ t. count_where (is_invitee_of id) t.users)

-- Only users with an inviter are grouped.
abbrev pub invite_counts_of : Tables → ℕ → ℕ
invite_counts_of t id = if ltb 0 id then count_where (is_invitee_of id) t.users else 0

unfoldable pub count_invitees_group_by_inviter : Action (ℕ → ℕ)
count_invitees_group_by_inviter = query invite_counts_of

-- The orders of the join, summed.
unfoldable pub completed_amount : ℕ → List UserOrders → ℤ
completed_amount user_id [] = pos 0
completed_amount user_id (o ∷ orders) =
    let rest = completed_amount user_id orders in
    if o.user_id == user_id && is_completed o.status then o.total_amount +ℤ rest else rest

unfoldable pub invitees_amount : ℕ → List Users → List UserOrders → ℤ
unfolding completed_amount
invitees_amount inviter_id [] orders = pos 0
invitees_amount inviter_id (u ∷ users) orders =
    let rest = invitees_amount inviter_id users orders in
    if is_invitee_of inviter_id u then completed_amount u.id orders +ℤ rest else rest

unfoldable pub sum_invitee_completed_order_amount_by_inviter : ℕ → Action ℤ
unfolding invitees_amount
sum_invitee_completed_order_amount_by_inviter id = query (λ t. invitees_amount id t.users t.orders)

abbrev pub invitee_paid_total_of : Tables → ℕ → ℤ
invitee_paid_total_of t id = if ltb 0 id then invitees_amount id t.users t.orders else pos 0

unfoldable pub sum_invitee_completed_order_amount_group_by_inviter : Action (ℕ → ℤ)
sum_invitee_completed_order_amount_group_by_inviter = query invitee_paid_total_of

pub record UserVipConfigRow : Type 0 where
  pub id : ℕ
  pub vip_config_id : ℕ

abbrev pub vip_config_row : Users → UserVipConfigRow
vip_config_row u = record { id = u.id; vip_config_id = u.vip_config_id }

-- An offset is never negative here.
abbrev pub page_limit : ℕ → ℕ
page_limit limit = if limit == 0 || ltb 2000 limit then 500 else limit

unfoldable pub list_id_and_vip_config_id : ℕ → ℕ → Action (List UserVipConfigRow)
list_id_and_vip_config_id offset limit =
    query (λ t. take (page_limit limit) (drop offset (map vip_config_row t.users)))

abbrev pub with_level : ℕ → Users → Users
with_level level u = record u { vip_config_id = level }

unfoldable pub update_vip_config_id : ℕ → ℕ → Action (Unit {0})
update_vip_config_id user_id vip_config_id = exec (set_user user_id (with_level vip_config_id))
