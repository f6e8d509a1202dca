-- ===== src/Store/Campaigns.antt =====
-- infrastructure/mysql/coupon_campaigns.go, and the grants of user_coupons.go.
use ai_token_mall.Prelude.{ℕ, Bool, ◌&&◌, ◌||◌, List, [], ◌∷◌, ◌++◌, ◌==◌, select, exists_where}
use ai_token_mall.Entity.{UserCoupons, CouponCampaigns}
use ai_token_mall.Text.{codes_eq}
use ai_token_mall.Store.Action.{Tables, Action, query, insert}

-- Rows are kept in the order of their ids.
abbrev pub auto_grants_of : Tables → List CouponCampaigns
auto_grants_of t = select (λ c. c.auto_grant_on_register && c.enabled) t.campaigns

unfoldable pub list_auto_grant_on_register : Action (List CouponCampaigns)
list_auto_grant_on_register = query auto_grants_of

abbrev pub is_grant : ℕ → ℕ → UserCoupons → Bool
is_grant user_id campaign_id c = c.user_id == user_id && c.campaign_id == campaign_id

unfoldable pub exists_by_user_and_campaign : ℕ → ℕ → Action Bool
exists_by_user_and_campaign user_id campaign_id =
    query (λ t. exists_where (is_grant user_id campaign_id) t.coupons)

-- The unique keys uk_user_coupons_code and uk_user_coupons_user_campaign.
abbrev pub same_coupon : UserCoupons → UserCoupons → Bool
same_coupon row c = codes_eq c.coupon_code row.coupon_code || is_grant row.user_id row.campaign_id c

abbrev pub add_coupon : UserCoupons → Tables → Tables
add_coupon row t = record t { coupons = t.coupons ++ row ∷ [] }

unfoldable pub create_coupon : UserCoupons → Action ℕ
create_coupon row =
    insert (λ t n. exists_where (same_coupon row) t.coupons)
      (λ n t. add_coupon (record row { id = n }) t)
