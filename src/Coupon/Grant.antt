-- ===== src/Coupon/Grant.antt =====
-- application/core-service/coupon/service.go: the coupons that a new user gets.
use ai_token_mall.Prelude.{
  ℕ, ◌+◌, ◌*◌, Bool, true, false, none, List, [], ◌∷◌, ◌++◌, ◌==◌, if◌then◌else◌,
}
use ai_token_mall.Entity.{UserCoupons, CouponCampaigns, CouponStatus}
use ai_token_mall.Text.{codes, decimal}
use ai_token_mall.Billing.{nanoseconds_per_day}
use ai_token_mall.Store.Action.{Error, Action, pure, raise, ◌>>=◌, catch}
use ai_token_mall.Store.Campaigns.{
  list_auto_grant_on_register, exists_by_user_and_campaign, create_coupon,
}

-- `UC-%d-%d-%d`
abbrev pub coupon_code_of : ℕ → ℕ → ℕ → List ℕ
coupon_code_of user_id campaign_id now =
    codes "UC-" ++ (decimal user_id ++ b'-' ∷ (decimal campaign_id ++ b'-' ∷ decimal now))

abbrev pub granted_coupon : ℕ → CouponCampaigns → ℕ → UserCoupons
granted_coupon user_id camp now = record {
  id = 0;
  user_id = user_id;
  campaign_id = camp.id;
  coupon_code = coupon_code_of user_id camp.id now;
  discount_type = camp.discount_type;
  discount_value = camp.discount_value;
  min_order_amount = camp.min_order_amount;
  status = CouponStatus.available;
  valid_from = now;
  valid_until = now + camp.valid_days * nanoseconds_per_day;
  used_at = none;
  order_id = none;
}

unfoldable pub is_duplicate : Error → Bool
is_duplicate Error.duplicate_entry = true
is_duplicate e = false

-- Error 1062 of MySQL: the coupon is skipped, and nothing is counted.
unfoldable pub skip_duplicate : Error → Action ℕ
skip_duplicate e = if is_duplicate e then pure 0 else raise e

unfoldable pub create_counted : UserCoupons → Action ℕ
create_counted row = do id ← create_coupon row; pure 1

-- The loop over the campaigns; the code drops the count when it returns an error.
unfoldable pub grant_each : ℕ → ℕ → List CouponCampaigns → ℕ → Action ℕ
unfolding skip_duplicate create_counted
grant_each user_id now [] granted = pure granted
grant_each user_id now (camp ∷ campaigns) granted = do
  dup ← exists_by_user_and_campaign user_id camp.id
  one ←
      (if dup
        then pure 0
        else catch (create_counted (granted_coupon user_id camp now)) skip_duplicate)
  grant_each user_id now campaigns (granted + one)

unfoldable pub grant_register_coupons : ℕ → ℕ → Action ℕ
unfolding grant_each
grant_register_coupons user_id now =
    if user_id == 0
    then pure 0
    else do campaigns ← list_auto_grant_on_register; grant_each user_id now campaigns 0
