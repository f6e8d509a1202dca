-- ===== src/Store/Coupons.antt =====
-- infrastructure/mysql/user_coupons.go
use ai_token_mall.Prelude.{
  ℕ, Bool, ◌&&◌, Option, none, some, List, ◌==◌, ltb, find_first, update_where, exists_where,
  count_where, if◌then◌else◌,
}
use ai_token_mall.Entity.{UserCoupons, CouponStatus, is_available}
use ai_token_mall.Store.Action.{Tables, Error, Action, pure, raise, ◌>>=◌, ◌>>◌, query, exec}

unfoldable pub coupon_for_user : ℕ → ℕ → List UserCoupons → Option UserCoupons
coupon_for_user user_id id = find_first (λ c. c.id == id && c.user_id == user_id)

unfoldable pub find_coupon_for_user : ℕ → ℕ → Action (Option UserCoupons)
find_coupon_for_user user_id id =
    if id == 0 then pure none else query (λ t. coupon_for_user user_id id t.coupons)

abbrev pub set_coupons : (UserCoupons → Bool) → (UserCoupons → UserCoupons) → Tables → Tables
set_coupons p f t = record t { coupons = update_where p f t.coupons }

abbrev pub is_available_with_id : ℕ → UserCoupons → Bool
is_available_with_id id c = c.id == id && is_available c.status

abbrev pub use_for : ℕ → ℕ → UserCoupons → UserCoupons
use_for order_id used_at c = record c {
  status = CouponStatus.used;
  used_at = some used_at;
  order_id = some order_id;
}

-- One statement: it reads the rows that it changes, and their number decides the error.
unfoldable pub mark_coupon_used : ℕ → ℕ → ℕ → Action (Unit {0})
mark_coupon_used id order_id used_at = do
  affected ← query (λ t. exists_where (is_available_with_id id) t.coupons)
  exec (set_coupons (is_available_with_id id) (use_for order_id used_at))
  if affected then pure tt else raise Error.record_not_found

abbrev pub is_overdue : ℕ → UserCoupons → Bool
is_overdue before c = is_available c.status && ltb c.valid_until before

abbrev pub expire : UserCoupons → UserCoupons
expire c = record c { status = CouponStatus.expired }

-- The number of rows that expired.
unfoldable pub expire_available_before : ℕ → Action ℕ
expire_available_before before = do
  affected ← query (λ t. count_where (is_overdue before) t.coupons)
  exec (set_coupons (is_overdue before) expire)
  pure affected
