-- ===== src/Coupon/Laws.antt =====
-- The use of a coupon by a paid order, and the expiry of coupons.
use ai_token_mall.Prelude.{
  ℕ, ◌≡◌, refl, ap, ◌∙◌, arith, Bool, true, false, ◌&&◌, ◌==◌, ltb, Option, some, List, [], ◌∷◌,
  find_first, find_first_sound, update_where, count_where, exists_where,
}
use ai_token_mall.Prelude.Keys.{Unique, find_first_updated}
use ai_token_mall.Entity.{CouponStatus, UserCoupons, OrderRawCoupon, is_available}
use ai_token_mall.Store.Action.{Tables}
use ai_token_mall.Store.Ensures.{
  Ensures, Ensures-pure, Ensures-raise, Ensures-query, Ensures-exec, Ensures-bind, Ensures-if,
  Ensures-weaken,
}
use ai_token_mall.Store.Coupons.{
  coupon_for_user, find_coupon_for_user, set_coupons, is_available_with_id, use_for,
  mark_coupon_used, is_overdue, expire, expire_available_before,
}
use ai_token_mall.Coupon.{coupon_id_of, mark_used_from_order_raw_request, run_coupon_expire}

module _ (user_id order_id : ℕ) (raw : Option OrderRawCoupon) (at : ℕ) (t : Tables)
    (c : UserCoupons) (named : (coupon_id_of raw == 0) ≡ false)
    (found : coupon_for_user user_id (coupon_id_of raw) t.coupons ≡ some c) where
  -- A coupon that is no longer available is left as it is.
  mark_used_keeps :
      is_available c.status ≡ false
      → Ensures (mark_used_from_order_raw_request user_id order_id raw at) (λ _ t'. t' ≡ t) t
  unfolding mark_used_from_order_raw_request find_coupon_for_user
  mark_used_keeps gone =
      rw named (Ensures-bind (Ensures-query _ (rw found (rw gone (Ensures-pure tt refl)))))

  mark_used_marks :
      is_available c.status ≡ true
      → Ensures
          (mark_used_from_order_raw_request user_id order_id raw at)
          (λ _ t'.
            t' ≡ set_coupons (is_available_with_id (coupon_id_of raw)) (use_for order_id at) t)
          t
  unfolding mark_used_from_order_raw_request find_coupon_for_user mark_coupon_used
  mark_used_marks there = rw named (
      Ensures-bind (
        Ensures-query _ (
          rw found (
            rw there (
              Ensures-bind (
                Ensures-query _ (
                  Ensures-bind (
                    Ensures-exec _ (
                      Ensures-if (exists_where (is_available_with_id (coupon_id_of raw)) t.coupons)
                        (λ _. Ensures-pure tt refl) (λ _. Ensures-raise _))))))))))

module _ (before : ℕ) where
  expired_none :
      (cs : List UserCoupons)
      → count_where (is_overdue before) (update_where (is_overdue before) expire cs) ≡ 0
  unfolding count_where update_where
  expired_none [] = refl
  expired_none (c ∷ cs) = ground (arith, expired_none cs)

  -- The expiry job that returns answers with the number of coupons that were available and whose
  -- end of validity lies before its time. It has set the status of exactly these to expired, so
  -- that no coupon of the kind is left, and has changed nothing else.
  pub coupon_expire_leaves_none :
      (t : Tables)
      → Ensures
          (run_coupon_expire before)
          (λ n t'.
            (n ≡ count_where (λ c. is_available c.status && ltb c.valid_until before) t.coupons)
            × (t' ≡ record t {
              coupons =
                  update_where
                    (λ c. is_available c.status && ltb c.valid_until before)
                    (λ c. record c { status = CouponStatus.expired })
                    t.coupons;
            })
            × (count_where (λ c. is_available c.status && ltb c.valid_until before) t'.coupons ≡ 0))
          t
  unfolding run_coupon_expire expire_available_before
  coupon_expire_leaves_none t = Ensures-bind (
      Ensures-query _
        (Ensures-bind (Ensures-exec _ (Ensures-pure _ (refl, refl, expired_none t.coupons)))))

-- The ids of coupons being unique, the mark by a paid order of an available coupon of the user that
-- it names, if it returns, has set the coupon's status to used, with the order and the time. A
-- later mark of the same coupon, for any order and at any time, that returns changes nothing, so
-- the coupon stays with the first order.
pub coupon_used_once :
    (user_id order_id : ℕ) (raw : Option OrderRawCoupon) (at : ℕ) (t : Tables) (c : UserCoupons)
    → Unique (λ r. r.id) t.coupons
    → (coupon_id_of raw == 0) ≡ false
    → coupon_for_user user_id (coupon_id_of raw) t.coupons ≡ some c
    → is_available c.status ≡ true
    → Ensures
        (mark_used_from_order_raw_request user_id order_id raw at)
        (λ _ t'.
          (coupon_for_user user_id (coupon_id_of raw) t'.coupons
            ≡ some (record c {
              status = CouponStatus.used;
              used_at = some at;
              order_id = some order_id;
            }))
          × ((order_id' at' : ℕ)
              → Ensures
                  (mark_used_from_order_raw_request user_id order_id' raw at')
                  (λ _ t''. t'' ≡ t')
                  t'))
        t
unfolding coupon_for_user
coupon_used_once user_id order_id raw at t c unique named found there =
    let p : UserCoupons → Bool = λ r. r.id == coupon_id_of raw && r.user_id == user_id in
    let passes : p c ≡ true = find_first_sound p t.coupons c found in
    let after =
      find_first_updated (λ r. r.id) p (is_available_with_id (coupon_id_of raw))
        (use_for order_id at) t.coupons c unique found passes (ground arith)
        (λ b h. ground arith) in
    Ensures-weaken (mark_used_marks user_id order_id raw at t c named found there) λ _ t' e.
      let now_used = ap (λ s. find_first p s.coupons) e ∙ after in
      (
        now_used,
        λ order_id' at'.
            mark_used_keeps user_id order_id' raw at' t' (use_for order_id at c) named now_used
              refl,
      )
