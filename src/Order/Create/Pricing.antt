-- ===== src/Order/Create/Pricing.antt =====
-- The price of a new order, and its place among the orders.
use ai_token_mall.Prelude.{
  ℕ, ◌+◌, ◌*◌, ◌≤◌, ◌<◌, ◌≡◌, refl, arith, ◌⊎◌, inl, inr, Bool, true, false, List, [], ◌∷◌,
  update_where, count_where, count_where-append, if◌then◌else◌,
}
use ai_token_mall.Prelude.Int.{ℤ, pos, negsuc, ◌-ℤ◌, ◌≤ℤ◌, ltb_ℤ, pos_part}
use ai_token_mall.Money.{add_invoice_surcharge}
use ai_token_mall.Money.Rounding.{surcharge_nearest}
use ai_token_mall.Entity.{OrderType, UserOrders}
use ai_token_mall.Store.Action.{Tables}
use ai_token_mall.Store.Ensures.{
  Ensures, Ensures-exec, Ensures-insert, Ensures-bind, Ensures-transaction,
}
use ai_token_mall.Store.Orders.{
  is_pending_for, cancel, create_order, create_order_replacing_pending,
}
use ai_token_mall.Order.Create.{order_total}

-- The amount with the surcharge of 6% is no less, and is the nearest cent to 106% of the amount.
abbrev pub IsSurcharged : ℤ → ℤ → Type 0
IsSurcharged amount surcharged =
    (amount ≤ℤ surcharged)
    × (200 * pos_part surcharged ≤ 212 * pos_part amount + 100)
    × (212 * pos_part amount < 200 * pos_part surcharged + 100)

surcharge-IsSurcharged : (a : ℕ) → IsSurcharged (pos a) (add_invoice_surcharge (pos a) (pos 6))
surcharge-IsSurcharged a =
    let (upper, lower, whole) = surcharge_nearest a 6 in (omega arith, omega arith, omega arith)

-- Whatever the subtotal and the discount, the total without an invoice is the larger one of zero
-- and their difference; with an invoice it is the nearest cent to 106% of that, and no less.
pub order_total_bounds :
    (subtotal discount : ℤ)
    → (pos 0 ≤ℤ order_total subtotal discount false)
      × (subtotal -ℤ discount ≤ℤ order_total subtotal discount false)
      × ((order_total subtotal discount false ≡ pos 0)
          ⊎ (order_total subtotal discount false ≡ subtotal -ℤ discount))
      × IsSurcharged (order_total subtotal discount false) (order_total subtotal discount true)
unfolding order_total
order_total_bounds s d = go (s -ℤ d)
  where
    go :
        (a : ℤ)
        → (pos 0 ≤ℤ (if ltb_ℤ a (pos 0) then pos 0 else a))
          × (a ≤ℤ (if ltb_ℤ a (pos 0) then pos 0 else a))
          × (((if ltb_ℤ a (pos 0) then pos 0 else a) ≡ pos 0)
              ⊎ ((if ltb_ℤ a (pos 0) then pos 0 else a) ≡ a))
          × IsSurcharged
              (if ltb_ℤ a (pos 0) then pos 0 else a)
              (add_invoice_surcharge (if ltb_ℤ a (pos 0) then pos 0 else a) (pos 6))
    go (pos n) =
        let kept : ltb_ℤ (pos n) (pos 0) ≡ false = ground arith in
        rw kept (omega arith, omega arith, inr refl, surcharge-IsSurcharged n)
    go (negsuc n) =
        let clamped : ltb_ℤ (negsuc n) (pos 0) ≡ true = ground arith in
        rw clamped (omega arith, omega arith, inl refl, surcharge-IsSurcharged 0)

module _ (type_test : OrderType → Bool) (user_id sub_id now : ℕ) where
  cancelled_none :
      (os : List UserOrders)
      → count_where
          (is_pending_for type_test user_id sub_id)
          (update_where (is_pending_for type_test user_id sub_id) (cancel now) os)
        ≡ 0
  unfolding count_where update_where
  cancelled_none [] = refl
  cancelled_none (o ∷ os) = ground (arith, cancelled_none os)

-- After a pending order of one of the three replacing kinds is saved, it is the only pending order
-- of its kind for its user and subscription.
pub replacing_leaves_one :
    (type_test : OrderType → Bool) (now : ℕ) (order : UserOrders) (t : Tables)
    → is_pending_for type_test order.user_id order.user_subscription_id order ≡ true
    → Ensures
        (create_order_replacing_pending type_test now order)
        (λ _ t'.
          count_where (is_pending_for type_test order.user_id order.user_subscription_id) t'.orders
          ≡ 1)
        t
unfolding create_order_replacing_pending create_order count_where
replacing_leaves_one type_test now order t pending =
    let p = is_pending_for type_test order.user_id order.user_subscription_id in
    let none_left =
      cancelled_none type_test order.user_id order.user_subscription_id now t.orders in
    Ensures-transaction (
      Ensures-bind (
        Ensures-exec _ (
          Ensures-insert _ _ λ n _.
            rw
              (
                count_where-append p (update_where p (cancel now) t.orders)
                    (record order { id = n } ∷ []),
                none_left,
                pending,
              )
              refl)))
