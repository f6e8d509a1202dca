-- ===== src/Order/Fulfill/Keeps.antt =====
-- The delivery of a paid order keeps what its postings keep.
use ai_token_mall.Prelude.{ℕ, ◌==◌, Option, String}
use ai_token_mall.Entity.{Products, UserOrders, OrderRawCoupon}
use ai_token_mall.Store.Action.{Tables}
use ai_token_mall.Store.Keeps.{
  Keeps, Frame, Keeps-pure, Keeps-raise, Keeps-query, Keeps-if, Keeps-bind, Keeps-exec,
  Keeps-insert,
}
use ai_token_mall.Store.Callbacks.{create_callback}
use ai_token_mall.Store.Coupons.{find_coupon_for_user, mark_coupon_used}
use ai_token_mall.Store.Ledger.{create_invoice}
use ai_token_mall.Coupon.{mark_used_from_order_raw_request, coupon_id_of, not_available}
use ai_token_mall.Rebate.OrderRebate.{accrue_invite_rebate_for_paid_order}
use ai_token_mall.Order.Payment.{deduct_balance_and_record_flow}
use ai_token_mall.Order.Keeps.{by_type-Keeps}
use ai_token_mall.Order.Fulfill.{PaymentNotifyInput, insert_callback, create_order_invoice, deliver}

module _ {R : Tables → Tables → Type 0} (fr : Frame R) where
  mark_coupon_used-Keeps : (id order_id at : ℕ) → Keeps R (mark_coupon_used id order_id at)
  unfolding mark_coupon_used
  mark_coupon_used-Keeps id order_id at = Keeps-bind fr (Keeps-query fr _) λ affected.
      Keeps-bind fr (Keeps-exec fr _ (fr.coupons _ _))
        λ _. Keeps-if fr affected (Keeps-pure fr _) (Keeps-raise fr _)

  find_coupon-Keeps : (user_id id : ℕ) → Keeps R (find_coupon_for_user user_id id)
  unfolding find_coupon_for_user
  find_coupon-Keeps user_id id = Keeps-if fr (id == 0) (Keeps-pure fr _) (Keeps-query fr _)

  pub mark_used-Keeps :
      (user_id order_id : ℕ) (raw : Option OrderRawCoupon) (at : ℕ)
      → Keeps R (mark_used_from_order_raw_request user_id order_id raw at)
  unfolding mark_used_from_order_raw_request
  mark_used-Keeps user_id order_id raw at = Keeps-if fr (coupon_id_of raw == 0) (Keeps-pure fr _) (
      Keeps-bind fr (find_coupon-Keeps user_id _) λ row.
        Keeps-if fr (not_available row) (Keeps-pure fr _) (mark_coupon_used-Keeps _ order_id at))

  pub invoice-Keeps : (order : UserOrders) → Keeps R (create_order_invoice order)
  unfolding create_order_invoice create_invoice
  invoice-Keeps order =
      Keeps-if fr (order.enterprise_invoice == 0) (Keeps-pure fr _)
        (Keeps-bind fr (Keeps-insert fr _ _ (λ _. fr.invoice _)) (λ _. Keeps-pure fr _))

  module _ (in_ : PaymentNotifyInput) where
    insert_callback-Keeps : (result : String) → Keeps R (insert_callback in_ result)
    unfolding insert_callback create_callback
    insert_callback-Keeps result =
        Keeps-bind fr (Keeps-insert fr _ _ (λ _. fr.callback _)) (λ _. Keeps-pure fr _)

    module _
        (deduct : (order : UserOrders) (channel : String)
          → Keeps R (deduct_balance_and_record_flow order channel))
        (accrue : (order : UserOrders) (product : Products)
          → Keeps R (accrue_invite_rebate_for_paid_order order product)) where
      pub deliver-Keeps :
          (generated : Option String) (now : ℕ) (order : UserOrders) (product : Products)
          → Keeps R (deliver in_ order product generated now)
      unfolding deliver
      deliver-Keeps generated now order product =
          Keeps-bind fr
            (by_type-Keeps fr deduct order product now order.order_type in_.channel generated)
            λ _.
              Keeps-bind fr (mark_used-Keeps order.user_id order.id order.raw_request_json now) λ _.
                Keeps-bind fr (accrue order product)
                  λ _. Keeps-bind fr (invoice-Keeps order) λ _. insert_callback-Keeps "success"
