-- ===== src/Order/Fulfill/Books.antt =====
-- The payments of orders keep the books.
use ai_token_mall.Prelude.{ℕ, refl, Option, none, some, String, str_eq}
use ai_token_mall.Entity.{Products, UserOrders, PaymentCallbacks, is_completed}
use ai_token_mall.Store.Action.{Tables}
use ai_token_mall.Store.Ensures.{Ensures, Ensures-bind, Ensures-if}
use ai_token_mall.Store.Rules.{Ensures-apply_wallet_delta, Ensures-create_flow}
use ai_token_mall.Store.Balances.{Reconciled, Solvent}
use ai_token_mall.Store.Balances.Posting.{post_wallet, post_third_party, NonNegative-with_wallet}
use ai_token_mall.Store.Keeps.{
  Keeps-pure, Keeps-query, Keeps-require, Keeps-if, Keeps-transaction, Keeps-bind, Keeps-raise_if,
  Keeps-exec, Keeps-catch-insert,
}
use ai_token_mall.Store.Books.{Booked-frame, books_frame, KeepsBooks, books_of}
use ai_token_mall.Store.Orders.{find_order_by_out_trade_no, update_order_fields, find_product_by_id}
use ai_token_mall.Store.Callbacks.{find_by_idempotency, create_callback}
use ai_token_mall.Rebate.OrderRebate.Laws.{accrue-Booked}
use ai_token_mall.Order.Payment.{deduct_balance_and_record_flow}
use ai_token_mall.Order.Keeps.{balance_renewal-Keeps}
use ai_token_mall.Order.Fulfill.{
  PaymentNotifyInput, insert_callback, complete_and_fulfill, apply_to_order, apply_unless_seen,
  apply_payment_notify_success, fulfill_balance_renewal_in_tx,
}
use ai_token_mall.Order.Fulfill.Keeps.{deliver-Keeps}

pub deduct-KeepsBooks :
    (order : UserOrders) (channel : String)
    → KeepsBooks (deduct_balance_and_record_flow order channel)
unfolding deduct_balance_and_record_flow
deduct-KeepsBooks order channel t =
    Ensures-if (str_eq channel "balance")
      (λ _. Ensures-bind (
        Ensures-apply_wallet_delta order.user_id _ λ u found covered. Ensures-create_flow _ λ _ _.
          record {
            reconciled = post_wallet t order.user_id u found _ _ refl refl refl refl;
            solvent = λ h. NonNegative-with_wallet t.users order.user_id h _ covered;
          }))
      (λ _.
        Ensures-create_flow _
          λ _ _. record { reconciled = post_third_party t _ refl refl; solvent = λ h. h })

pub balance_renewal-KeepsBooks :
    (order : UserOrders) (product : Products) (now : ℕ)
    → KeepsBooks (fulfill_balance_renewal_in_tx order product now)
balance_renewal-KeepsBooks order product now =
    balance_renewal-Keeps books_frame deduct-KeepsBooks order product now accrue-Booked

module _ (in_ : PaymentNotifyInput) (generated : Option String) (now : ℕ) where
  complete-KeepsBooks :
      (order : UserOrders) (product : Products)
      → KeepsBooks (complete_and_fulfill in_ order product generated now)
  unfolding complete_and_fulfill update_order_fields
  complete-KeepsBooks order product =
      Keeps-bind books_frame (Keeps-exec books_frame _ λ t. Booked-frame t _ refl refl)
        λ _. deliver-Keeps books_frame in_ deduct-KeepsBooks accrue-Booked generated now _ product

  apply_to_order-KeepsBooks :
      (order : UserOrders) → KeepsBooks (apply_to_order in_ order generated now)
  unfolding apply_to_order insert_callback create_callback find_product_by_id
  apply_to_order-KeepsBooks order =
      Keeps-if books_frame (is_completed order.status)
        (Keeps-catch-insert books_frame _ _ (λ _. books_frame.callback _))
        (Keeps-bind books_frame (Keeps-raise_if books_frame _ _) λ _.
          Keeps-bind books_frame (Keeps-query books_frame _) λ found.
            Keeps-bind books_frame (Keeps-require books_frame found _)
              λ product. complete-KeepsBooks order product)

  unless_seen-KeepsBooks :
      (existed : Option PaymentCallbacks) → KeepsBooks (apply_unless_seen in_ generated now existed)
  unfolding find_order_by_out_trade_no
  unless_seen-KeepsBooks (some existed) = Keeps-pure books_frame _
  unless_seen-KeepsBooks none =
      Keeps-bind books_frame (Keeps-query books_frame _) λ found.
        Keeps-bind books_frame (Keeps-require books_frame found _) apply_to_order-KeepsBooks

  pub apply-KeepsBooks : KeepsBooks (apply_payment_notify_success in_ generated now)
  unfolding apply_payment_notify_success find_by_idempotency
  apply-KeepsBooks =
      Keeps-transaction books_frame
        (Keeps-bind books_frame (Keeps-query books_frame _) unless_seen-KeepsBooks)

  -- A payment notice that returns, on tables without a negative balance: the flows that it adds
  -- account for every change of a wallet or a commission, and no balance falls below zero.
  pub apply_keeps_books :
      (t : Tables)
      → Solvent t
      → Ensures
          (apply_payment_notify_success in_ generated now)
          (λ _ t'. Reconciled t t' × Solvent t')
          t
  apply_keeps_books t h = books_of apply-KeepsBooks h
