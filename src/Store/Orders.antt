-- ===== src/Store/Orders.antt =====
-- infrastructure/mysql/user_orders.go and the product lookups of products.go.
use ai_token_mall.Prelude.{
  ℕ, Bool, false, ◌&&◌, ◌||◌, Option, none, some, List, [], ◌∷◌, ◌++◌, ◌==◌, find_first,
  update_where, exists_where, if◌then◌else◌,
}
use ai_token_mall.Entity.{
  OrderType, OrderStatus, OrderNo, Products, UserOrders, UserSubscriptions, is_pending_payment,
}
use ai_token_mall.Text.{codes_eq}
use ai_token_mall.Store.Action.{Tables, Action, pure, ◌>>◌, query, exec, insert, transaction}

abbrev pub order_no_eq : OrderNo → OrderNo → Bool
order_no_eq (OrderNo.ap a b) (OrderNo.ap c d) = a == c && b == d
order_no_eq (OrderNo.rn a b) (OrderNo.rn c d) = a == c && b == d
order_no_eq _ _ = false

-- uk_user_orders_order_no, uk_user_orders_out_trade_no
abbrev pub same_order_key : UserOrders → UserOrders → Bool
same_order_key a b = order_no_eq a.order_no b.order_no || codes_eq a.out_trade_no b.out_trade_no

abbrev pub add_order : UserOrders → Tables → Tables
add_order row t = record t { orders = t.orders ++ row ∷ [] }

-- `CreateOrder` and `CreateTx`.
unfoldable pub create_order : UserOrders → Action ℕ
create_order row =
    insert (λ t n. exists_where (same_order_key row) t.orders)
      (λ n t. add_order (record row { id = n }) t)

-- `user_id = ? AND user_subscription_id = ? AND order_type = ? AND status = 'pending_payment'`
abbrev pub is_pending_for : (OrderType → Bool) → ℕ → ℕ → UserOrders → Bool
is_pending_for type_test user_id subscription_id o =
    o.user_id == user_id
    && o.user_subscription_id == subscription_id
    && type_test o.order_type
    && is_pending_payment o.status

abbrev pub cancel : ℕ → UserOrders → UserOrders
cancel now o = record o { status = OrderStatus.cancelled; closed_at = some now }

-- The three `Create…OrderReplacingPending` differ in the type of the orders that they cancel.
unfoldable pub create_order_replacing_pending : (OrderType → Bool) → ℕ → UserOrders → Action ℕ
unfolding create_order
create_order_replacing_pending type_test now order = transaction (do
  exec (λ t. record t {
    orders =
        update_where (is_pending_for type_test order.user_id order.user_subscription_id)
          (cancel now) t.orders;
  })
  create_order order)

unfoldable pub order_by_out_trade_no : List ℕ → List UserOrders → Option UserOrders
order_by_out_trade_no out_trade_no = find_first (λ o. codes_eq o.out_trade_no out_trade_no)

-- `FindOrderByOutTradeNo` and `FindByOutTradeNoForUpdate`.
unfoldable pub find_order_by_out_trade_no : List ℕ → Action (Option UserOrders)
find_order_by_out_trade_no out_trade_no = query (λ t. order_by_out_trade_no out_trade_no t.orders)

unfoldable pub update_order : ℕ → (UserOrders → UserOrders) → List UserOrders → List UserOrders
update_order id = update_where (λ o. o.id == id)

-- `UpdateFields`
unfoldable pub update_order_fields : ℕ → (UserOrders → UserOrders) → Action (Unit {0})
update_order_fields id f = exec (λ t. record t { orders = update_order id f t.orders })

unfoldable pub subscription_for_user : ℕ → ℕ → List UserSubscriptions → Option UserSubscriptions
subscription_for_user user_id id = find_first (λ s. s.id == id && s.user_id == user_id)

-- `FindSubscriptionForUser`: the id 0 is answered without a statement.
unfoldable pub find_subscription_for_user : ℕ → ℕ → Action (Option UserSubscriptions)
find_subscription_for_user user_id id =
    if id == 0 then pure none else query (λ t. subscription_for_user user_id id t.subscriptions)

unfoldable pub find_product_by_id : ℕ → Action (Option Products)
find_product_by_id id = query (λ t. find_first (λ p. p.id == id) t.products)

unfoldable pub find_on_sale_by_id : ℕ → Action (Option Products)
find_on_sale_by_id id = query (λ t. find_first (λ p. p.id == id && p.on_sale) t.products)
