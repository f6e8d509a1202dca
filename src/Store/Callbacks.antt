-- ===== src/Store/Callbacks.antt =====
-- infrastructure/mysql/payment_callbacks.go
use ai_token_mall.Prelude.{
  ℕ, Bool, ◌&&◌, Option, List, [], ◌∷◌, ◌++◌, String, str_eq, find_first, exists_where,
}
use ai_token_mall.Entity.{PaymentCallbacks}
use ai_token_mall.Text.{codes_eq}
use ai_token_mall.Store.Action.{Tables, Action, query, insert}

abbrev pub has_key : String → List ℕ → PaymentCallbacks → Bool
has_key channel idempotency_key c =
    str_eq c.channel channel && codes_eq c.idempotency_key idempotency_key

unfoldable pub callback_of : String → List ℕ → List PaymentCallbacks → Option PaymentCallbacks
callback_of channel idempotency_key = find_first (has_key channel idempotency_key)

unfoldable pub find_by_idempotency : String → List ℕ → Action (Option PaymentCallbacks)
find_by_idempotency channel idempotency_key =
    query (λ t. callback_of channel idempotency_key t.callbacks)

abbrev pub add_callback : PaymentCallbacks → Tables → Tables
add_callback row t = record t { callbacks = t.callbacks ++ row ∷ [] }

-- uk_payment_callbacks_idem (channel, idempotency_key)
unfoldable pub create_callback : PaymentCallbacks → Action ℕ
create_callback row =
    insert (λ t n. exists_where (has_key row.channel row.idempotency_key) t.callbacks)
      (λ n t. add_callback row t)
