-- ===== src/Store/Keeps.antt =====
-- Actions that keep a relation: whatever tables they start from, when they return, the tables that they
-- leave are related to those. One rule for each way to build an action.
use ai_token_mall.Prelude.{ℕ, Bool, true, false, Option, if◌then◌else◌}
use ai_token_mall.Entity.{
  UserSubscriptions, UserApiKeys, UserNotifications, UserCoupons, UserInvoices, PaymentCallbacks,
}
use ai_token_mall.Store.Action.{
  Tables, Error, Action, pure, raise, ◌>>=◌, query, exec, insert, catch, map_error, transaction,
  raise_if, require,
}
use ai_token_mall.Store.Ensures.{
  Ensures, Ensures-pure, Ensures-raise, Ensures-query, Ensures-exec, Ensures-insert, Ensures-bind,
  Ensures-require, Ensures-raise_if, Ensures-map_error, Ensures-transaction, Ensures-weaken,
  Ensures-catch-insert,
}
use ai_token_mall.Store.Ledger.{add_notification, add_invoice}
use ai_token_mall.Store.Subscriptions.{add_subscription, set_subscription}
use ai_token_mall.Store.ApiKeys.{add_api_key, set_api_keys}
use ai_token_mall.Store.Coupons.{set_coupons}
use ai_token_mall.Store.Callbacks.{add_callback}

abbrev pub Keeps : (Tables → Tables → Type 0) → {A : Type 0} → Action A → Type 0
Keeps R m = (t : Tables) → Ensures m (λ _. R t) t

-- A relation that chains, and that the other changes of a delivery respect.
pub record Frame (R : Tables → Tables → Type 0) : Type 0 where
  pub same : (t : Tables) → R t t
  pub chain : (t u v : Tables) → R t u → R u v → R t v
  pub notification : (row : UserNotifications) (t : Tables) → R t (add_notification row t)
  pub new_subscription : (row : UserSubscriptions) (t : Tables) → R t (add_subscription row t)
  pub subscription :
      (id : ℕ) (f : UserSubscriptions → UserSubscriptions) (t : Tables)
      → R t (set_subscription id f t)
  pub new_api_key : (row : UserApiKeys) (t : Tables) → R t (add_api_key row t)
  pub api_keys :
      (p : UserApiKeys → Bool) (f : UserApiKeys → UserApiKeys) (t : Tables)
      → R t (set_api_keys p f t)
  pub coupons :
      (p : UserCoupons → Bool) (f : UserCoupons → UserCoupons) (t : Tables)
      → R t (set_coupons p f t)
  pub invoice : (row : UserInvoices) (t : Tables) → R t (add_invoice row t)
  pub callback : (row : PaymentCallbacks) (t : Tables) → R t (add_callback row t)

module _ {R : Tables → Tables → Type 0} (fr : Frame R) where
  pub Keeps-pure : {A : Type 0} (a : A) → Keeps R (pure a)
  Keeps-pure a t = Ensures-pure a (fr.same t)

  pub Keeps-raise : {A : Type 0} (e : Error) → Keeps R (raise {A = A} e)
  Keeps-raise e t = Ensures-raise e

  pub Keeps-query : {A : Type 0} (f : Tables → A) → Keeps R (query f)
  Keeps-query f t = Ensures-query f (fr.same t)

  pub Keeps-require : {A : Type 0} (o : Option A) (e : Error) → Keeps R (require o e)
  Keeps-require o e t = Ensures-require o e (λ a _. fr.same t)

  pub Keeps-if :
      {A : Type 0} (b : Bool) {m n : Action A}
      → Keeps R m
      → Keeps R n
      → Keeps R (if b then m else n)
  Keeps-if true km kn = km
  Keeps-if false km kn = kn

  pub Keeps-map_error :
      {A : Type 0} (f : Error → Error) {m : Action A} → Keeps R m → Keeps R (map_error f m)
  Keeps-map_error f k t = Ensures-map_error f (k t)

  pub Keeps-transaction : {A : Type 0} {m : Action A} → Keeps R m → Keeps R (transaction m)
  Keeps-transaction k t = Ensures-transaction (k t)

  pub Keeps-bind :
      {A B : Type 0} {m : Action A} {f : A → Action B}
      → Keeps R m
      → ((a : A) → Keeps R (f a))
      → Keeps R (m >>= f)
  Keeps-bind km kf t =
      Ensures-bind (
        Ensures-weaken (km t) λ a t' b. Ensures-weaken (kf a t') λ c t'' b'. fr.chain t t' t'' b b')

  pub Keeps-raise_if : (b : Bool) (e : Error) → Keeps R (raise_if b e)
  Keeps-raise_if b e t = Ensures-raise_if b e (λ _. fr.same t)

  pub Keeps-exec : (f : Tables → Tables) → ((t : Tables) → R t (f t)) → Keeps R (exec f)
  Keeps-exec f h t = Ensures-exec f (h t)

  module _ (clash : Tables → ℕ → Bool) (f : ℕ → Tables → Tables)
      (h : (n : ℕ) (t : Tables) → R t (f n t)) where
    pub Keeps-insert : Keeps R (insert clash f)
    Keeps-insert t = Ensures-insert clash f (λ n _. h n t)

    -- An insert whose error is dropped.
    pub Keeps-catch-insert : Keeps R (catch (insert clash f >>= λ _. pure tt) (λ _. pure tt))
    Keeps-catch-insert t = Ensures-catch-insert (λ _. R t) t clash f (fr.same t) (λ n _. h n t)
