-- ===== src/Store/Users.antt =====
-- infrastructure/mysql/users.go: balances and the reads of single users.
use mathlib.Core.Option
use ai_token_mall.Prelude.{
  ℕ, ◌≡◌, Option, List, ◌==◌, find_first, update_where, find_first-update_where, if◌then◌else◌,
}
use ai_token_mall.Prelude.Int.{ℤ, pos, ◌+ℤ◌, ◌-ℤ◌, ltb_ℤ, leb_ℤ}
use ai_token_mall.Entity.{Users}
use ai_token_mall.Store.Action.{
  Tables, Error, Action, pure, ◌>>=◌, ◌>>◌, query, exec, raise_if, require,
}

-- The user that an id names.
unfoldable pub lookup_user : ℕ → List Users → Option Users
lookup_user id = find_first (λ u. u.id == id)

unfoldable pub update_user : ℕ → (Users → Users) → List Users → List Users
update_user id = update_where (λ u. u.id == id)

pub lookup_user-update_user :
    (f : Users → Users) (j k : ℕ) (us : List Users)
    → ((u : Users) → (f u).id ≡ u.id)
    → lookup_user k (update_user j f us)
      ≡ (if j == k then Option.map f (lookup_user k us) else lookup_user k us)
unfolding lookup_user update_user
lookup_user-update_user f j k us keeps = find_first-update_where (λ u. u.id) f keeps j k us

abbrev pub with_commission : ℤ → Users → Users
with_commission bal r = record r { commission_balance = bal }

abbrev pub with_wallet : ℤ → Users → Users
with_wallet bal r = record r { wallet_balance = bal }

abbrev pub with_both : ℤ → ℤ → Users → Users
with_both commission wallet r = record r {
  commission_balance = commission;
  wallet_balance = wallet;
}

abbrev pub user_of : ℕ → Tables → Option Users
user_of id t = lookup_user id t.users

abbrev pub set_user : ℕ → (Users → Users) → Tables → Tables
set_user id f t = record t { users = update_user id f t.users }

-- The row lock has no counterpart: a transaction runs alone.
unfoldable pub find_by_id_for_update : ℕ → Action (Option Users)
find_by_id_for_update id = query (user_of id)

unfoldable pub apply_commission_delta : ℕ → ℤ → Action ℤ
unfolding find_by_id_for_update
apply_commission_delta id delta = do
  u ← require (← find_by_id_for_update id) Error.record_not_found
  let new_bal = u.commission_balance +ℤ delta
  raise_if (ltb_ℤ new_bal (pos 0)) Error.insufficient_commission_balance
  exec (set_user id (with_commission new_bal))
  pure new_bal

unfoldable pub transfer_commission_to_wallet : ℕ → ℤ → Action (ℤ × ℤ)
unfolding find_by_id_for_update
transfer_commission_to_wallet id amount = do
  u ← require (← find_by_id_for_update id) Error.record_not_found
  raise_if (leb_ℤ amount (pos 0)) Error.invalid_transfer_amount
  let new_commission = u.commission_balance -ℤ amount
  raise_if (ltb_ℤ new_commission (pos 0)) Error.insufficient_commission_balance
  let new_wallet = u.wallet_balance +ℤ amount
  exec (set_user id (with_both new_commission new_wallet))
  pure (new_commission, new_wallet)

unfoldable pub apply_wallet_delta : ℕ → ℤ → Action ℤ
unfolding find_by_id_for_update
apply_wallet_delta id delta = do
  u ← require (← find_by_id_for_update id) Error.record_not_found
  let new_bal = u.wallet_balance +ℤ delta
  raise_if (ltb_ℤ new_bal (pos 0)) Error.insufficient_wallet_balance
  exec (set_user id (with_wallet new_bal))
  pure new_bal
