-- ===== src/Store/Balances.antt =====
-- The two balances of a user against the wallet flows that record their changes.
pub mod Posting
use ai_token_mall.Prelude.{
  ℕ, ◌≡◌, refl, ap, sym, ◌∙◌, Bool, true, false, ◌&&◌, ◌⊎◌, inl, inr, Option, none, some, List, [],
  ◌∷◌, ◌++◌, ◌==◌, arith, if◌then◌else◌, Option-cases, Bool-cases, find_first-update_where,
  find_first, update_where,
}
use ai_token_mall.Prelude.Int.{ℤ, pos, ◌+ℤ◌, ◌-ℤ◌, ◌≤ℤ◌, neg_ℤ, int_laws, +ℤ-zero}
use mathlib.Core.Option
use ai_token_mall.Entity.{Users, UserWalletFlows, FlowType}
use ai_token_mall.Store.Action.{Tables}
use ai_token_mall.Store.Users.{
  with_commission, with_wallet, with_both, lookup_user, update_user, lookup_user-update_user,
  user_of, set_user,
}
use ai_token_mall.Store.Ledger.{add_flow}

abbrev pub commission_in : Option Users → ℤ
commission_in none = pos 0
commission_in (some u) = u.commission_balance

abbrev pub wallet_in : Option Users → ℤ
wallet_in none = pos 0
wallet_in (some u) = u.wallet_balance

abbrev pub commission_of : ℕ → Tables → ℤ
commission_of id t = commission_in (user_of id t)

abbrev pub wallet_of : ℕ → Tables → ℤ
wallet_of id t = wallet_in (user_of id t)

-- The flows that stand for a change of `commission_balance`.
abbrev pub moves_commission : UserWalletFlows → Bool
moves_commission f = elim f.flow_type [
  | FlowType.commission ↦ true
  | FlowType.withdraw ↦ true
  | FlowType.recharge ↦ false
  | FlowType.pay ↦ false
]

-- The flows that stand for a change of `wallet_balance`: a payment by a third party leaves
-- `balance_after` empty.
abbrev pub moves_wallet : UserWalletFlows → Bool
moves_wallet f = elim f.flow_type [
  | FlowType.commission ↦ false
  | FlowType.withdraw ↦ false
  | FlowType.recharge ↦ true
  | FlowType.pay ↦ elim f.balance_after [ none ↦ false | some _ ↦ true ]
]

module _ (counts : UserWalletFlows → Bool) (id : ℕ) where
  abbrev pub share : UserWalletFlows → ℤ
  share f = if f.user_id == id && counts f then f.amount else pos 0

  pub flow_sum : List UserWalletFlows → ℤ
  flow_sum [] = pos 0
  flow_sum (f ∷ fs) = share f +ℤ flow_sum fs

  pub flow_sum-append :
      (fs : List UserWalletFlows) (f : UserWalletFlows)
      → flow_sum (fs ++ f ∷ []) ≡ flow_sum fs +ℤ share f
  unfolding flow_sum
  flow_sum-append [] f = omega int_laws
  flow_sum-append (g ∷ fs) f = rw (flow_sum-append fs f) (omega int_laws)

-- What the flows do not account for.
abbrev pub commission_drift : ℕ → List Users → List UserWalletFlows → ℤ
commission_drift id us fs = commission_in (lookup_user id us) -ℤ flow_sum moves_commission id fs

abbrev pub wallet_drift : ℕ → List Users → List UserWalletFlows → ℤ
wallet_drift id us fs = wallet_in (lookup_user id us) -ℤ flow_sum moves_wallet id fs

-- Between two states of the users and the flows, every change of a balance is recorded by flows of the
-- same amount.
pub record Balanced (us us' : List Users) (fs fs' : List UserWalletFlows) : Type 0 where
  pub commission : (id : ℕ) → commission_drift id us' fs' ≡ commission_drift id us fs
  pub wallet : (id : ℕ) → wallet_drift id us' fs' ≡ wallet_drift id us fs

abbrev pub Reconciled : Tables → Tables → Type 0
Reconciled t t' = Balanced t.users t'.users t.flows t'.flows

pub Reconciled-refl : (t : Tables) → Reconciled t t
Reconciled-refl t = record { commission = λ id. refl; wallet = λ id. refl }

pub Reconciled-trans : (t u v : Tables) → Reconciled t u → Reconciled u v → Reconciled t v
Reconciled-trans t u v h k = record {
  commission = λ id. k.commission id ∙ h.commission id;
  wallet = λ id. k.wallet id ∙ h.wallet id;
}

-- No balance is below zero.
pub record NonNegative (us : List Users) : Type 0 where
  pub commission : (id : ℕ) → pos 0 ≤ℤ commission_in (lookup_user id us)
  pub wallet : (id : ℕ) → pos 0 ≤ℤ wallet_in (lookup_user id us)

abbrev pub Solvent : Tables → Type 0
Solvent t = NonNegative t.users
