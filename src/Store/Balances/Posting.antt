-- ===== src/Store/Balances/Posting.antt =====
-- Postings: a change of a balance together with the flow that records it.
use ai_token_mall.Prelude.{
  ℕ, ◌≡◌, refl, true, false, some, List, [], ◌∷◌, ◌++◌, ◌==◌, arith, if◌then◌else◌,
}
use ai_token_mall.Prelude.Int.{ℤ, pos, ◌+ℤ◌, ◌≤ℤ◌, int_laws, +ℤ-zero}
use ai_token_mall.Entity.{Users, UserWalletFlows}
use ai_token_mall.Store.Action.{Tables}
use ai_token_mall.Store.Users.{
  with_commission, with_wallet, with_both, lookup_user, update_user, lookup_user-update_user,
  user_of, set_user,
}
use ai_token_mall.Store.Ledger.{add_flow}
use ai_token_mall.Store.Balances.{
  commission_in, wallet_in, moves_commission, moves_wallet, share, flow_sum-append, Reconciled,
  NonNegative,
}

-- The two sides of one posting: the balance of `j` moves by `d`, and so does the sum of its flows.
module _ (us : List Users) (j : ℕ) (u : Users) (found : lookup_user j us ≡ some u) (id : ℕ) where
  abbrev moved : ℤ → ℤ
  moved d = if j == id then d else pos 0

  commission-with_commission :
      (d : ℤ)
      → commission_in
          (lookup_user id (update_user j (with_commission (u.commission_balance +ℤ d)) us))
        ≡ commission_in (lookup_user id us) +ℤ moved d
  commission-with_commission d =
      rw (lookup_user-update_user (with_commission (u.commission_balance +ℤ d)) j id us (λ r. refl))
        (ground (arith, +ℤ-zero (commission_in (lookup_user id us))))

  wallet-with_commission :
      (c : ℤ)
      → wallet_in (lookup_user id (update_user j (with_commission c) us))
        ≡ wallet_in (lookup_user id us)
  wallet-with_commission c =
      rw (lookup_user-update_user (with_commission c) j id us (λ r. refl)) (ground arith)

  wallet-with_wallet :
      (d : ℤ)
      → wallet_in (lookup_user id (update_user j (with_wallet (u.wallet_balance +ℤ d)) us))
        ≡ wallet_in (lookup_user id us) +ℤ moved d
  wallet-with_wallet d =
      rw (lookup_user-update_user (with_wallet (u.wallet_balance +ℤ d)) j id us (λ r. refl))
        (ground (arith, +ℤ-zero (wallet_in (lookup_user id us))))

  commission-with_wallet :
      (w : ℤ)
      → commission_in (lookup_user id (update_user j (with_wallet w) us))
        ≡ commission_in (lookup_user id us)
  commission-with_wallet w =
      rw (lookup_user-update_user (with_wallet w) j id us (λ r. refl)) (ground arith)

  commission-with_both :
      (d w : ℤ)
      → commission_in (lookup_user id (update_user j (with_both (u.commission_balance +ℤ d) w) us))
        ≡ commission_in (lookup_user id us) +ℤ moved d
  commission-with_both d w =
      rw (lookup_user-update_user (with_both (u.commission_balance +ℤ d) w) j id us (λ r. refl))
        (ground (arith, +ℤ-zero (commission_in (lookup_user id us))))

  wallet-with_both :
      (c d : ℤ)
      → wallet_in (lookup_user id (update_user j (with_both c (u.wallet_balance +ℤ d)) us))
        ≡ wallet_in (lookup_user id us) +ℤ moved d
  wallet-with_both c d =
      rw (lookup_user-update_user (with_both c (u.wallet_balance +ℤ d)) j id us (λ r. refl))
        (ground (arith, +ℤ-zero (wallet_in (lookup_user id us))))

-- A posting: a change of one balance of `j` by `d`, with the flow that records it.
module _ (t : Tables) (j : ℕ) (u : Users) (found : user_of j t ≡ some u) (d : ℤ)
    (row : UserWalletFlows) where
  pub post_commission :
      row.user_id ≡ j
      → row.amount ≡ d
      → moves_commission row ≡ true
      → moves_wallet row ≡ false
      → Reconciled t (add_flow row (set_user j (with_commission (u.commission_balance +ℤ d)) t))
  post_commission owner amount counts other = record {
    commission = λ id.
        rw
          (
            commission-with_commission t.users j u found id d,
            flow_sum-append moves_commission id t.flows row,
          )
          (let e : share moves_commission id row ≡ moved t.users j u found id d = ground arith in
            rw e (omega int_laws));
    wallet = λ id.
        rw
          (
            wallet-with_commission t.users j u found id (u.commission_balance +ℤ d),
            flow_sum-append moves_wallet id t.flows row,
          )
          (let e : share moves_wallet id row ≡ pos 0 = ground arith in rw e (omega int_laws));
  }

  pub post_wallet :
      row.user_id ≡ j
      → row.amount ≡ d
      → moves_commission row ≡ false
      → moves_wallet row ≡ true
      → Reconciled t (add_flow row (set_user j (with_wallet (u.wallet_balance +ℤ d)) t))
  post_wallet owner amount other counts = record {
    commission = λ id.
        rw
          (
            commission-with_wallet t.users j u found id (u.wallet_balance +ℤ d),
            flow_sum-append moves_commission id t.flows row,
          )
          (let e : share moves_commission id row ≡ pos 0 = ground arith in rw e (omega int_laws));
    wallet = λ id.
        rw (wallet-with_wallet t.users j u found id d, flow_sum-append moves_wallet id t.flows row)
          (let e : share moves_wallet id row ≡ moved t.users j u found id d = ground arith in
            rw e (omega int_laws));
  }

  -- A transfer between the two balances of one user, with its two flows.
  pub post_transfer :
      (row' : UserWalletFlows) (e : ℤ)
      → (row.user_id ≡ j)
        × (row.amount ≡ d)
        × (moves_commission row ≡ true)
        × (moves_wallet row ≡ false)
      → (row'.user_id ≡ j)
        × (row'.amount ≡ e)
        × (moves_commission row' ≡ false)
        × (moves_wallet row' ≡ true)
      → Reconciled t (
          add_flow row' (
            add_flow row
              (set_user j (with_both (u.commission_balance +ℤ d) (u.wallet_balance +ℤ e)) t)))
  post_transfer row' e h h' = record {
    commission = λ id.
        rw
          (
            commission-with_both t.users j u found id d (u.wallet_balance +ℤ e),
            flow_sum-append moves_commission id (t.flows ++ row ∷ []) row',
            flow_sum-append moves_commission id t.flows row,
          )
          (let p : share moves_commission id row ≡ moved t.users j u found id d = ground arith in
            let q : share moves_commission id row' ≡ pos 0 = ground arith in
            rw (p, q) (omega int_laws));
    wallet = λ id.
        rw
          (
            wallet-with_both t.users j u found id (u.commission_balance +ℤ d) e,
            flow_sum-append moves_wallet id (t.flows ++ row ∷ []) row',
            flow_sum-append moves_wallet id t.flows row,
          )
          (let p : share moves_wallet id row ≡ pos 0 = ground arith in
            let q : share moves_wallet id row' ≡ moved t.users j u found id e = ground arith in
            rw (p, q) (omega int_laws));
  }

-- A flow that stands for no balance changes nothing.
pub post_third_party :
    (t : Tables) (row : UserWalletFlows)
    → moves_commission row ≡ false
    → moves_wallet row ≡ false
    → Reconciled t (add_flow row t)
post_third_party t row a b = record {
  commission = λ id.
      rw (flow_sum-append moves_commission id t.flows row)
        (let e : share moves_commission id row ≡ pos 0 = ground arith in rw e (omega int_laws));
  wallet = λ id.
      rw (flow_sum-append moves_wallet id t.flows row)
        (let e : share moves_wallet id row ≡ pos 0 = ground arith in rw e (omega int_laws));
}

module _ (us : List Users) (j : ℕ) (h : NonNegative us) where
  pub NonNegative-with_commission :
      (c : ℤ) → pos 0 ≤ℤ c → NonNegative (update_user j (with_commission c) us)
  NonNegative-with_commission c p = record {
    commission = λ id.
        rw (lookup_user-update_user (with_commission c) j id us (λ r. refl))
          (ground (arith, h.commission id));
    wallet = λ id.
        rw (lookup_user-update_user (with_commission c) j id us (λ r. refl))
          (ground (arith, h.wallet id));
  }

  pub NonNegative-with_wallet :
      (w : ℤ) → pos 0 ≤ℤ w → NonNegative (update_user j (with_wallet w) us)
  NonNegative-with_wallet w p = record {
    commission = λ id.
        rw (lookup_user-update_user (with_wallet w) j id us (λ r. refl))
          (ground (arith, h.commission id));
    wallet = λ id.
        rw (lookup_user-update_user (with_wallet w) j id us (λ r. refl))
          (ground (arith, h.wallet id));
  }

  pub NonNegative-with_both :
      (c w : ℤ) → pos 0 ≤ℤ c → pos 0 ≤ℤ w → NonNegative (update_user j (with_both c w) us)
  NonNegative-with_both c w p q = record {
    commission = λ id.
        rw (lookup_user-update_user (with_both c w) j id us (λ r. refl))
          (ground (arith, h.commission id));
    wallet = λ id.
        rw (lookup_user-update_user (with_both c w) j id us (λ r. refl))
          (ground (arith, h.wallet id));
  }
