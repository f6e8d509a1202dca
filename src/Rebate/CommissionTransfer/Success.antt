-- ===== src/Rebate/CommissionTransfer/Success.antt =====
-- A transfer that may happen does happen.
use ai_token_mall.Prelude.{
  ℕ, ◌≡◌, refl, arith, false, Option, some, List, [], ◌∷◌, ◌++◌, exists_where,
}
use ai_token_mall.Prelude.Int.{ℤ, pos, ◌+ℤ◌, ◌-ℤ◌, ◌≤ℤ◌, ltb_ℤ, leb_ℤ, int_laws}
use ai_token_mall.Entity.{Users, UserWalletFlows, flow_type_eq}
use ai_token_mall.Store.Action.{Tables}
use ai_token_mall.Store.Yields.{
  Yields, Yields-pure, Yields-query, Yields-require, Yields-transaction, Yields-map_error,
  Yields-raise_if, Yields-exec, Yields-insert, Yields-bind,
}
use ai_token_mall.Store.Users.{user_of, find_by_id_for_update, transfer_commission_to_wallet}
use ai_token_mall.Store.Ledger.{same_flow, create_flow, create_notification}
use ai_token_mall.Rebate.Amount.{
  Decimal, parse_commission_amount_yuan, parse_commission_amount_yuan_bounds,
}
use ai_token_mall.Rebate.CommissionTransfer.{
  transfer_out, transfer_in, transfer_in_tx, transfer_commission_to_balance,
}
use ai_token_mall.Rebate.CommissionTransfer.Laws.{transferred}

-- A flow of another type has another key.
other_type :
    (fs : List UserWalletFlows) (a b : UserWalletFlows)
    → exists_where (same_flow b) fs ≡ false
    → flow_type_eq b.flow_type a.flow_type ≡ false
    → exists_where (same_flow b) (fs ++ a ∷ []) ≡ false
unfolding exists_where
other_type [] a b h k = ground arith
other_type (f ∷ fs) a b h k = ground (arith, other_type fs a b)

module _ (new_from_string : List ℕ → Option Decimal) (user_id : ℕ) (amount_str : List ℕ) (now : ℕ)
    (t : Tables) (u : Users) (amount : ℤ) where
  -- While no statement fails, an accepted amount that the commission of the user covers is
  -- transferred, if no flow of an earlier transfer has the same reference: the transfer returns,
  -- with the new balances.
  pub transfer_succeeds :
      parse_commission_amount_yuan new_from_string amount_str ≡ some amount
      → user_of user_id t ≡ some u
      → amount ≤ℤ u.commission_balance
      → exists_where (same_flow (transfer_out user_id amount (pos 0) now)) t.flows ≡ false
      → exists_where (same_flow (transfer_in user_id amount (pos 0) now)) t.flows ≡ false
      → Yields
          (transfer_commission_to_balance new_from_string user_id amount_str now)
          (λ r t'.
            (r ≡ (u.commission_balance -ℤ amount, u.wallet_balance +ℤ amount, amount))
            × (t' ≡ transferred user_id amount now u t))
          t
  unfolding transfer_commission_to_balance transfer_in_tx transfer_commission_to_wallet
      find_by_id_for_update create_flow create_notification
  transfer_succeeds parsed found covered no_out no_in =
      let bounds = parse_commission_amount_yuan_bounds new_from_string amount_str amount parsed in
      let positive : leb_ℤ amount (pos 0) ≡ false = let p = bounds.0 in ground arith in
      let enough : ltb_ℤ (u.commission_balance -ℤ amount) (pos 0) ≡ false =
        let left : pos 0 ≤ℤ u.commission_balance -ℤ amount = omega int_laws in ground arith in
      Yields-bind (
        Yields-require _ _ amount parsed (
          Yields-transaction (
            Yields-bind (
              Yields-map_error _ (
                Yields-bind (
                  Yields-query _ (
                    Yields-bind (
                      Yields-require _ _ u found (
                        Yields-bind (
                          Yields-raise_if _ _ positive (
                            Yields-bind (
                              Yields-raise_if _ _ enough (
                                Yields-bind (
                                  Yields-exec _ (
                                    Yields-pure _ (
                                      Yields-bind (
                                        Yields-map_error _ (
                                          Yields-insert _ _ (λ n. no_out)
                                            λ n. Yields-bind (
                                              Yields-map_error _ (
                                                Yields-insert _ _
                                                  (λ n.
                                                    other_type t.flows _
                                                      (transfer_in user_id amount
                                                        (u.wallet_balance +ℤ amount) now)
                                                      no_in refl)
                                                  λ n. Yields-bind (
                                                    Yields-map_error _ (
                                                      Yields-insert _ _ (λ n. refl)
                                                        λ n.
                                                          Yields-pure _
                                                            (refl, refl)))))))))))))))))))))))
