-- ===== src/Rebate/OrderRebate/Laws.antt =====
-- The laws of an accrual: the books stay reconciled, no balance falls below zero, an order earns once.
use ai_token_mall.Prelude.{
  ℕ, ◌*◌, ◌≤◌, ◌≡◌, ◌⊎◌, refl, some, inl, inr, ◌==◌, arith, ==_refl, find_first-append, find_first,
  [], ◌∷◌,
}
use ai_token_mall.Prelude.Int.{pos, ◌≤ℤ◌}
use ai_token_mall.Money.Rounding.{round_div_share, round_div_nonneg, *ℤ-pos}
use ai_token_mall.Entity.{Products, UserOrders, UserCommissionRecords}
use ai_token_mall.Store.Action.{Tables}
use ai_token_mall.Store.Books.{KeepsBooks}
use ai_token_mall.Store.Ensures.{Ensures, Ensures-weaken, Ensures-pure, Ensures-bind}
use ai_token_mall.Store.Ledger.{add_record, record_of_order}
use ai_token_mall.Store.Rules.{Ensures-find_record_by_order_id}
use ai_token_mall.Store.Balances.{Reconciled, Reconciled-refl, Solvent}
use ai_token_mall.Store.Balances.Posting.{post_commission, NonNegative-with_commission}
use ai_token_mall.Rebate.OrderRebate.{
  rebate_of, rebate_record, current_rate, accrue_unless_recorded,
  accrue_invite_rebate_for_paid_order,
}
use ai_token_mall.Rebate.OrderRebate.Accrual.{Settles, Accrues, accrue-Accrues}

-- At a rate of at most 100%, the rebate on an amount that is not negative lies between zero and the
-- amount.
pub rebate_bounds :
    (amount rate : ℕ)
    → rate ≤ 10000
    → (pos 0 ≤ℤ rebate_of (pos amount) (pos rate))
      × (rebate_of (pos amount) (pos rate) ≤ℤ pos amount)
unfolding rebate_of
rebate_bounds a r h =
    rw (*ℤ-pos a r) (round_div_nonneg (pos (a * r)) 10000 (omega arith), round_div_share a r h)

module _ (order : UserOrders) (product : Products) (t : Tables) where
  Accrues-Reconciled : (t' : Tables) → Accrues order product t t' → Reconciled t t'
  Accrues-Reconciled t' (inl same) = rw same (Reconciled-refl t)
  Accrues-Reconciled t' (inr s) = rw s.result (
      post_commission
        (add_record
          (record (rebate_record order product s.buyer.parent_user_id (current_rate s.inviter t)) {
            id = s.record_id;
          })
          t)
        s.buyer.parent_user_id s.inviter s.invited _ _ refl refl refl refl)

  -- Whatever statement fails, an accrual that returns has recorded each change of a balance by a
  -- flow of the same amount.
  pub accrue-Reconciled :
      Ensures (accrue_invite_rebate_for_paid_order order product) (λ _. Reconciled t) t
  accrue-Reconciled =
      Ensures-weaken (accrue-Accrues order product t) (λ _ t' h. Accrues-Reconciled t' h)

  Accrues-Solvent : (t' : Tables) → Solvent t → Accrues order product t t' → Solvent t'
  Accrues-Solvent t' h (inl same) = rw same h
  Accrues-Solvent t' h (inr s) =
      rw s.result (NonNegative-with_commission t.users s.buyer.parent_user_id h _ s.covered)

  pub accrue-Solvent :
      Solvent t → Ensures (accrue_invite_rebate_for_paid_order order product) (λ _. Solvent) t
  accrue-Solvent h =
      Ensures-weaken (accrue-Accrues order product t) (λ _ t' a. Accrues-Solvent t' h a)

  -- An order that has its record earns nothing more.
  pub accrue_recorded :
      (r : UserCommissionRecords)
      → record_of_order order.id t ≡ some r
      → Ensures (accrue_invite_rebate_for_paid_order order product) (λ _ t'. t' ≡ t) t
  unfolding accrue_invite_rebate_for_paid_order accrue_unless_recorded
  accrue_recorded r found =
      Ensures-bind (Ensures-find_record_by_order_id order.id (rw found (Ensures-pure tt refl)))

  Settles-recorded :
      (t' : Tables)
      → Settles order product t t'
      → (r : UserCommissionRecords) × (record_of_order order.id t' ≡ some r)
  unfolding record_of_order find_first
  Settles-recorded t' s =
      let row =
        record (rebate_record order product s.buyer.parent_user_id (current_rate s.inviter t)) {
          id = s.record_id;
        } in
      (
        row,
        rw s.result (
            rw (
              find_first-append (λ r. r.order_id == order.id) t.records (row ∷ []),
              s.first,
              ==_refl,
            )),
      )

-- An accrual that returns has changed nothing, or a further accrual for the same order that returns
-- leaves every table as it is: an order is rebated once.
pub accrue_once :
    (order : UserOrders) (product : Products) (t : Tables)
    → Ensures
        (accrue_invite_rebate_for_paid_order order product)
        (λ _ t'.
          (t' ≡ t)
          ⊎ Ensures (accrue_invite_rebate_for_paid_order order product) (λ _ t''. t'' ≡ t') t')
        t
accrue_once order product t = Ensures-weaken (accrue-Accrues order product t) λ _ t' a. elim a [
  | inl same ↦ inl same
  | inr s ↦
      let (r, found) = Settles-recorded order product t t' s in
      inr (accrue_recorded order product t' r found)
]

-- The rebate of an order keeps the books.
pub accrue-Booked :
    (order : UserOrders) (product : Products)
    → KeepsBooks (accrue_invite_rebate_for_paid_order order product)
accrue-Booked order product t = Ensures-weaken (accrue-Accrues order product t) λ _ t' a. record {
  reconciled = Accrues-Reconciled order product t t' a;
  solvent = λ h. Accrues-Solvent order product t t' h a;
}
