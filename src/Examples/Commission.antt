-- ===== src/Examples/Commission.antt =====
-- Commission in the shop: rebates, transfers and withdrawals.
use ai_token_mall.Prelude.{
  ℕ, ◌≡◌, ◌⊎◌, refl, true, false, Bool, ◌≤◌, Option, none, some, List, [], ◌∷◌, arith, All, ◌&&◌,
  if◌then◌else◌,
}
use ai_token_mall.Prelude.Int.{ℤ, pos, ◌+ℤ◌, ◌≤ℤ◌}
use ai_token_mall.Text.{codes, codes_eq}
use ai_token_mall.Entity.{VipConfig}
use ai_token_mall.Store.Action.{Tables, Db, Outcome, ok, err, Error}
use ai_token_mall.Store.Ensures.{Ensures}
use ai_token_mall.Store.Balances.{Solvent, Reconciled}
use ai_token_mall.Rebate.Amount.{
  Decimal, parse_commission_amount_yuan, parse_commission_amount_yuan_bounds, max_amount,
}
use ai_token_mall.Rebate.VipTier.{best_qualifying_vip_tier}
use ai_token_mall.Rebate.VipTier.Best.{IsChoice, Unbeaten, best_qualifying_vip_tier_best}
use ai_token_mall.Rebate.OrderRebate.{accrue_invite_rebate_for_paid_order}
use ai_token_mall.Rebate.OrderRebate.Accrual.{Accrues, accrue-Accrues}
use ai_token_mall.Rebate.OrderRebate.Laws.{accrue_once}
use ai_token_mall.Rebate.CommissionTransfer.{transfer_commission_to_balance}
use ai_token_mall.Store.Yields.{Yields}
use ai_token_mall.Rebate.CommissionTransfer.Success.{transfer_succeeds}
use ai_token_mall.Rebate.CommissionTransfer.Laws.{
  transferred, Transfers, transfer-Transfers, transfer_conserves, transfer_atomic,
}
use ai_token_mall.Rebate.CommissionWithdraw.{create_commission_withdrawal}
use ai_token_mall.Rebate.CommissionWithdraw.Laws.{
  Withdraws, withdraw-Withdraws, withdraw_keeps_books,
}
use ai_token_mall.Examples.{shop, shop-Solvent, purchase, plan, inviter, level}

-- A decimal parser that knows one text, "12.5".
abbrev parse : List ℕ → Option Decimal
parse text = if codes_eq text (codes "12.5") then some (pos 125, 1) else none

parse_commission_amount_yuan_bounds_example : (pos 1 ≤ℤ pos 1250) × (pos 1250 ≤ℤ max_amount)
unfolding ai_token_mall.Text.trim_space ai_token_mall.Text.trim_left ai_token_mall.Text.trim_right
    ai_token_mall.Text.is_space ai_token_mall.Text.lower_code ai_token_mall.Text.upper_code
    ai_token_mall.Text.to_lower ai_token_mall.Text.to_upper ai_token_mall.Text.codes_eq
    ai_token_mall.Rebate.Amount.round_cents ai_token_mall.Rebate.Amount.parse_commission_amount_yuan
    ai_token_mall.Prelude.Int.◌*ℤ◌
parse_commission_amount_yuan_bounds_example =
    parse_commission_amount_yuan_bounds parse (codes " 12.5") (pos 1250) refl

transfer-Transfers_example :
    Ensures
      (transfer_commission_to_balance parse 1 (codes "12.5") 77)
      (Transfers parse (codes "12.5") 1 77 shop)
      shop
transfer-Transfers_example = transfer-Transfers parse 1 (codes "12.5") 77 shop

transfer_succeeds_example :
    Yields
      (transfer_commission_to_balance parse 1 (codes "12.5") 77)
      (λ r t'.
        (r ≡ (pos 28750, pos 1750, pos 1250)) × (t' ≡ transferred 1 (pos 1250) 77 inviter shop))
      shop
unfolding ai_token_mall.Store.Action.pure ai_token_mall.Store.Action.raise
    ai_token_mall.Store.Action.◌>>=◌ ai_token_mall.Store.Action.consume
    ai_token_mall.Store.Action.statement ai_token_mall.Store.Action.query
    ai_token_mall.Store.Action.exec ai_token_mall.Store.Action.insert
    ai_token_mall.Store.Action.catch ai_token_mall.Store.Action.map_error
    ai_token_mall.Store.Action.transaction ai_token_mall.Store.Users.lookup_user
    ai_token_mall.Store.Users.update_user ai_token_mall.Store.Users.find_by_id_for_update
    ai_token_mall.Store.Users.apply_commission_delta
    ai_token_mall.Store.Users.transfer_commission_to_wallet
    ai_token_mall.Store.Users.apply_wallet_delta ai_token_mall.Store.Ledger.create_flow
    ai_token_mall.Store.Ledger.record_of_order ai_token_mall.Store.Ledger.find_record_by_order_id
    ai_token_mall.Store.Ledger.create_record ai_token_mall.Store.Ledger.create_withdrawal
    ai_token_mall.Store.Ledger.create_notification ai_token_mall.Store.Ledger.create_invoice
    ai_token_mall.Store.Ledger.vip_config_of ai_token_mall.Store.Ledger.find_vip_config_by_id
    ai_token_mall.Store.Ledger.find_default_vip_config ai_token_mall.Store.Ledger.find_payout
    ai_token_mall.Prelude.find_first ai_token_mall.Prelude.find_last
    ai_token_mall.Prelude.update_where ai_token_mall.Prelude.exists_where
    ai_token_mall.Prelude.count_where ai_token_mall.Prelude.Int.◌+ℤ◌ ai_token_mall.Prelude.Int.◌-ℤ◌
    ai_token_mall.Prelude.Int.◌*ℤ◌ ai_token_mall.Prelude.Int.neg_ℤ ai_token_mall.Prelude.Int.wrap_64
    ai_token_mall.Rebate.CommissionTransfer.transfer_commission_to_balance
    ai_token_mall.Text.trim_space ai_token_mall.Text.trim_left ai_token_mall.Text.trim_right
    ai_token_mall.Text.is_space ai_token_mall.Text.lower_code ai_token_mall.Text.upper_code
    ai_token_mall.Text.to_lower ai_token_mall.Text.to_upper ai_token_mall.Text.codes_eq
    ai_token_mall.Rebate.Amount.round_cents ai_token_mall.Rebate.Amount.parse_commission_amount_yuan
transfer_succeeds_example =
    transfer_succeeds parse 1 (codes "12.5") 77 shop inviter (pos 1250) refl refl (omega arith) refl
      refl

transfer_conserves_example :
    Ensures
      (transfer_commission_to_balance parse 1 (codes "12.5") 77)
      (λ r t'. (r.0 +ℤ r.1 ≡ pos 30000 +ℤ pos 500) × Solvent t' × Reconciled shop t')
      shop
unfolding ai_token_mall.Store.Users.lookup_user ai_token_mall.Prelude.find_first
transfer_conserves_example =
    transfer_conserves parse 1 (codes "12.5") 77 shop inviter refl shop-Solvent

abbrev db_after : {A : Type 0} → Outcome A → Db
db_after (ok a db) = db
db_after (err e db) = db

-- The third statement of the transaction fails, after the balances were written.
abbrev faulty : Db
faulty = record { tables = shop; seq = 100; faults = false ∷ false ∷ true ∷ [] }

abbrev broken : Outcome (ℤ × ℤ × ℤ)
broken = transfer_commission_to_balance parse 1 (codes "12.5") 77 faulty

transfer_atomic_example : (db_after broken).tables ≡ shop
unfolding ai_token_mall.Store.Action.pure ai_token_mall.Store.Action.raise
    ai_token_mall.Store.Action.◌>>=◌ ai_token_mall.Store.Action.consume
    ai_token_mall.Store.Action.statement ai_token_mall.Store.Action.query
    ai_token_mall.Store.Action.exec ai_token_mall.Store.Action.insert
    ai_token_mall.Store.Action.catch ai_token_mall.Store.Action.map_error
    ai_token_mall.Store.Action.transaction ai_token_mall.Store.Users.lookup_user
    ai_token_mall.Store.Users.update_user ai_token_mall.Store.Users.find_by_id_for_update
    ai_token_mall.Store.Users.apply_commission_delta
    ai_token_mall.Store.Users.transfer_commission_to_wallet
    ai_token_mall.Store.Users.apply_wallet_delta ai_token_mall.Store.Ledger.create_flow
    ai_token_mall.Store.Ledger.record_of_order ai_token_mall.Store.Ledger.find_record_by_order_id
    ai_token_mall.Store.Ledger.create_record ai_token_mall.Store.Ledger.create_withdrawal
    ai_token_mall.Store.Ledger.create_notification ai_token_mall.Store.Ledger.create_invoice
    ai_token_mall.Store.Ledger.vip_config_of ai_token_mall.Store.Ledger.find_vip_config_by_id
    ai_token_mall.Store.Ledger.find_default_vip_config ai_token_mall.Store.Ledger.find_payout
    ai_token_mall.Prelude.find_first ai_token_mall.Prelude.find_last
    ai_token_mall.Prelude.update_where ai_token_mall.Prelude.exists_where
    ai_token_mall.Prelude.count_where ai_token_mall.Prelude.Int.◌+ℤ◌ ai_token_mall.Prelude.Int.◌-ℤ◌
    ai_token_mall.Prelude.Int.◌*ℤ◌ ai_token_mall.Prelude.Int.neg_ℤ ai_token_mall.Prelude.Int.wrap_64
    ai_token_mall.Rebate.CommissionTransfer.transfer_commission_to_balance
    ai_token_mall.Text.trim_space ai_token_mall.Text.trim_left ai_token_mall.Text.trim_right
    ai_token_mall.Text.is_space ai_token_mall.Text.lower_code ai_token_mall.Text.upper_code
    ai_token_mall.Text.to_lower ai_token_mall.Text.to_upper ai_token_mall.Text.codes_eq
    ai_token_mall.Rebate.Amount.round_cents ai_token_mall.Rebate.Amount.parse_commission_amount_yuan
transfer_atomic_example =
    transfer_atomic parse 1 (codes "12.5") 77 faulty (db_after broken) Error.db_error refl

withdraw-Withdraws_example :
    Ensures
      (create_commission_withdrawal parse 1 (codes "12.5") (codes "Alipay"))
      (Withdraws parse (codes "12.5") (codes "Alipay") 1 shop)
      shop
withdraw-Withdraws_example = withdraw-Withdraws parse 1 (codes "12.5") (codes "Alipay") shop

withdraw_keeps_books_example :
    Ensures
      (create_commission_withdrawal parse 1 (codes "12.5") (codes "Alipay"))
      (λ _ t'. Solvent t' × Reconciled shop t')
      shop
withdraw_keeps_books_example =
    withdraw_keeps_books parse 1 (codes "12.5") (codes "Alipay") shop shop-Solvent

accrue-Accrues_example :
    Ensures
      (accrue_invite_rebate_for_paid_order purchase plan)
      (λ _. Accrues purchase plan shop)
      shop
accrue-Accrues_example = accrue-Accrues purchase plan shop

accrue_once_example :
    Ensures
      (accrue_invite_rebate_for_paid_order purchase plan)
      (λ _ t'.
        (t' ≡ shop)
        ⊎ Ensures (accrue_invite_rebate_for_paid_order purchase plan) (λ _ t''. t'' ≡ t') t')
      shop
accrue_once_example = accrue_once purchase plan shop

abbrev gold : VipConfig
gold = record level { id = 2; min_valid_invites = 5; sort_order = pos 1 }

best_qualifying_vip_tier_best_example :
    IsChoice 7 (pos 0) (level ∷ gold ∷ []) (best_qualifying_vip_tier (level ∷ gold ∷ []) 7 (pos 0))
    × All
        (Unbeaten 7 (pos 0) (best_qualifying_vip_tier (level ∷ gold ∷ []) 7 (pos 0)))
        (level ∷ gold ∷ [])
best_qualifying_vip_tier_best_example = best_qualifying_vip_tier_best 7 (pos 0) (level ∷ gold ∷ [])
