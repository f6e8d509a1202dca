-- ===== src/Rebate/OrderRebate/Accrual.antt =====
-- What an accrual changes: nothing, or the four writes of one settled rebate.
use ai_token_mall.Prelude.{
  ℕ, ◌+◌, ◌*◌, ◌≤◌, ◌<◌, ◌≡◌, ◌≢◌, refl, ap, subst, ◌∙◌, true, false, Option, none, some, [], ◌∷◌,
  ◌++◌, ◌⊎◌, inl, inr, ◌==◌, arith, Option-cases, Bool-cases,
}
use ai_token_mall.Prelude.Int.{ℤ, pos, negsuc, ◌+ℤ◌, ◌*ℤ◌, ◌≤ℤ◌, leb_ℤ, neg_ℤ, pos_part}
use ai_token_mall.Money.{round_div}
use ai_token_mall.Entity.{
  Users, Products, UserOrders, UserCommissionRecords, UserWalletFlows, UserNotifications, VipConfig,
  FlowType, RefType, NotificationStatus,
}
use ai_token_mall.Store.Action.{Tables}
use ai_token_mall.Store.Ensures.{Ensures, Ensures-pure, Ensures-bind, Ensures-if}
use ai_token_mall.Store.Users.{user_of, update_user}
use ai_token_mall.Store.Ledger.{record_of_order, vip_config_of, default_level}
use ai_token_mall.Store.Rules.{
  Ensures-find_by_id_for_update, Ensures-apply_commission_delta, Ensures-create_flow,
  Ensures-create_record, Ensures-create_notification, Ensures-find_vip_config_by_id,
  Ensures-find_default_vip_config, Ensures-find_record_by_order_id,
}
use ai_token_mall.Rebate.OrderRebate.{
  rebate_of, product_name, default_rate, settle_rebate, accrue_at_rate, accrue_for_inviter,
  accrue_for_buyer, accrue_unless_recorded, accrue_invite_rebate_for_paid_order, current_rate,
  rate_from, rate_or_default, rebate_rate_for_inviter,
}

module _ {Q : ℤ → Tables → Type 0} {t : Tables} where
  Ensures-rate_or_default : (o : Option ℤ) → Q (rate_from o t) t → Ensures (rate_or_default o) Q t
  unfolding rate_or_default
  Ensures-rate_or_default (some rate) h = Ensures-pure rate h
  Ensures-rate_or_default none h = Ensures-bind (Ensures-find_default_vip_config (Ensures-pure _ h))

  Ensures-rebate_rate_for_inviter :
      (u : Users) → Q (current_rate u t) t → Ensures (rebate_rate_for_inviter u) Q t
  unfolding rebate_rate_for_inviter
  Ensures-rebate_rate_for_inviter u h =
      Ensures-bind (Ensures-find_vip_config_by_id _ (Ensures-rate_or_default _ h))

-- The rate of an inviter: that of the level, if it is there and enabled, and else that of the
-- default level.
abbrev pub IsRate : Users → Tables → ℤ → Type 0
IsRate u t rate =
    ((tier : VipConfig) × (vip_config_of u.vip_config_id t ≡ some tier)
      × (tier.enabled ≡ true)
      × (rate ≡ tier.rate_percent))
    ⊎ (((vip_config_of u.vip_config_id t ≡ none)
          ⊎ ((tier : VipConfig) × (vip_config_of u.vip_config_id t ≡ some tier)
              × (tier.enabled ≡ false)))
        × (def : VipConfig) × (default_level t ≡ some def)
        × (rate ≡ def.rate_percent))

-- A rebate of at least a cent: the amount times the rate, divided by 10000 and rounded to the
-- nearest whole number of cents, half a cent up.
abbrev pub IsRebate : ℤ → ℤ → ℤ → Type 0
IsRebate amount rate rebate =
    (pos 1 ≤ℤ rebate)
    × (10000 * pos_part rebate ≤ pos_part (amount *ℤ rate) + 5000)
    × (pos_part (amount *ℤ rate) < 10000 * pos_part rebate + 5000)

round_div_nearest :
    (x : ℤ)
    → pos 1 ≤ℤ round_div x 10000
    → (10000 * pos_part (round_div x 10000) ≤ pos_part x + 5000)
      × (pos_part x < 10000 * pos_part (round_div x 10000) + 5000)
unfolding round_div neg_ℤ
round_div_nearest (pos n) h = (omega arith, omega arith)
round_div_nearest (negsuc n) h = absurd (ground arith)

rebate_of-IsRebate :
    (amount rate : ℤ)
    → pos 1 ≤ℤ rebate_of amount rate
    → IsRebate amount rate (rebate_of amount rate)
unfolding rebate_of
rebate_of-IsRebate amount rate h =
    let near = round_div_nearest (amount *ℤ rate) h in (h, near.0, near.1)

module _ (u : Users) (t : Tables) (positive : pos 1 ≤ℤ current_rate u t) where
  default-IsRate :
      (vip_config_of u.vip_config_id t ≡ none)
        ⊎ ((tier : VipConfig) × (vip_config_of u.vip_config_id t ≡ some tier)
            × (tier.enabled ≡ false))
      → current_rate u t ≡ default_rate (default_level t)
      → IsRate u t (current_rate u t)
  default-IsRate off e = elim (Option-cases (default_level t)) [
    | inl missing ↦
        let zero_rate : current_rate u t ≡ pos 0 = e ∙ ap default_rate missing in
        let bad = subst (λ r. pos 1 ≤ℤ r) zero_rate positive in absurd (omega arith)
    | inr (def, found) ↦ inr (off, def, found, e ∙ ap default_rate found)
  ]

  current_rate-IsRate : IsRate u t (current_rate u t)
  current_rate-IsRate = elim (Option-cases (vip_config_of u.vip_config_id t)) [
    | inl missing ↦ default-IsRate (inl missing) (rw missing refl)
    | inr (tier, found) ↦ elim (Bool-cases tier.enabled) [
      | inl on ↦ inl (tier, found, on, rw (found, on) refl)
      | inr off ↦ default-IsRate (inr (tier, found, off)) (rw (found, off) refl)
    ]
  ]

module _ (order : UserOrders) (product : Products) where
  -- The tables after the rebate of `inviter_id` at `rate`, written out: the record with the id `n`,
  -- the commission, its flow and the notification.
  abbrev pub settled : ℕ → ℤ → Users → ℕ → Tables → Tables
  settled inviter_id rate u n t =
      let after = u.commission_balance +ℤ rebate_of order.total_amount rate in
      let entry : UserCommissionRecords = record {
        id = n;
        inviter_user_id = inviter_id;
        invitee_user_id = order.user_id;
        order_id = order.id;
        product_name = product_name product;
        order_amount = order.total_amount;
        rate_percent = rate;
        rebate_amount = rebate_of order.total_amount rate;
      } in
      let earned : UserWalletFlows = record {
        user_id = inviter_id;
        flow_type = FlowType.commission;
        amount = rebate_of order.total_amount rate;
        balance_after = some after;
        ref_type = RefType.order_commission;
        ref_id = n;
      } in
      let note : UserNotifications = record {
        user_id = inviter_id;
        user_subscription_id = none;
        api_key_id = none;
        template_code = "commission_rebate_earned";
        status = NotificationStatus.unread;
      } in
      record t {
        users = update_user inviter_id (λ r. record r { commission_balance = after }) t.users;
        records = t.records ++ entry ∷ [];
        flows = t.flows ++ earned ∷ [];
        notifications = t.notifications ++ note ∷ [];
      }

  -- A settled rebate, with what holds of it.
  pub record Settles (t t' : Tables) : Type 0 where
    pub buyer : Users
    pub inviter : Users
    pub record_id : ℕ
    pub bought : user_of order.user_id t ≡ some buyer
    pub invited : user_of buyer.parent_user_id t ≡ some inviter
    pub real_parent : (buyer.parent_user_id ≢ 0) × (buyer.parent_user_id ≢ buyer.id)
    pub first : record_of_order order.id t ≡ none
    pub rated : IsRate inviter t (current_rate inviter t)
    pub rebated :
        IsRebate order.total_amount
          (current_rate inviter t)
          (rebate_of order.total_amount (current_rate inviter t))
    pub covered :
        pos 0 ≤ℤ inviter.commission_balance +ℤ rebate_of order.total_amount (current_rate inviter t)
    pub result : t' ≡ settled buyer.parent_user_id (current_rate inviter t) inviter record_id t

  abbrev pub Accrues : Tables → Tables → Type 0
  Accrues t t' = (t' ≡ t) ⊎ Settles t t'

  module _ (t : Tables) (fresh : record_of_order order.id t ≡ none) where
    module _ (b u : Users) (bought : user_of order.user_id t ≡ some b)
        (invited : user_of b.parent_user_id t ≡ some u)
        (real : (b.parent_user_id ≢ 0) × (b.parent_user_id ≢ b.id)) where
      settle_rebate-Accrues :
          pos 1 ≤ℤ current_rate u t
          → pos 1 ≤ℤ rebate_of order.total_amount (current_rate u t)
          → Ensures
              (settle_rebate order product b.parent_user_id (current_rate u t))
              (λ _. Accrues t)
              t
      unfolding settle_rebate
      settle_rebate-Accrues r p = Ensures-bind (
          Ensures-create_record _ λ n _. Ensures-bind (
            Ensures-apply_commission_delta b.parent_user_id _ λ v found covered.
              let same : v ≡ u = ground arith in
              Ensures-bind (
                Ensures-create_flow _ λ _ _. Ensures-bind (
                  Ensures-create_notification _ λ _. Ensures-pure tt (
                    inr (record {
                      buyer = b;
                      inviter = u;
                      record_id = n;
                      bought = bought;
                      invited = invited;
                      real_parent = real;
                      first = fresh;
                      rated = current_rate-IsRate u t r;
                      rebated = rebate_of-IsRebate order.total_amount (current_rate u t) p;
                      covered = rw same at covered;
                      result = rw same;
                    }))))))

      accrue_for_inviter-Accrues :
          Ensures (accrue_for_inviter order product b.parent_user_id (some u)) (λ _. Accrues t) t
      unfolding accrue_for_inviter accrue_at_rate
      accrue_for_inviter-Accrues =
          let rate = current_rate u t in
          Ensures-bind (
            Ensures-rebate_rate_for_inviter u (
              Ensures-if (leb_ℤ rate (pos 0)) (λ _. Ensures-pure tt (inl refl))
                λ r.
                  Ensures-if (leb_ℤ (rebate_of order.total_amount rate) (pos 0))
                    (λ _. Ensures-pure tt (inl refl))
                    λ p. settle_rebate-Accrues (ground arith) (ground arith)))

    invited-Accrues :
        (b : Users)
        → user_of order.user_id t ≡ some b
        → (b.parent_user_id ≢ 0) × (b.parent_user_id ≢ b.id)
        → (o : Option Users) → user_of b.parent_user_id t ≡ o
        → Ensures (accrue_for_inviter order product b.parent_user_id o) (λ _. Accrues t) t
    invited-Accrues b bought real none e = unfold accrue_for_inviter in Ensures-pure tt (inl refl)
    invited-Accrues b bought real (some u) e = accrue_for_inviter-Accrues b u bought e real

    bought-Accrues :
        (o : Option Users)
        → user_of order.user_id t ≡ o
        → Ensures (accrue_for_buyer order product o) (λ _. Accrues t) t
    unfolding accrue_for_buyer
    bought-Accrues none e = Ensures-pure tt (inl refl)
    bought-Accrues (some b) e =
        Ensures-if (b.parent_user_id == 0) (λ _. Ensures-pure tt (inl refl))
          λ nonzero.
            Ensures-if (b.parent_user_id == b.id) (λ _. Ensures-pure tt (inl refl))
              λ other. Ensures-bind (
                Ensures-find_by_id_for_update b.parent_user_id
                  (invited-Accrues b e (ground arith) _ refl))

  unless_recorded-Accrues :
      (t : Tables) (o : Option UserCommissionRecords)
      → record_of_order order.id t ≡ o
      → Ensures (accrue_unless_recorded order product o) (λ _. Accrues t) t
  unfolding accrue_unless_recorded
  unless_recorded-Accrues t (some r) e = Ensures-pure tt (inl refl)
  unless_recorded-Accrues t none e =
      Ensures-bind (Ensures-find_by_id_for_update order.user_id (bought-Accrues t e _ refl))

  -- An accrual that returns has changed nothing, or it has settled one rebate: the buyer has an
  -- inviter other than the buyer, the order had no record, the rate is that of the inviter's
  -- enabled level or else of the default level, the rebate is the order's amount times the rate to
  -- the nearest cent, and at least a cent, and exactly four rows are written: the record with the
  -- amount, the rate and the rebate, the inviter's commission raised by the rebate, a flow of the
  -- rebate, and the notification.
  pub accrue-Accrues :
      (t : Tables) → Ensures (accrue_invite_rebate_for_paid_order order product) (λ _. Accrues t) t
  unfolding accrue_invite_rebate_for_paid_order
  accrue-Accrues t =
      Ensures-bind (Ensures-find_record_by_order_id order.id (unless_recorded-Accrues t _ refl))
