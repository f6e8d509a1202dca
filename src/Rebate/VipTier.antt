-- ===== src/Rebate/VipTier.antt =====
-- vip_tier.go: the highest tier that an inviter's numbers reach.
pub mod Best
use ai_token_mall.Prelude.{
  ℕ, Bool, true, not, ◌&&◌, ◌||◌, Option, none, some, List, [], ◌∷◌, ◌==◌, ltb, leb, if◌then◌else◌,
}
use ai_token_mall.Prelude.Int.{ℤ, ltb_ℤ, eqb_ℤ}
use ai_token_mall.Entity.{VipConfig}

-- The three guards of the loop, as one test.
abbrev pub qualifies : ℕ → ℤ → VipConfig → Bool
qualifies valid_invites invitee_paid_total t =
    t.enabled
    && not (ltb valid_invites t.min_valid_invites)
    && not (ltb_ℤ invitee_paid_total t.min_invitee_paid_amount)

-- `t.SortOrder > best.SortOrder || (t.SortOrder == best.SortOrder && t.ID > best.ID)`
abbrev pub outranks : VipConfig → VipConfig → Bool
outranks t best =
    ltb_ℤ best.sort_order t.sort_order || (eqb_ℤ t.sort_order best.sort_order && ltb best.id t.id)

abbrev pub improves : VipConfig → Option VipConfig → Bool
improves t none = true
improves t (some best) = outranks t best

best_from : List VipConfig → ℕ → ℤ → Option VipConfig → Option VipConfig
best_from [] valid_invites invitee_paid_total best = best
best_from (t ∷ tiers) valid_invites invitee_paid_total best =
    best_from tiers valid_invites invitee_paid_total
      (if qualifies valid_invites invitee_paid_total t && improves t best then some t else best)

unfoldable pub best_qualifying_vip_tier : List VipConfig → ℕ → ℤ → Option VipConfig
unfolding best_from
best_qualifying_vip_tier tiers valid_invites invitee_paid_total =
    best_from tiers valid_invites invitee_paid_total none
