-- ===== src/Rebate/VipTier/Best.antt =====
-- The tier that the loop returns qualifies, and none that qualifies outranks it.
use ai_token_mall.Prelude.{
  ℕ, ◌≡◌, refl, Bool, true, false, ◌&&◌, Option, none, some, List, [], ◌∷◌, ◌⊎◌, inl, inr, arith,
  All, if◌then◌else◌, Bool-cases,
}
use ai_token_mall.Prelude.Int.{ℤ}
use ai_token_mall.Entity.{VipConfig}
use ai_token_mall.Rebate.VipTier.{
  qualifies, outranks, improves, best_from, best_qualifying_vip_tier,
}

-- `x` stands in the list.
abbrev pub Occurs : VipConfig → List VipConfig → Type 0
Occurs x [] = ⊥
Occurs x (t ∷ tiers) = (x ≡ t) ⊎ Occurs x tiers

outranks_irrefl : (t : VipConfig) → outranks t t ≡ false
outranks_irrefl t = ground arith

-- What does not outrank `b` does not outrank a tier above `b`.
outranks_negative :
    (s t b : VipConfig) → outranks t b ≡ true → outranks s b ≡ false → outranks s t ≡ false
outranks_negative s t b p q = ground arith

module _ (valid_invites : ℕ) (invitee_paid_total : ℤ) where
  abbrev ok_tier : VipConfig → Bool
  ok_tier = qualifies valid_invites invitee_paid_total

  -- No tier that qualifies outranks the result; without a result none qualifies.
  abbrev pub Dominates : Option VipConfig → VipConfig → Type 0
  Dominates best t = qualifies valid_invites invitee_paid_total t ≡ true → improves t best ≡ false

  -- What dominated before the loop's step does so after it.
  Dominates-step :
      (s t : VipConfig) (best : Option VipConfig)
      → Dominates best s
      → Dominates (if ok_tier t && improves t best then some t else best) s
  Dominates-step s t none h q = cc (h q)
  Dominates-step s t (some b) h q = elim (Bool-cases (ok_tier t && outranks t b)) [
    | inl better ↦ rw better (outranks_negative s t b (ground arith) (h q))
    | inr keep ↦ rw keep (h q)
  ]

  -- The tier of a step is dominated after it.
  Dominates-self :
      (t : VipConfig) (best : Option VipConfig)
      → Dominates (if ok_tier t && improves t best then some t else best) t
  Dominates-self t none q = rw q (outranks_irrefl t)
  Dominates-self t (some b) q = elim (Bool-cases (outranks t b)) [
    | inl better ↦ rw (q, better) (outranks_irrefl t)
    | inr keep ↦ rw (q, keep) keep
  ]

  best_from_keeps :
      (tiers : List VipConfig) (best : Option VipConfig) (s : VipConfig)
      → Dominates best s
      → Dominates (best_from tiers valid_invites invitee_paid_total best) s
  unfolding best_from
  best_from_keeps [] best s h = h
  best_from_keeps (t ∷ tiers) best s h = best_from_keeps tiers _ s (Dominates-step s t best h)

  best_from-Dominates :
      (tiers : List VipConfig) (best : Option VipConfig)
      → All (Dominates (best_from tiers valid_invites invitee_paid_total best)) tiers
  unfolding best_from
  best_from-Dominates [] best = tt
  best_from-Dominates (t ∷ tiers) best =
      (best_from_keeps tiers _ t (Dominates-self t best), best_from-Dominates tiers _)

  -- The result is one of the tiers and qualifies.
  abbrev pub IsChoice : List VipConfig → Option VipConfig → Type 0
  IsChoice tiers none = Unit
  IsChoice tiers (some b) = Occurs b tiers × (qualifies valid_invites invitee_paid_total b ≡ true)

  IsChoice-cons :
      (t : VipConfig) (tiers : List VipConfig) (best : Option VipConfig)
      → IsChoice tiers best
      → IsChoice (t ∷ tiers) best
  IsChoice-cons t tiers none h = tt
  IsChoice-cons t tiers (some b) h = (inr h.0, h.1)

  best_from-IsChoice :
      (tiers : List VipConfig) (best : Option VipConfig)
      → (best_from tiers valid_invites invitee_paid_total best ≡ best)
        ⊎ IsChoice tiers (best_from tiers valid_invites invitee_paid_total best)
  unfolding best_from
  best_from-IsChoice [] best = inl refl
  best_from-IsChoice (t ∷ tiers) best = elim (Bool-cases (ok_tier t && improves t best)) [
    | inl better ↦ rw better (elim (best_from-IsChoice tiers (some t)) [
      | inl same ↦ inr (rw same (inl refl, ground arith))
      | inr other ↦ inr (IsChoice-cons t tiers _ other)
    ])
    | inr keep ↦ rw keep (elim (best_from-IsChoice tiers best) [
      | inl same ↦ inl same
      | inr other ↦ inr (IsChoice-cons t tiers _ other)
    ])
  ]

  none-IsChoice :
      (tiers : List VipConfig) (o : Option VipConfig)
      → (o ≡ none) ⊎ IsChoice tiers o
      → IsChoice tiers o
  none-IsChoice tiers o (inl e) = rw e tt
  none-IsChoice tiers o (inr c) = c

  -- No tier that qualifies outranks the result, as one test.
  abbrev pub Unbeaten : Option VipConfig → VipConfig → Type 0
  Unbeaten best t = (qualifies valid_invites invitee_paid_total t && improves t best) ≡ false

  Unbeaten-All :
      (best : Option VipConfig) (tiers : List VipConfig)
      → All (Dominates best) tiers
      → All (Unbeaten best) tiers
  Unbeaten-All best [] h = tt
  Unbeaten-All best (t ∷ tiers) h = (
    elim (Bool-cases (ok_tier t)) [
      | inl fit ↦ let lost = h.0 fit in rw (fit, lost) refl
      | inr unfit ↦ rw unfit refl
    ],
    Unbeaten-All best tiers h.1,
  )

  -- The result is a tier of the list that qualifies, and no tier of the list that qualifies
  -- outranks it by its sort order and then its id. Where there is no result, no tier qualifies.
  pub best_qualifying_vip_tier_best :
      (tiers : List VipConfig)
      → IsChoice tiers (best_qualifying_vip_tier tiers valid_invites invitee_paid_total)
        × All (Unbeaten (best_qualifying_vip_tier tiers valid_invites invitee_paid_total)) tiers
  unfolding best_qualifying_vip_tier
  best_qualifying_vip_tier_best tiers = (
    none-IsChoice tiers _ (best_from-IsChoice tiers none),
    Unbeaten-All _ tiers (best_from-Dominates tiers none),
  )
