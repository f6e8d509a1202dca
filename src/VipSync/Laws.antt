-- ===== src/VipSync/Laws.antt =====
-- application/bot/scripts/vip_level_sync: which levels users have after the job.
use mathlib.Core.Option
use ai_token_mall.Prelude.{
  ℕ, zero, suc, ltb, ◌≡◌, refl, sym, ap, subst, ◌∙◌, arith, true, false, Bool-cases, ◌⊎◌, inl, inr,
  Option, none, some, List, [], ◌∷◌, ◌==◌, length, map, All, find_first,
}
use ai_token_mall.Prelude.Int.{◌<ℤ◌, leb_ℤ}
use ai_token_mall.Prelude.Keys.{Unique, find_each}
use ai_token_mall.Entity.{Users, VipConfig, UserNotifications}
use ai_token_mall.Store.Action.{Tables}
use ai_token_mall.Store.Ensures.{Ensures, Ensures-pure, Ensures-query, Ensures-bind, Ensures-if}
use ai_token_mall.Store.Leaves.{
  Leaves, Leaves-pure, Leaves-query, Leaves-exec, Leaves-insert, Leaves-catch, Leaves-if,
  Leaves-bind, Leaves-after,
}
use ai_token_mall.Store.Users.{lookup_user, user_of, set_user, lookup_user-update_user}
use ai_token_mall.Store.Ledger.{create_notification, add_notification}
use ai_token_mall.Store.Levels.{
  UserVipConfigRow, vip_config_row, with_level, enabled_tiers_of, invite_counts_of,
  invitee_paid_total_of, sort_tiers, list_enabled, list_all, count_invitees_group_by_inviter,
  sum_invitee_completed_order_amount_group_by_inviter, update_vip_config_id,
  list_id_and_vip_config_id,
}
use ai_token_mall.Rebate.VipTier.{best_qualifying_vip_tier}
use ai_token_mall.VipSync.{
  VipSyncPlan, rank_in, rank_or_lowest, build_sync_plan, upgrade_to, upgrade_if_higher,
  sync_one_user, list_users_from, list_page_size, run_users, run_plan, run_vip_level_sync,
  list_all_users_for_sync,
}
use ai_token_mall.VipSync.Pages.{list_all_users-rows}

module _ (t : Tables) where
  abbrev plan_of : VipSyncPlan
  plan_of = record {
    enabled_tiers = enabled_tiers_of t;
    tier_rank_by_id = rank_in (sort_tiers t.vip_configs);
    invite_counts = invite_counts_of t;
    invitee_paid_total = invitee_paid_total_of t;
  }

  -- The user is as before, or has the best level that the numbers in `t` reach, which ranks above
  -- the level before.
  abbrev pub Promoted : Users → Users → Type 0
  Promoted u u' =
      (u' ≡ u)
      ⊎ ((best : VipConfig) × (best_qualifying_vip_tier (enabled_tiers_of t)
              (invite_counts_of t u.id) (invitee_paid_total_of t u.id)
            ≡ some best)
          × (rank_or_lowest (rank_in (sort_tiers t.vip_configs) u.vip_config_id) <ℤ best.sort_order)
          × (u' ≡ with_level best.id u))

  -- Each user of `t` is still there, promoted or not, and no other table than that of the
  -- notifications changed.
  pub record Climbs (s : Tables) : Type 0 where
    pub users :
        (id : ℕ) (u : Users)
        → user_of id t ≡ some u
        → (u' : Users) × (user_of id s ≡ some u') × Promoted u u'
    pub rest : s ≡ record t { users = s.users; notifications = s.notifications }

  -- A row that was listed from `t`.
  abbrev Listed : UserVipConfigRow → Type 0
  Listed r =
      (u : Users) × (user_of r.id t ≡ some u) × (u.id ≡ r.id) × (u.vip_config_id ≡ r.vip_config_id)

  Climbs-same : Climbs t
  Climbs-same = record { users = λ id u found. (u, found, inl refl); rest = refl }

  Climbs-notification :
      (row : UserNotifications) (s : Tables) → Climbs s → Climbs (add_notification row s)
  Climbs-notification row s c = record {
    users = c.users;
    rest = ap (λ r. add_notification row r) c.rest;
  }

  Promoted-again :
      (u u' : Users) (best : VipConfig)
      → Promoted u u'
      → best_qualifying_vip_tier
          (enabled_tiers_of t)
          (invite_counts_of t u.id)
          (invitee_paid_total_of t u.id)
        ≡ some best
      → rank_or_lowest (rank_in (sort_tiers t.vip_configs) u.vip_config_id) <ℤ best.sort_order
      → Promoted u (with_level best.id u')
  Promoted-again u u' best (inl e) b r = inr (best, b, r, ap (with_level best.id) e)
  Promoted-again u u' best (inr (old, _, _, e)) b r = inr (best, b, r, ap (with_level best.id) e)

  Climbs-upgrade :
      (s : Tables) (r : UserVipConfigRow) (best : VipConfig)
      → Listed r
      → best_qualifying_vip_tier
          (enabled_tiers_of t)
          (invite_counts_of t r.id)
          (invitee_paid_total_of t r.id)
        ≡ some best
      → rank_or_lowest (rank_in (sort_tiers t.vip_configs) r.vip_config_id) <ℤ best.sort_order
      → Climbs s
      → Climbs (set_user r.id (with_level best.id) s)
  Climbs-upgrade s r best (u0, found0, e_id, e_vip) b higher c = record {
    rest = ap (set_user r.id (with_level best.id)) c.rest;
    users = λ id u found.
        let (u', now, p) = c.users id u found in
        let after = lookup_user-update_user (with_level best.id) r.id id s.users (λ _. refl) in
        elim (Bool-cases (r.id == id)) [
          | inr other ↦ (u', after ∙ rw other now, p)
          | inl same ↦
              let same_id : r.id ≡ id = ground arith in
              let e : u0 ≡ u =
                Option.some-injective u0 u (sym found0 ∙ ap (λ k. user_of k t) same_id ∙ found) in
              let id_of : r.id ≡ u.id = sym e_id ∙ ap (λ v. v.id) e in
              let level_of : r.vip_config_id ≡ u.vip_config_id =
                sym e_vip ∙ ap (λ v. v.vip_config_id) e in
              (
                with_level best.id u',
                after ∙ rw (same, now) refl,
                Promoted-again u u' best p
                    (subst
                      (λ k.
                        best_qualifying_vip_tier (enabled_tiers_of t) (invite_counts_of t k)
                          (invitee_paid_total_of t k)
                        ≡ some best)
                      id_of b)
                    (subst
                      (λ k.
                        rank_or_lowest (rank_in (sort_tiers t.vip_configs) k) <ℤ best.sort_order)
                      level_of higher),
              )
        ];
  }

  upgrade-Climbs :
      (r : UserVipConfigRow) (s : Tables) (o : Option VipConfig)
      → Listed r
      → best_qualifying_vip_tier
          (enabled_tiers_of t)
          (invite_counts_of t r.id)
          (invitee_paid_total_of t r.id)
        ≡ o
      → Climbs s
      → Leaves (upgrade_if_higher plan_of r o) Climbs s
  unfolding upgrade_if_higher upgrade_to update_vip_config_id create_notification
  upgrade-Climbs r s none listed b c = Leaves-pure false c
  upgrade-Climbs r s (some best) listed b c =
      Leaves-if
        (leb_ℤ best.sort_order
          (rank_or_lowest (rank_in (sort_tiers t.vip_configs) r.vip_config_id)))
        (λ low. Leaves-pure false c)
        (λ high.
          Leaves-bind (Leaves-exec _ c (Climbs-upgrade s r best listed b (ground arith) c))
            λ _ s' c'.
              Leaves-bind (Leaves-insert _ _ c' (λ n. Climbs-notification _ s' c'))
                λ _ s'' c''. Leaves-pure true c'')

  run_users-Climbs :
      (rows : List UserVipConfigRow) (counters : ℕ × ℕ) (s : Tables)
      → All Listed rows
      → Climbs s
      → Leaves (run_users plan_of rows counters) Climbs s
  unfolding run_users sync_one_user
  run_users-Climbs [] counters s l c = Leaves-pure counters c
  run_users-Climbs (r ∷ rows) counters s l c =
      Leaves-bind (Leaves-catch (upgrade-Climbs r s _ l.0 refl c) (λ e s' c'. Leaves-pure false c'))
        (λ d s' c'. run_users-Climbs rows _ s' l.1 c')

  map-Listed :
      (us : List Users)
      → All (λ u. find_first (λ a. a.id == u.id) t.users ≡ some u) us
      → All Listed (map vip_config_row us)
  unfolding lookup_user
  map-Listed [] h = tt
  map-Listed (u ∷ us) h = ((u, h.0, refl, refl), map-Listed us h.1)

  plan_known : Ensures build_sync_plan (λ o s. (s ≡ t) × ((o ≡ none) ⊎ (o ≡ some plan_of))) t
  unfolding build_sync_plan list_enabled list_all count_invitees_group_by_inviter
      sum_invitee_completed_order_amount_group_by_inviter
  plan_known = Ensures-bind (
      Ensures-query _ (
        Ensures-if (length (enabled_tiers_of t) == 0)
          (λ no_tiers. Ensures-pure none (refl, inl refl))
          (λ tiers. Ensures-bind (
            Ensures-query _ (
              Ensures-bind (
                Ensures-query _
                  (Ensures-bind (Ensures-query _ (Ensures-pure _ (refl, inr refl))))))))))

  plan-Climbs : Leaves build_sync_plan Climbs t
  unfolding build_sync_plan list_enabled list_all count_invitees_group_by_inviter
      sum_invitee_completed_order_amount_group_by_inviter
  plan-Climbs = Leaves-bind (Leaves-query _ Climbs-same) λ tiers s c.
      Leaves-if (length tiers == 0) (λ _. Leaves-pure none c)
        (λ _. Leaves-bind (Leaves-query _ c) λ _ s1 c1.
          Leaves-bind (Leaves-query _ c1)
            λ _ s2 c2. Leaves-bind (Leaves-query _ c2) λ _ s3 c3. Leaves-pure _ c3)

  pages-Climbs :
      (fuel offset : ℕ) (all : List UserVipConfigRow) (s : Tables)
      → Climbs s
      → Leaves (list_users_from fuel offset all) Climbs s
  unfolding list_users_from list_id_and_vip_config_id
  pages-Climbs zero offset all s c = Leaves-pure all c
  pages-Climbs (suc fuel) offset all s c = Leaves-bind (Leaves-query _ c) λ rows s1 c1.
      Leaves-if (length rows == 0) (λ _. Leaves-pure _ c1)
        (λ _.
          Leaves-if (ltb (length rows) list_page_size) (λ _. Leaves-pure _ c1)
            (λ _. pages-Climbs fuel _ _ s1 c1))

  list-Climbs : Leaves list_all_users_for_sync Climbs t
  unfolding list_all_users_for_sync
  list-Climbs = record {
    at = λ db e. (pages-Climbs (suc (length db.tables.users)) 0 [] t Climbs-same).at db e;
  }

  run_plan-Climbs :
      Unique (λ u. u.id) t.users
      → (o : Option VipSyncPlan) → (o ≡ none) ⊎ (o ≡ some plan_of)
      → Leaves (run_plan o) Climbs t
  run_plan-Climbs unique o (inl e) =
      subst (λ p. Leaves (run_plan p) Climbs t) (sym e) (Leaves-pure _ Climbs-same)
  run_plan-Climbs unique o (inr e) =
      subst (λ p. Leaves (run_plan p) Climbs t) (sym e)
        (Leaves-after _ list-Climbs (list_all_users-rows t) λ rows s k.
          subst (λ r. Leaves (run_users plan_of r (0, 0)) Climbs s) (sym k.1)
            (run_users-Climbs _ _ s (map-Listed t.users (find_each (λ u. u.id) t.users unique))
              (subst Climbs (sym k.0) Climbs-same)))

  -- Where ids are unique, the job, whichever statements fail and whether it returns or raises,
  -- leaves each user at the level before or at the best level that the user's numbers reached at
  -- the start, and then that level ranks higher. It changes no other column and no table but that
  -- and the notifications.
  pub vip_sync-Climbs : Unique (λ u. u.id) t.users → Leaves run_vip_level_sync Climbs t
  unfolding run_vip_level_sync
  vip_sync-Climbs unique =
      Leaves-after _ plan-Climbs plan_known
        λ o s k. subst (Leaves (run_plan o) Climbs) (sym k.0) (run_plan-Climbs unique o k.1)
