-- ===== src/VipSync.antt =====
-- application/bot/scripts/vip_level_sync: the job that raises users to the VIP level that they have
-- reached. The goroutines of a batch run one after the other, as the batches do; both counters of
-- the log are what the job returns.
pub mod Pages
pub mod Laws
use ai_token_mall.Prelude.{
  ℕ, zero, suc, ◌+◌, Bool, true, false, Option, none, some, List, [], ◌∷◌, ◌++◌, ◌==◌, ltb,
  if◌then◌else◌, find_last, length,
}
use ai_token_mall.Prelude.Int.{ℤ, pos, negsuc, leb_ℤ}
use ai_token_mall.Entity.{VipConfig, UserNotifications, NotificationStatus}
use ai_token_mall.Store.Action.{Tables, Db, Action, pure, ◌>>=◌, ◌>>◌, catch}
use ai_token_mall.Store.Ledger.{create_notification}
use ai_token_mall.Store.Levels.{
  UserVipConfigRow, list_enabled, list_all, count_invitees_group_by_inviter,
  sum_invitee_completed_order_amount_group_by_inviter, list_id_and_vip_config_id,
  update_vip_config_id,
}
use ai_token_mall.Rebate.VipTier.{best_qualifying_vip_tier}

pub record VipSyncPlan : Type 0 where
  pub enabled_tiers : List VipConfig
  pub tier_rank_by_id : ℕ → Option ℤ
  pub invite_counts : ℕ → ℕ
  pub invitee_paid_total : ℕ → ℤ

-- The last tier of an id gives its rank.
abbrev pub rank_in : List VipConfig → ℕ → Option ℤ
rank_in tiers id = elim (find_last (λ v. v.id == id) tiers) [
  | some v ↦ some v.sort_order
  | none ↦ none
]

-- No plan where no tier is enabled.
unfoldable pub build_sync_plan : Action (Option VipSyncPlan)
build_sync_plan = do
  tiers ← list_enabled
  if length tiers == 0 then pure none else do
    all_tiers ← list_all
    counts ← count_invitees_group_by_inviter
    paid ← sum_invitee_completed_order_amount_group_by_inviter
    pure (
        some record {
          enabled_tiers = tiers;
          tier_rank_by_id = rank_in all_tiers;
          invite_counts = counts;
          invitee_paid_total = paid;
        })

abbrev pub list_page_size : ℕ
list_page_size = 500

-- Every round but the last reads rows, so more rounds than there are users are never run.
unfoldable pub list_users_from : ℕ → ℕ → List UserVipConfigRow → Action (List UserVipConfigRow)
list_users_from zero offset all = pure all
list_users_from (suc fuel) offset all =
    let next = list_users_from fuel in
    list_id_and_vip_config_id offset list_page_size >>= λ rows.
    if length rows == 0
    then pure all
    else if ltb (length rows) list_page_size
    then pure (all ++ rows)
    else next (offset + length rows) (all ++ rows)

unfoldable pub list_all_users_for_sync : Action (List UserVipConfigRow)
unfolding list_users_from
list_all_users_for_sync db = list_users_from (suc (length db.tables.users)) 0 [] db

abbrev pub vip_upgrade_notification : ℕ → UserNotifications
vip_upgrade_notification user_id = record {
  user_id = user_id;
  user_subscription_id = none;
  api_key_id = none;
  template_code = "vip_level_upgraded";
  status = NotificationStatus.unread;
}

abbrev pub rank_or_lowest : Option ℤ → ℤ
rank_or_lowest none = negsuc 0
rank_or_lowest (some rank) = rank

unfoldable pub upgrade_to : ℕ → VipConfig → Action Bool
upgrade_to user_id best = do
  update_vip_config_id user_id best.id
  create_notification (vip_upgrade_notification user_id)
  pure true

-- What is done with the best tier that a user reaches, if any.
unfoldable pub upgrade_if_higher : VipSyncPlan → UserVipConfigRow → Option VipConfig → Action Bool
unfolding upgrade_to
upgrade_if_higher plan u none = pure false
upgrade_if_higher plan u (some best) =
    if leb_ℤ best.sort_order (rank_or_lowest (plan.tier_rank_by_id u.vip_config_id))
    then pure false
    else upgrade_to u.id best

unfoldable pub sync_one_user : VipSyncPlan → UserVipConfigRow → Action Bool
unfolding upgrade_if_higher
sync_one_user plan u = upgrade_if_higher plan u (
    best_qualifying_vip_tier plan.enabled_tiers (plan.invite_counts u.id)
      (plan.invitee_paid_total u.id))

-- An error of one user is only logged. The counters are those of the scanned and the upgraded users.
unfoldable pub run_users : VipSyncPlan → List UserVipConfigRow → ℕ × ℕ → Action (ℕ × ℕ)
run_users plan [] counters = pure counters
run_users plan (u ∷ users) counters = do
  did_upgrade ← catch (sync_one_user plan u) (λ e. pure false)
  run_users plan users (counters.0 + 1, if did_upgrade then counters.1 + 1 else counters.1)

abbrev pub run_plan : Option VipSyncPlan → Action (ℕ × ℕ)
run_plan none = pure (0, 0)
run_plan (some plan) = do users ← list_all_users_for_sync; run_users plan users (0, 0)

-- `Run`: it logs an error and returns, as this raises it.
unfoldable pub run_vip_level_sync : Action (ℕ × ℕ)
unfolding run_users
run_vip_level_sync = do plan ← build_sync_plan; run_plan plan
