-- ===== src/Rebate/OrderRebate.antt =====
-- order_rebate.go: the inviter's share of a paid order, in the transaction of the payment.
pub mod Accrual
pub mod Laws
use ai_token_mall.Prelude.{
  ℕ, Bool, true, false, Option, none, some, String, str_eq, ◌==◌, if◌then◌else◌,
}
use ai_token_mall.Prelude.Int.{ℤ, pos, ◌*ℤ◌, leb_ℤ}
use ai_token_mall.Entity.{
  Users, Products, UserOrders, UserCommissionRecords, UserNotifications, VipConfig, FlowType,
  RefType, NotificationStatus,
}
use ai_token_mall.Money.{round_div}
use ai_token_mall.Store.Action.{Tables, Action, pure, ◌>>=◌, ◌>>◌}
use ai_token_mall.Store.Users.{find_by_id_for_update, apply_commission_delta}
use ai_token_mall.Store.Ledger.{
  create_flow, create_record, create_notification, find_record_by_order_id, find_vip_config_by_id,
  find_default_vip_config, vip_config_of, default_level,
}

-- The rate of a tier that is enabled, or else of the default one; hundredths of a per cent.
abbrev pub enabled_rate : Option VipConfig → Option ℤ
enabled_rate none = none
enabled_rate (some tier) = if tier.enabled then some tier.rate_percent else none

abbrev pub default_rate : Option VipConfig → ℤ
default_rate none = pos 0
default_rate (some def) = def.rate_percent

-- The rate that an inviter has in the tables.
abbrev pub rate_from : Option ℤ → Tables → ℤ
rate_from (some rate) t = rate
rate_from none t = default_rate (default_level t)

abbrev pub current_rate : Users → Tables → ℤ
current_rate inviter t = rate_from (enabled_rate (vip_config_of inviter.vip_config_id t)) t

rate_or_default : Option ℤ → Action ℤ
rate_or_default (some rate) = pure rate
rate_or_default none = do def ← find_default_vip_config; pure (default_rate def)

unfoldable pub rebate_rate_for_inviter : Users → Action ℤ
unfolding rate_or_default
rebate_rate_for_inviter inviter = do
  tier ← find_vip_config_by_id inviter.vip_config_id
  rate_or_default (enabled_rate tier)

-- `orderAmount.Mul(rate).Div(100).Round(2)`
unfoldable pub rebate_of : ℤ → ℤ → ℤ
unfolding ◌*ℤ◌ round_div
rebate_of order_amount rate = round_div (order_amount *ℤ rate) 10000

abbrev pub product_name : Products → String
product_name product =
    if str_eq product.card_title "" then product.sku_product_name else product.card_title

abbrev pub rebate_record : UserOrders → Products → ℕ → ℤ → UserCommissionRecords
rebate_record order product inviter_id rate = record {
  id = 0;
  inviter_user_id = inviter_id;
  invitee_user_id = order.user_id;
  order_id = order.id;
  product_name = product_name product;
  order_amount = order.total_amount;
  rate_percent = rate;
  rebate_amount = rebate_of order.total_amount rate;
}

abbrev pub rebate_notification : ℕ → UserNotifications
rebate_notification inviter_id = record {
  user_id = inviter_id;
  user_subscription_id = none;
  api_key_id = none;
  template_code = "commission_rebate_earned";
  status = NotificationStatus.unread;
}

-- From the record of the rebate to the notification.
settle_rebate : UserOrders → Products → ℕ → ℤ → Action (Unit {0})
settle_rebate order product inviter_id rate = do
  record_id ← create_record (rebate_record order product inviter_id rate)
  commission_after ← apply_commission_delta inviter_id (rebate_of order.total_amount rate)
  create_flow (record {
    user_id = inviter_id;
    flow_type = FlowType.commission;
    amount = rebate_of order.total_amount rate;
    balance_after = some commission_after;
    ref_type = RefType.order_commission;
    ref_id = record_id;
  })
  create_notification (rebate_notification inviter_id)
  pure tt

accrue_at_rate : UserOrders → Products → ℕ → ℤ → Action (Unit {0})
unfolding settle_rebate
accrue_at_rate order product inviter_id rate =
    if leb_ℤ rate (pos 0)
    then pure tt
    else if leb_ℤ (rebate_of order.total_amount rate) (pos 0)
    then pure tt
    else settle_rebate order product inviter_id rate

accrue_for_inviter : UserOrders → Products → ℕ → Option Users → Action (Unit {0})
unfolding accrue_at_rate
accrue_for_inviter order product inviter_id none = pure tt
accrue_for_inviter order product inviter_id (some inviter) = do
  rate ← rebate_rate_for_inviter inviter
  accrue_at_rate order product inviter_id rate

accrue_for_buyer : UserOrders → Products → Option Users → Action (Unit {0})
unfolding accrue_for_inviter
accrue_for_buyer order product none = pure tt
accrue_for_buyer order product (some buyer) =
    if buyer.parent_user_id == 0
    then pure tt
    else if buyer.parent_user_id == buyer.id
    then pure tt
    else do
      inviter ← find_by_id_for_update buyer.parent_user_id
      accrue_for_inviter order product buyer.parent_user_id inviter

accrue_unless_recorded : UserOrders → Products → Option UserCommissionRecords → Action (Unit {0})
unfolding accrue_for_buyer
accrue_unless_recorded order product (some existing) = pure tt
accrue_unless_recorded order product none = do
  buyer ← find_by_id_for_update order.user_id
  accrue_for_buyer order product buyer

-- `AccrueInviteRebateForPaidOrder`; its callers pass an order and a product that are there.
unfoldable pub accrue_invite_rebate_for_paid_order : UserOrders → Products → Action (Unit {0})
unfolding accrue_unless_recorded
accrue_invite_rebate_for_paid_order order product = do
  existing ← find_record_by_order_id order.id
  accrue_unless_recorded order product existing
