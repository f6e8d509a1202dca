-- ===== src/Entity/Status.antt =====
-- The values that text columns take. `other` is any text that no code writes or tests.
use ai_token_mall.Prelude.{String, Bool, true, false}

-- common/constants/order_type.go; `empty` is the empty text.
pub data OrderType : Type 0 where
  purchase renewal upgrade quota_addon empty : OrderType
  other : String → OrderType

pub data UserStatus : Type 0 where
  active : UserStatus
  other : String → UserStatus

pub data OrderStatus : Type 0 where
  pending_payment completed cancelled : OrderStatus
  other : String → OrderStatus

pub data SubscriptionStatus : Type 0 where
  active expired : SubscriptionStatus
  other : String → SubscriptionStatus

-- common/constants/api_key.go
pub data KeyType : Type 0 where
  main sub : KeyType
  other : String → KeyType

pub data KeyStatus : Type 0 where
  active expired rotated : KeyStatus
  other : String → KeyStatus

pub data CouponStatus : Type 0 where
  available used expired : CouponStatus
  other : String → CouponStatus

pub data DiscountType : Type 0 where
  percent : DiscountType
  other : String → DiscountType

pub data FlowType : Type 0 where
  pay commission recharge withdraw : FlowType

pub data RefType : Type 0 where
  order commission_transfer order_commission commission_withdrawal : RefType

pub data WithdrawalStatus : Type 0 where
  pending : WithdrawalStatus
  other : String → WithdrawalStatus

pub data NotificationStatus : Type 0 where
  sent unread : NotificationStatus

-- The Boolean tests of the code, `status == "…"`.
abbrev pub is_renewal : OrderType → Bool
is_renewal OrderType.renewal = true
is_renewal _ = false

abbrev pub is_upgrade : OrderType → Bool
is_upgrade OrderType.upgrade = true
is_upgrade _ = false

abbrev pub is_quota_addon : OrderType → Bool
is_quota_addon OrderType.quota_addon = true
is_quota_addon _ = false

abbrev pub is_active_user : UserStatus → Bool
is_active_user UserStatus.active = true
is_active_user _ = false

abbrev pub is_pending_payment : OrderStatus → Bool
is_pending_payment OrderStatus.pending_payment = true
is_pending_payment _ = false

abbrev pub is_completed : OrderStatus → Bool
is_completed OrderStatus.completed = true
is_completed _ = false

abbrev pub is_active : SubscriptionStatus → Bool
is_active SubscriptionStatus.active = true
is_active _ = false

abbrev pub is_main : KeyType → Bool
is_main KeyType.main = true
is_main _ = false

abbrev pub is_sub : KeyType → Bool
is_sub KeyType.sub = true
is_sub _ = false

abbrev pub is_rotated : KeyStatus → Bool
is_rotated KeyStatus.rotated = true
is_rotated _ = false

abbrev pub is_active_key : KeyStatus → Bool
is_active_key KeyStatus.active = true
is_active_key _ = false

abbrev pub is_available : CouponStatus → Bool
is_available CouponStatus.available = true
is_available _ = false

abbrev pub flow_type_eq : FlowType → FlowType → Bool
flow_type_eq FlowType.pay FlowType.pay = true
flow_type_eq FlowType.commission FlowType.commission = true
flow_type_eq FlowType.recharge FlowType.recharge = true
flow_type_eq FlowType.withdraw FlowType.withdraw = true
flow_type_eq _ _ = false

abbrev pub ref_type_eq : RefType → RefType → Bool
ref_type_eq RefType.order RefType.order = true
ref_type_eq RefType.commission_transfer RefType.commission_transfer = true
ref_type_eq RefType.order_commission RefType.order_commission = true
ref_type_eq RefType.commission_withdrawal RefType.commission_withdrawal = true
ref_type_eq _ _ = false
