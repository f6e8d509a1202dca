-- ===== src/Entity.antt =====
-- domain/persistent/entity: the rows of the tables that the program's logic reads. A column that is
-- only written, or only shown, has no field: the two row timestamps, currencies, remarks and titles
-- of invoices. Trade numbers are lists of code points. Columns of free text whose values the
-- program tests are in `Entity.Status`.
pub mod Status
pub use Status.*
use ai_token_mall.Prelude.{ℕ, String, Bool, Option, List}
use ai_token_mall.Prelude.Int.{ℤ}

-- users.go
pub record Users : Type 0 where
  pub id : ℕ
  pub email : Option (List ℕ)
  pub phone : Option (List ℕ)
  pub password_hash : List ℕ
  pub password_plain : List ℕ
  pub nickname : Option (List ℕ)
  pub vip_domain : Option (List ℕ)
  pub status : UserStatus
  pub last_login_at : Option ℕ
  pub parent_user_id : ℕ
  pub vip_config_id : ℕ
  pub wallet_balance : ℤ
  pub commission_balance : ℤ

-- products.go
pub record Products : Type 0 where
  pub id : ℕ
  pub card_title : String
  pub products_category_name : String
  pub sku_product_name : String
  pub limit_tokens : ℤ
  pub billing_period : String
  pub period_days : ℤ
  pub price : ℤ
  pub on_sale : Bool

-- The fields of `raw_request_json` that the program reads back.
pub record OrderRawCoupon : Type 0 where
  pub user_coupon_id : ℕ

-- `order_no` is a prefix, the seconds of the clock and four digits of an id.
pub data OrderNo : Type 0 where
  ap rn : ℕ → ℕ → OrderNo

-- user_orders.go
pub record UserOrders : Type 0 where
  pub id : ℕ
  pub order_no : OrderNo
  pub user_id : ℕ
  pub product_id : ℕ
  pub order_type : OrderType
  pub user_subscription_id : ℕ
  pub quantity : ℤ
  pub unit_price : ℤ
  pub status : OrderStatus
  pub total_amount : ℤ
  pub enterprise_invoice : ℕ
  pub pay_channel : String
  pub out_trade_no : List ℕ
  pub third_trade_no : Option (List ℕ)
  pub raw_request_json : Option OrderRawCoupon
  pub paid_at : Option ℕ
  pub expire_at : ℕ
  pub closed_at : Option ℕ

-- user_subscriptions.go; `orders` is a JSON array of order ids.
pub record UserSubscriptions : Type 0 where
  pub id : ℕ
  pub user_id : ℕ
  pub product_id : ℕ
  pub orders : List ℕ
  pub products_category_name : String
  pub sku_product_name : String
  pub base_limit_tokens : ℤ
  pub limit_tokens : ℤ
  pub used_tokens : ℤ
  pub started_at : ℕ
  pub expires_at : ℕ
  pub period_start : ℕ
  pub period_end : ℕ
  pub status : SubscriptionStatus

-- user_api_keys.go
pub record UserApiKeys : Type 0 where
  pub id : ℕ
  pub user_id : ℕ
  pub owner_user_id : ℕ
  pub enterprise_inquiry_id : ℕ
  pub user_subscription_id : ℕ
  pub key_type : KeyType
  pub key_hash : String
  pub products_category_name : String
  pub limit_tokens : ℤ
  pub used_tokens : ℤ
  pub status : KeyStatus

-- user_wallet_flows.go
pub record UserWalletFlows : Type 0 where
  pub user_id : ℕ
  pub flow_type : FlowType
  pub amount : ℤ
  pub balance_after : Option ℤ
  pub ref_type : RefType
  pub ref_id : ℕ

-- user_commission_records.go
pub record UserCommissionRecords : Type 0 where
  pub id : ℕ
  pub inviter_user_id : ℕ
  pub invitee_user_id : ℕ
  pub order_id : ℕ
  pub product_name : String
  pub order_amount : ℤ
  pub rate_percent : ℤ
  pub rebate_amount : ℤ

-- user_commission_withdrawals.go
pub record UserCommissionWithdrawals : Type 0 where
  pub id : ℕ
  pub user_id : ℕ
  pub amount : ℤ
  pub channel : String
  pub status : WithdrawalStatus

-- user_coupons.go
pub record UserCoupons : Type 0 where
  pub id : ℕ
  pub user_id : ℕ
  pub campaign_id : ℕ
  pub coupon_code : List ℕ
  pub discount_type : DiscountType
  pub discount_value : ℤ
  pub min_order_amount : ℤ
  pub status : CouponStatus
  pub valid_from : ℕ
  pub valid_until : ℕ
  pub used_at : Option ℕ
  pub order_id : Option ℕ

-- coupon_campaigns.go; the columns that are only shown have no field.
pub record CouponCampaigns : Type 0 where
  pub id : ℕ
  pub discount_type : DiscountType
  pub discount_value : ℤ
  pub min_order_amount : ℤ
  pub valid_days : ℕ
  pub auto_grant_on_register : Bool
  pub enabled : Bool

-- vip_domain_config.go
pub record VipDomainConfig : Type 0 where
  pub id : ℕ
  pub domain : List ℕ
  pub is_official : Bool

-- payment_callbacks.go
pub record PaymentCallbacks : Type 0 where
  pub channel : String
  pub idempotency_key : List ℕ
  pub process_result : String

-- user_notifications.go
pub record UserNotifications : Type 0 where
  pub user_id : ℕ
  pub user_subscription_id : Option ℕ
  pub api_key_id : Option ℕ
  pub template_code : String
  pub status : NotificationStatus

-- user_invoices.go
pub record UserInvoices : Type 0 where
  pub order_id : ℕ
  pub user_id : ℕ
  pub amount : ℤ

-- vip_config.go
pub record VipConfig : Type 0 where
  pub id : ℕ
  pub min_valid_invites : ℕ
  pub min_invitee_paid_amount : ℤ
  pub rate_percent : ℤ
  pub sort_order : ℤ
  pub enabled : Bool
  pub is_default : Bool

-- enterprise_users.go
pub record EnterpriseUsers : Type 0 where
  pub owner_user_id : ℕ
  pub enterprise_inquiry_id : ℕ
  pub user_id : ℕ
  pub is_active : Bool

-- enterprise_inquiry.go
pub record EnterpriseInquiry : Type 0 where
  pub id : ℕ
  pub owner_user_id : ℕ

-- user_commission_payout_config.go: what `HasQR` says of the row.
pub record UserCommissionPayoutConfig : Type 0 where
  pub user_id : ℕ
  pub channel : String
  pub has_qr : Bool
