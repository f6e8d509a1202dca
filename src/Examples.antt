-- ===== src/Examples.antt =====
-- A small shop with one inviter, one buyer and one product.
pub mod Payments
pub mod Commission
pub mod Subscriptions
pub mod Checkout
pub mod Sessions
pub mod Jobs
pub mod Accounts
pub mod Teams
use ai_token_mall.Store.Balances.{NonNegative, Solvent}
use ai_token_mall.Prelude.{ℕ, arith, true, false, Option, none, some, List, [], ◌∷◌}
use ai_token_mall.Prelude.Int.{ℤ, pos}
use ai_token_mall.Text.{codes}
use ai_token_mall.Entity.{
  Users, Products, UserOrders, UserSubscriptions, UserApiKeys, UserCoupons, VipConfig, OrderNo,
  OrderType, UserStatus, OrderStatus, SubscriptionStatus, KeyType, KeyStatus, CouponStatus,
  DiscountType, UserCommissionPayoutConfig,
}
use ai_token_mall.Store.Action.{Tables, Db}
use ai_token_mall.Order.Fulfill.{PaymentNotifyInput}

abbrev pub inviter : Users
inviter = record {
  id = 1;
  email = some (codes "i@x.cn");
  phone = none;
  password_hash = codes "#pw";
  password_plain = codes "pw";
  nickname = none;
  vip_domain = none;
  status = UserStatus.active;
  last_login_at = none;
  parent_user_id = 0;
  vip_config_id = 1;
  wallet_balance = pos 500;
  commission_balance = pos 30000;
}

abbrev pub buyer : Users
buyer = record {
  id = 2;
  email = some (codes "b@x.cn");
  phone = none;
  password_hash = codes "#pw";
  password_plain = codes "pw";
  nickname = none;
  vip_domain = none;
  status = UserStatus.active;
  last_login_at = none;
  parent_user_id = 1;
  vip_config_id = 1;
  wallet_balance = pos 100000;
  commission_balance = pos 0;
}

abbrev pub plan : Products
plan = record {
  id = 5;
  card_title = "Starter";
  products_category_name = "chat";
  sku_product_name = "starter-30";
  limit_tokens = pos 1000;
  billing_period = "month";
  period_days = pos 30;
  price = pos 9900;
  on_sale = true;
}

abbrev pub level : VipConfig
level = record {
  id = 1;
  min_valid_invites = 0;
  min_invitee_paid_amount = pos 0;
  rate_percent = pos 1000;
  sort_order = pos 0;
  enabled = true;
  is_default = true;
}

-- One day is 86400000000000 ns; the subscription runs from day 0 to day 30.
abbrev pub day : ℕ
day = 86400000000000

abbrev pub subscription : UserSubscriptions
subscription = record {
  id = 7;
  user_id = 2;
  product_id = 5;
  orders = 1 ∷ [];
  products_category_name = "chat";
  sku_product_name = "starter-30";
  base_limit_tokens = pos 1000;
  limit_tokens = pos 1500;
  used_tokens = pos 400;
  started_at = 0;
  expires_at = 2592000000000000;
  period_start = 0;
  period_end = 2592000000000000;
  status = SubscriptionStatus.active;
}

abbrev pub key : UserApiKeys
key = record {
  id = 3;
  user_id = 2;
  owner_user_id = 2;
  enterprise_inquiry_id = 0;
  user_subscription_id = 7;
  key_type = KeyType.main;
  key_hash = "h3";
  products_category_name = "chat";
  limit_tokens = pos 1500;
  used_tokens = pos 400;
  status = KeyStatus.active;
}

abbrev pub order_of_type : OrderType → ℕ → UserOrders
order_of_type order_type user_subscription_id = record {
  id = 11;
  order_no = OrderNo.ap 10 2;
  user_id = 2;
  product_id = 5;
  order_type = order_type;
  user_subscription_id = user_subscription_id;
  quantity = pos 1;
  unit_price = pos 9900;
  status = OrderStatus.pending_payment;
  total_amount = pos 9900;
  enterprise_invoice = 1;
  pay_channel = "alipay";
  out_trade_no = codes "PAY1";
  third_trade_no = none;
  raw_request_json = some (record { user_coupon_id = 4 });
  paid_at = none;
  expire_at = 2000000000000;
  closed_at = none;
}

abbrev pub purchase : UserOrders
purchase = order_of_type OrderType.purchase 0

abbrev pub renewal : UserOrders
renewal = order_of_type OrderType.renewal 7

abbrev pub cancelled : UserOrders
cancelled = record purchase { status = OrderStatus.cancelled }

abbrev pub coupon : UserCoupons
coupon = record {
  id = 4;
  user_id = 2;
  coupon_code = codes "UC";
  campaign_id = 1;
  discount_type = DiscountType.percent;
  discount_value = pos 1000;
  min_order_amount = pos 0;
  status = CouponStatus.available;
  valid_from = 0;
  valid_until = 5000;
  used_at = none;
  order_id = none;
}

abbrev pub payout : UserCommissionPayoutConfig
payout = record { user_id = 1; channel = "alipay"; has_qr = true }

abbrev pub shop_with : List UserOrders → Tables
shop_with orders = record {
  users = inviter ∷ buyer ∷ [];
  products = plan ∷ [];
  orders = orders;
  subscriptions = subscription ∷ [];
  api_keys = key ∷ [];
  flows = [];
  records = [];
  withdrawals = [];
  coupons = coupon ∷ [];
  callbacks = [];
  notifications = [];
  invoices = [];
  vip_configs = level ∷ [];
  enterprise_users = [];
  inquiries = [];
  payouts = payout ∷ [];
  campaigns = [];
  vip_domains = [];
}

abbrev pub shop : Tables
shop = shop_with (purchase ∷ [])

abbrev pub db_of : Tables → Db
db_of t = record { tables = t; seq = 100; faults = [] }

abbrev pub notice : PaymentNotifyInput
notice = record {
  channel = "alipay";
  out_trade_no = codes "PAY1";
  third_trade_no = codes "T1";
  idempotency_key = codes "alipay:PAY1";
}

pub shop-Solvent : Solvent shop
unfolding ai_token_mall.Store.Users.lookup_user ai_token_mall.Prelude.find_first
shop-Solvent = record { commission = λ id. ground arith; wallet = λ id. ground arith }
