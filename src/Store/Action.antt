-- ===== src/Store/Action.antt =====
-- Actions on the database, with errors as values. What a statement wrote stays written after a
-- later error, until `transaction` rolls it back.
use ai_token_mall.Prelude.{
  ℕ, ◌+◌, Bool, true, false, Option, none, some, List, [], ◌∷◌, if◌then◌else◌,
}
use ai_token_mall.Entity.{
  Users, Products, UserOrders, UserSubscriptions, UserApiKeys, UserWalletFlows,
  UserCommissionRecords, UserCommissionWithdrawals, UserCoupons, PaymentCallbacks,
  UserNotifications, UserInvoices, VipConfig, EnterpriseUsers, EnterpriseInquiry,
  UserCommissionPayoutConfig, CouponCampaigns, VipDomainConfig,
}

pub record Tables : Type 0 where
  pub users : List Users
  pub products : List Products
  pub orders : List UserOrders
  pub subscriptions : List UserSubscriptions
  pub api_keys : List UserApiKeys
  pub flows : List UserWalletFlows
  pub records : List UserCommissionRecords
  pub withdrawals : List UserCommissionWithdrawals
  pub coupons : List UserCoupons
  pub callbacks : List PaymentCallbacks
  pub notifications : List UserNotifications
  pub invoices : List UserInvoices
  pub vip_configs : List VipConfig
  pub enterprise_users : List EnterpriseUsers
  pub inquiries : List EnterpriseInquiry
  pub payouts : List UserCommissionPayoutConfig
  pub campaigns : List CouponCampaigns
  pub vip_domains : List VipDomainConfig

pub record Db : Type 0 where
  pub tables : Tables
  pub seq : ℕ
  pub faults : List Bool

-- Errors of the database driver, of the services, and the response errors of common/errorx.
-- `nil_pointer` is a panic on a nil pointer, which rolls a transaction back as an error does.
pub data Error : Type 0 where
  record_not_found database duplicate_entry key_generation nil_pointer : Error
  insufficient_commission_balance insufficient_wallet_balance invalid_transfer_amount : Error
  not_payable unknown_order_type : Error
  renew_missing_id renew_not_found renew_product_mismatch renew_not_active : Error
  upgrade_missing_id upgrade_not_found : Error
  quota_addon_missing_id quota_addon_not_found quota_addon_not_active : Error
  params_error db_error unknown user_not_found product_not_found payment_not_found : Error
  order_not_payable renew_no_subscription coupon_unavailable : Error
  api_key_not_found api_key_forbidden sub_key_duplicate sub_key_limit_exceeded : Error
  password_mismatch user_exists user_disabled wrong_password invalid_credential : Error
  no_vip_domain_pool vip_domain_busy random : Error
  payment_fulfill_failed : Error → Error

pub data Outcome (A : Type 0) : Type 0 where
  ok : A → Db → Outcome A
  err : Error → Db → Outcome A

abbrev pub Action : Type 0 → Type 0
Action A = Db → Outcome A

abbrev pub tables_of : {A : Type 0} → Outcome A → Tables
tables_of (ok a db) = db.tables
tables_of (err e db) = db.tables

module _ {A : Type 0} where
  unfoldable pub pure : A → Action A
  pure a db = ok a db

  unfoldable pub raise : Error → Action A
  raise e db = err e db

infixl 5 ◌>>=◌ ◌>>◌
unfoldable pub ◌>>=◌ : {A B : Type 0} → Action A → (A → Action B) → Action B
◌>>=◌ m f db = elim (m db) [ ok a db' ↦ f a db' | err e db' ↦ err e db' ]

abbrev pub ◌>>◌ : {A B : Type 0} → Action A → Action B → Action B
m >> k = m >>= λ _. k

-- One statement: the fault that is due is used up.
unfoldable pub consume : {A : Type 0} → List Bool → Action A → Action A
consume [] m db = m db
consume (true ∷ rest) m db = err Error.database (record db { faults = rest })
consume (false ∷ rest) m db = m (record db { faults = rest })

unfoldable pub statement : {A : Type 0} → Action A → Action A
unfolding consume
statement m db = consume db.faults m db

-- SELECT
unfoldable pub query : {A : Type 0} → (Tables → A) → Action A
unfolding statement
query f = statement (λ db. ok (f db.tables) db)

-- UPDATE
unfoldable pub exec : (Tables → Tables) → Action (Unit {0})
unfolding statement
exec f = statement (λ db. ok tt (record db { tables = f db.tables }))

-- INSERT of a row that is built from its fresh id; `clash` is the test of the table's unique keys.
unfoldable pub insert : (Tables → ℕ → Bool) → (ℕ → Tables → Tables) → Action ℕ
unfolding statement
insert clash f = statement λ db.
    if clash db.tables db.seq
    then err Error.duplicate_entry db
    else ok db.seq (record db { tables = f db.seq db.tables; seq = db.seq + 1 })

-- Runs `m`, and hands its error to `handler`, as `if err != nil { … }` does.
unfoldable pub catch : {A : Type 0} → Action A → (Error → Action A) → Action A
catch m handler db = elim (m db) [ ok a db' ↦ ok a db' | err e db' ↦ handler e db' ]

-- `errors.Is(err, …)` and the other rewordings of an error.
unfoldable pub map_error : {A : Type 0} → (Error → Error) → Action A → Action A
unfolding catch raise
map_error f m = catch m (λ e. raise (f e))

-- `Transactor.Transaction`: an error rolls the tables back.
unfoldable pub transaction : {A : Type 0} → Action A → Action A
transaction m db = elim (m db) [
  | ok a db' ↦ ok a db'
  | err e db' ↦ err e (record db' { tables = db.tables })
]

abbrev pub when : Bool → Action (Unit {0}) → Action (Unit {0})
when b m = if b then m else pure tt

abbrev pub raise_if : Bool → Error → Action (Unit {0})
raise_if b e = if b then raise e else pure tt

abbrev pub require : {A : Type 0} → Option A → Error → Action A
require none e = raise e
require (some a) e = pure a
