-- ===== src/Lib.antt =====
-- AI-Token-Mall sells token plans: a user orders a product, pays by a gateway or from the wallet,
-- and gets a subscription with API keys; the user who invited the buyer earns a commission.
--
-- The parts, and the files of the repository that they follow (paths from the repository's root):
-- - Money, Money.Rounding: common/money/money.go.
-- - Billing, Billing.Cycles: common/billing/period.go, the periods of subscriptions.
-- - Entity, Entity.Status: domain/persistent/entity, the rows and the words of their text columns.
-- - Store: infrastructure/mysql. Store.Action holds the tables and the actions on them,
--   Store.Users to Store.Callbacks, Levels, Campaigns and Accounts the statements of the
--   repositories. Store.Ensures, Rules, Keeps, Atomic, Leaves, Yields and Books are rules to
--   reason about actions; Store.Balances compares the balances of a user with the wallet flows.
-- - Rebate: application/core-service/invite_rebate. Rebate.OrderRebate is order_rebate.go,
--   Rebate.VipTier vip_tier.go, Rebate.CommissionTransfer commission_transfer.go,
--   Rebate.CommissionWithdraw and Rebate.Amount commission_withdraw.go.
-- - Coupon: application/core-service/coupon/checkout.go and application/bot/scripts/coupon_expire;
--   Coupon.Grant is coupon/service.go.
-- - Order: application/core-service/order. Order.Channel, Order.Create and Order.Notify are
--   order_service.go, Order.Subscription is order_subscription.go, and Order.Payment, Purchase,
--   Renew, Upgrade, QuotaAddon and Fulfill are order_fulfill_service.go.
-- - Lifecycle: application/bot/scripts/subscription_lifecycle.
-- - SubKey: application/core-service/user_api_key/service.go, the keys that an owner gives to the
--   members of a team.
-- - Auth: common/auth/token.go and common/dederi/gin/middleware/auth.go, the session tokens.
-- - Account: application/core-service/user. Account.Host and Account.Invite are
--   registration_invite.go and registration_vip_domain_prefix.go, Account itself is
--   user_service.go; Account.Reads, Laws and Access are about them. Account.Lists has the pages of
--   user_service.go and of invite_rebate_service.go, and Account.Cover is about them.
-- - VipSync: application/bot/scripts/vip_level_sync.
-- - Bot: application/bot/scheduler.go, which runs Lifecycle, VipSync and the expiry of Coupon.
-- - Text, Prelude: string functions of Go's library that the program compares with, and shared
--   helpers. Examples: a small shop, with each result applied to it.
--
-- How the parts meet: Order.Notify finds the order of a notice and calls Order.Fulfill, which in
-- one transaction completes the order, delivers it by its type, marks the coupon (Coupon), accrues
-- the rebate (Rebate.OrderRebate) and stores the callback. Lifecycle renews from the wallet
-- through the same delivery. Account makes the users, asks Coupon.Grant for their first coupons
-- and Auth for their session tokens; VipSync raises the level from which Rebate takes its rate;
-- Bot decides which of the jobs run, and how often.
--
-- State and errors: a service method is an action, a function from a database to a value or an
-- error with the database that it leaves. A database is its tables, the next row id and a list of
-- faults: each statement takes one fault, and a fault that is true makes it fail with a database
-- error. A result over all databases thus covers a connection that breaks at any statement. A
-- transaction restores the tables when its body raises. A row lock has no counterpart, since a
-- transaction runs alone; the goroutines of a batch are run one after the other. `Ensures m Q t`
-- says that the action m, from the tables t and whatever faults are due, raises or returns with Q;
-- it does not say that m returns, which no action does whose statements fail. In Examples concrete
-- runs return.
--
-- Numbers: an amount of money is an integer of cents, a percentage an integer of hundredths. A
-- DECIMAL or BIGINT column that overflows is a failing statement. `int64` results wrap at 64 bits
-- where Go computes them. A time is a natural number of nanoseconds; a day has 24 hours, as the
-- business time zone has no daylight saving. A decimal number is printed with fuel 20, the digits
-- of a 64-bit number; the loop over billing cycles has the fuel 99, its own cap, and the loop over
-- pages of users one round more than there are users, since every round but the last reads rows.
--
-- Parameters: decimal.NewFromString, and the hash that common/apikey generates from the system's
-- randomness, are arguments, and so are bcrypt, mail.ParseAddress, HMAC-SHA256, random numbers,
-- the collation of MySQL for the identities of users, gocron and the floating-point intervals of
-- the jobs; `time.Now()` is the argument `now`. Go's ToLower, ToUpper and TrimSpace are written
-- for code points as far as comparisons with ASCII words see them.
--
-- Not modelled: columns that are only shown (timestamps of rows, currencies, remarks, titles), the
-- branches for a missing table or column of the database, HTTP handlers, payment providers, most
-- listings, enterprise pages, papers and tutorials, which read single rows or call other services.
-- Nor are the members of teams, and the start and the panic recovery of the scheduler. Outside the
-- identities of users, text columns are compared code point by code point: that the collation of
-- MySQL takes keys of orders and callbacks for equal that differ in case has no counterpart.
pub mod Prelude
pub mod Money
pub mod Billing
pub mod Text
pub mod Entity
pub mod Store
pub mod Rebate
pub mod Coupon
pub mod Order
pub mod Lifecycle
pub mod SubKey
pub mod Auth
pub mod Account
pub mod VipSync
pub mod Bot
pub mod Examples
