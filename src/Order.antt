-- ===== src/Order.antt =====
-- application/core-service/order: orders from their creation to the delivery of what they paid for.
pub mod Payment
pub mod Purchase
pub mod Renew
pub mod Upgrade
pub mod QuotaAddon
pub mod Fulfill
pub mod Keeps
pub mod Channel
pub mod Subscription
pub mod Create
pub mod Notify
