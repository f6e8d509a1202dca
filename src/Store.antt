-- ===== src/Store.antt =====
-- The database as a state, and the statements of the repositories as actions on it.
-- gorm and MySQL are not in this repository. A statement is one entry of `faults`: `true` makes it
-- fail with a database error, `false` or the end of the list lets it run. So a theorem over every
-- `Db` covers a connection that breaks at any statement. `seq` hands out fresh row ids.
pub mod Action
pub mod Ensures
pub mod Users
pub mod Ledger
pub mod Balances
pub mod Rules
pub mod Orders
pub mod Coupons
pub mod Subscriptions
pub mod ApiKeys
pub mod Callbacks
pub mod Keeps
pub mod Books
pub mod Atomic
pub mod Yields
pub mod Leaves
pub mod Levels
pub mod Campaigns
pub mod Accounts
