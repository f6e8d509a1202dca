-- ===== src/Rebate.antt =====
-- application/core-service/invite_rebate: commissions for inviters, their transfer to the wallet and
-- their withdrawal.
pub mod Amount
pub mod VipTier
pub mod OrderRebate
pub mod CommissionTransfer
pub mod CommissionWithdraw
