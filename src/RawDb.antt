-- ===== src/RawDb.antt =====
-- The queries and updates of libs/wallet-core/src/rawdb that the workers are made of. The tasks of
-- one `Utils.PromiseAll` run in the order of its list. An error rejects the whole transaction, so a
-- call that throws returns no database.
pub mod Logs
pub mod Keys
pub mod Picking
pub mod Status
pub mod HotWallets
pub mod Balances
pub mod Threshold
pub mod Alerts
pub mod Deposits
pub mod Collectable
