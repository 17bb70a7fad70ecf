-- ===== src/Schema.antt =====
-- The data of the wallet: libs/wallet-core/src/Enums.ts, the entities of
-- libs/wallet-core/src/entities as records of their columns, and the database that holds them.
mod Enums
mod Entities
mod Wallets
mod Database
pub use Enums.*
pub use Entities.*
pub use Wallets.*
pub use Database.*
