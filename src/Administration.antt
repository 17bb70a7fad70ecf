-- ===== src/Administration.antt =====
-- libs/wallet-core/src/hd_wallet/DBUtils.ts: what an administrator of the wallet reads and writes. The queries
-- and updates are in Settings, Thresholds, Tokens, Accounts and Reports, the proofs in the other modules.
pub mod Settings
pub mod Thresholds
pub mod Middle
pub mod Tokens
pub mod Accounts
pub mod Reports
pub mod ColdWallets
pub mod TokenTrips
pub mod OneAddress
use drx_wallet.Base.{ℕ, List, String}
use drx_wallet.Schema.{Db}

pub record EnvConfig : Type 0 where
  pub key : String
  pub value : String

pub record Erc20Token : Type 0 where
  pub symbol : String
  pub name : String
  pub contract_address : String
  pub decimal : ℕ
  pub network : String

pub record CurrencyConfig : Type 0 where
  pub currency : String
  pub hd_path : String

-- The database with the tables that only an administrator uses; of a data key the key of its row.
pub record Office : Type 0 where
  pub db : Db
  pub env_configs : List EnvConfig
  pub erc20_tokens : List Erc20Token
  pub currency_configs : List CurrencyConfig
  pub kms_data_keys : List ℕ
