-- ===== src/Schema/Wallets.antt =====
-- The entities of wallets, addresses, balances and webhooks.
use drx_wallet.Base.{ℕ, String, Option, Bool}
use drx_wallet.Base.Int.{ℤ}
use drx_wallet.Schema.Enums.{
  WalletEvent, InternalTransferType, WebhookType, DepositEvent, WithdrawalEvent,
}

pub record Wallet : Type 0 where
  pub id : ℕ
  pub user_id : ℕ
  pub currency : String
  pub is_hd : Bool
  pub secret : String

pub record Address : Type 0 where
  pub wallet_id : ℕ
  pub currency : String
  pub address : String
  pub hd_path : String
  pub secret : String
  pub is_hd : Bool
  pub is_external : Bool

-- `secret` is the stored text, from which `extractRawPrivateKey` reads the private key.
pub record HotWallet : Type 0 where
  pub user_id : ℕ
  pub wallet_id : ℕ
  pub address : String
  pub currency : String
  pub is_normal : Bool
  pub secret : String
  pub is_external : Bool

pub record ColdWallet : Type 0 where
  pub user_id : ℕ
  pub wallet_id : ℕ
  pub address : String
  pub currency : String

-- A threshold that is not set is `none`.
pub record WalletBalance : Type 0 where
  pub wallet_id : ℕ
  pub currency : String
  pub balance : ℤ
  pub withdrawal_pending : ℤ
  pub withdrawal_total : ℤ
  pub lower_threshold : Option ℤ
  pub upper_threshold : Option ℤ
  pub middle_threshold : Option ℤ
  pub minimum_collect_amount : Option ℤ
  pub updated_at : ℕ

-- `WalletLog.event` takes the values of two enumerations.
pub data LogEvent : Type 0 where
  wallet_event : WalletEvent → LogEvent
  transfer_event : InternalTransferType → LogEvent

pub record WalletLog : Type 0 where
  pub wallet_id : ℕ
  pub currency : String
  pub event : LogEvent
  pub balance_change : ℤ
  pub ref_id : ℕ
  pub created_at : ℕ
  pub updated_at : ℕ

pub record Webhook : Type 0 where
  pub id : ℕ
  pub user_id : ℕ
  pub url : String

pub data WebhookEvent : Type 0 where
  deposit_event : DepositEvent → WebhookEvent
  withdrawal_event : WithdrawalEvent → WebhookEvent

pub record WebhookProgress : Type 0 where
  pub id : ℕ
  pub webhook_id : ℕ
  pub type : WebhookType
  pub ref_id : ℕ
  pub event : WebhookEvent
  pub is_processed : Bool
  pub created_at : ℕ
  pub updated_at : ℕ

pub record WebhookLog : Type 0 where
  pub progress_id : ℕ
  pub url : String
  pub status : ℕ
  pub created_at : ℕ
