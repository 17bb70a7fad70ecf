-- ===== src/Schema/Enums.antt =====
-- libs/wallet-core/src/Enums.ts and libs/sota-common/src/enums/TransactionStatus.ts. A column that
-- holds one of these strings is the enumeration here.
use drx_wallet.Base.{ℕ, Bool, true, false, ◌==◌, ◌≡◌, ◌≢◌, arith}

pub data WithdrawalStatus : Type 0 where
  invalid unsigned signing signed sent completed failed : WithdrawalStatus

pub data WithdrawalEvent : Type 0 where
  created picked signed sent completed failed txid_changed : WithdrawalEvent

pub data DepositEvent : Type 0 where
  created confirmed collected collected_failed seeding seeded notcollect : DepositEvent

pub data CollectStatus : Type 0 where
  uncollected forwarding collecting collected notcollect seed_requested : CollectStatus

pub data WalletEvent : Type 0 where
  created deposit withdraw_request withdraw_completed withdraw_failed withdraw_fee : WalletEvent
  erc20_withdraw_fee usdt_withdraw_fee withdraw_accepted withdraw_declined : WalletEvent
  collect_fee collected_fail collected seeded_fail seeded seed_fee : WalletEvent

pub data WebhookType : Type 0 where
  deposit withdrawal : WebhookType

pub data InternalTransferType : Type 0 where
  collect seed : InternalTransferType

-- The values that `Deposit.collectedTxid` takes in place of a txid.
pub data NotCollect : Type 0 where
  dust_amount hot_wallet external_address : NotCollect

pub data TransactionStatus : Type 0 where
  unknown confirming completed failed : TransactionStatus

-- Numbers that tell the statuses apart, for the comparisons.
abbrev pub withdrawal_status_code : WithdrawalStatus → ℕ
withdrawal_status_code WithdrawalStatus.invalid = 0
withdrawal_status_code WithdrawalStatus.unsigned = 1
withdrawal_status_code WithdrawalStatus.signing = 2
withdrawal_status_code WithdrawalStatus.signed = 3
withdrawal_status_code WithdrawalStatus.sent = 4
withdrawal_status_code WithdrawalStatus.completed = 5
withdrawal_status_code WithdrawalStatus.failed = 6

abbrev pub collect_status_code : CollectStatus → ℕ
collect_status_code CollectStatus.uncollected = 0
collect_status_code CollectStatus.forwarding = 1
collect_status_code CollectStatus.collecting = 2
collect_status_code CollectStatus.collected = 3
collect_status_code CollectStatus.notcollect = 4
collect_status_code CollectStatus.seed_requested = 5

abbrev pub has_status : WithdrawalStatus → WithdrawalStatus → Bool
has_status s t = withdrawal_status_code s == withdrawal_status_code t

abbrev pub has_collect_status : CollectStatus → CollectStatus → Bool
has_collect_status s t = collect_status_code s == collect_status_code t

pub has_status-eq : (s t : WithdrawalStatus) → has_status s t ≡ true → s ≡ t
has_status-eq s t h = ground arith

-- `[WithdrawalStatus.SENT, WithdrawalStatus.SIGNED, WithdrawalStatus.SIGNING]`
abbrev pub is_pending : WithdrawalStatus → Bool
is_pending WithdrawalStatus.sent = true
is_pending WithdrawalStatus.signed = true
is_pending WithdrawalStatus.signing = true
is_pending _ = false

-- The statuses that end the verification.
abbrev pub IsFinal : TransactionStatus → Type 0
IsFinal s = (s ≢ TransactionStatus.unknown) × (s ≢ TransactionStatus.confirming)

-- `[WithdrawalStatus.SIGNED, WithdrawalStatus.SENT]` of signerDoProcess.ts.
abbrev pub is_signed_or_sent : WithdrawalStatus → Bool
is_signed_or_sent WithdrawalStatus.signed = true
is_signed_or_sent WithdrawalStatus.sent = true
is_signed_or_sent _ = false

abbrev pub is_seed : InternalTransferType → Bool
is_seed InternalTransferType.seed = true
is_seed InternalTransferType.collect = false
