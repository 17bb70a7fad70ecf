-- ===== src/Lifecycle.antt =====
-- What the withdrawal workers promise, with all that does not matter for it left out: requests move
-- in bundles through the statuses of libs/wallet-core/src/Enums.ts, a platform has one bundle under way at
-- most, and a source of payments one bundle that is signed or sent. The comments of pickerDoProcess.ts,
-- signerDoProcess.ts, senderDoProcess.ts, verifierDoProcess.ts and getNextPickedWithdrawals.ts describe
-- this machine.
pub mod Keeps
pub mod Fates
pub mod Refine
pub mod Ticks
use drx_wallet.Base.{
  ℕ, ◌<◌, ◌≡◌, ◌≢◌, ◌≤◌, ◌⊎◌, Bool, true, false, ◌&&◌, List, [], ◌∷◌, String, ◌==◌, str_eq, map,
  update_where, insert_row, count_where, Has,
}
use drx_wallet.Base.Saves.{contains, Unique, update_ids}
use drx_wallet.Schema.{
  Db, Registry, on_platform, WithdrawalStatus, is_pending, is_signed_or_sent, Withdrawal,
  WithdrawalTx,
}

-- A withdrawal. Its source is the address that it is paid from.
pub record Request : Type 0 where
  pub id : ℕ
  pub bundle : ℕ
  pub status : WithdrawalStatus
  pub currency : String
  pub source : String

-- A withdrawal transaction.
pub record Bundle : Type 0 where
  pub id : ℕ
  pub status : WithdrawalStatus
  pub currency : String
  pub source : String

pub record Machine : Type 0 where
  pub requests : List Request
  pub bundles : List Bundle

abbrev pub request_id : Request → ℕ
request_id r = r.id

abbrev pub bundle_id : Bundle → ℕ
bundle_id b = b.id

-- The statuses that a bundle takes one after the other.
infix 40 ◌⟶◌
pub data ◌⟶◌ : WithdrawalStatus → WithdrawalStatus → Type 0 where
  sign : WithdrawalStatus.signing ⟶ WithdrawalStatus.signed
  send : WithdrawalStatus.signed ⟶ WithdrawalStatus.sent
  take_back : WithdrawalStatus.signed ⟶ WithdrawalStatus.unsigned
  complete : WithdrawalStatus.sent ⟶ WithdrawalStatus.completed
  fail : WithdrawalStatus.sent ⟶ WithdrawalStatus.failed

abbrev pub new_request : ℕ → String → String → Request
new_request id currency source = record {
  id = id;
  bundle = 0;
  status = WithdrawalStatus.unsigned;
  currency = currency;
  source = source;
}

abbrev pub new_bundle : ℕ → String → String → Bundle
new_bundle id currency source = record {
  id = id;
  status = WithdrawalStatus.signing;
  currency = currency;
  source = source;
}

abbrev pub join_bundle : ℕ → String → Request → Request
join_bundle k source r = record r { bundle = k; status = WithdrawalStatus.signing; source = source }

abbrev pub move_request : WithdrawalStatus → Request → Request
move_request s r = record r { status = s }

abbrev pub move_bundle : WithdrawalStatus → Bundle → Bundle
move_bundle s b = record b { status = s }

abbrev pub is_request_of : ℕ → Request → Bool
is_request_of k r = r.bundle == k

abbrev pub is_bundle : ℕ → Bundle → Bool
is_bundle k b = b.id == k

-- A bundle and its requests take a status.
abbrev pub moved_machine : ℕ → WithdrawalStatus → Machine → Machine
moved_machine k s m = record {
  requests = update_where (is_request_of k) (move_request s) m.requests;
  bundles = update_where (is_bundle k) (move_bundle s) m.bundles;
}

-- The strict machine picks only where no request of the platform is under way; the other one does not
-- ask for that.
-- When the requests `ids` of one currency may be put into the new bundle `k`.
pub record MayPick (reg : Registry) (strict : Bool) (m : Machine) (platform : String)
    (currency : String) (ids : List ℕ) (k : ℕ) : Type 0 where
  pub on_it : on_platform reg platform currency ≡ true
  pub idle :
      strict ≡ true
      → (r : Request) → Has r m.requests
      → on_platform reg platform r.currency ≡ true
      → is_pending r.status ≡ false
  pub eligible :
      (r : Request)
      → Has r m.requests
      → contains r.id ids ≡ true
      → (r.status ≡ WithdrawalStatus.unsigned) × (r.currency ≡ currency)
  pub some_request : (r : Request) × Has r m.requests × (contains r.id ids ≡ true)
  pub positive : 0 < k
  pub new_key : (b : Bundle) → Has b m.bundles → k ≢ b.id

abbrev pub IsFinished : WithdrawalStatus → Type 0
IsFinished s = (s ≡ WithdrawalStatus.completed) ⊎ (s ≡ WithdrawalStatus.failed)

-- A bundle is signed only where no request that is paid from its source is signed or sent.
abbrev pub IsFree : Machine → Bundle → Type 0
IsFree m b =
    b.status ≡ WithdrawalStatus.signing
    → (r : Request) → Has r m.requests
    → r.source ≡ b.source
    → is_signed_or_sent r.status ≡ false

-- Only where `ends` is true may a step end a bundle.
pub data Step (reg : Registry) (strict : Bool) (ends : Bool) (m : Machine) (m' : Machine)
    : Type 0 where
  -- A user or the threshold of a hot wallet asks for a withdrawal.
  request :
      (id : ℕ) (currency source : String)
      → ((r : Request) → Has r m.requests → id ≢ r.id)
      → m' ≡ record m { requests = insert_row (new_request id currency source) m.requests }
      → Step reg strict ends m m'
  pick :
      (platform currency source : String) (ids : List ℕ) (k : ℕ)
      → MayPick reg strict m platform currency ids k
      → m' ≡ record {
        requests = update_ids request_id ids (join_bundle k source) m.requests;
        bundles = insert_row (new_bundle k currency source) m.bundles;
      }
      → Step reg strict ends m m'
  move :
      (b : Bundle) (s : WithdrawalStatus)
      → Has b m.bundles
      → b.status ⟶ s
      → IsFree m b
      → (IsFinished s → ends ≡ true)
      → m' ≡ moved_machine b.id s m
      → Step reg strict ends m m'

pub data Steps (reg : Registry) (strict : Bool) (ends : Bool) (m : Machine) : Machine → Type 0 where
  here : Steps reg strict ends m m
  next :
      {m' m'' : Machine}
      → Steps reg strict ends m m'
      → Step reg strict ends m' m''
      → Steps reg strict ends m m''

abbrev pub request_of : Withdrawal → Request
request_of r = record {
  id = r.id;
  bundle = r.withdrawal_tx_id;
  status = r.status;
  currency = r.currency;
  source = r.from_address;
}

abbrev pub bundle_of : WithdrawalTx → Bundle
bundle_of t = record {
  id = t.id;
  status = t.status;
  currency = t.currency;
  source = t.hot_wallet_address;
}

-- The machine that a database holds.
abbrev pub machine : Db → Machine
machine db = record {
  requests = map request_of db.withdrawals;
  bundles = map bundle_of db.withdrawal_txs;
}

-- A request is in the state of its bundle, or is new.
abbrev pub IsLinked : List Bundle → Request → Type 0
IsLinked bundles r =
    ((r.bundle ≡ 0) × (r.status ≡ WithdrawalStatus.unsigned))
    ⊎ ((b : Bundle) × Has b bundles
        × (b.id ≡ r.bundle)
        × (b.status ≡ r.status)
        × (b.currency ≡ r.currency)
        × (b.source ≡ r.source))

abbrev pub is_under_way : Registry → String → Bundle → Bool
is_under_way reg platform b = on_platform reg platform b.currency && is_pending b.status

abbrev pub is_out_from : String → Bundle → Bool
is_out_from source b = str_eq b.source source && is_signed_or_sent b.status

-- The invariant of the machine.
pub record IsConsistent (reg : Registry) (strict : Bool) (m : Machine) : Type 0 where
  pub request_ids : Unique request_id m.requests
  pub bundle_ids : Unique bundle_id m.bundles
  pub positive_ids : (b : Bundle) → Has b m.bundles → 0 < b.id
  pub linked : (r : Request) → Has r m.requests → IsLinked m.bundles r
  pub carried :
      (b : Bundle)
      → Has b m.bundles
      → is_pending b.status ≡ true
      → (r : Request) × Has r m.requests × (r.bundle ≡ b.id)
  pub exclusive :
      strict ≡ true → (platform : String) → count_where (is_under_way reg platform) m.bundles ≤ 1
  pub one_signed : (source : String) → count_where (is_out_from source) m.bundles ≤ 1
