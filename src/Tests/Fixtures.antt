-- ===== src/Tests/Fixtures.antt =====
-- A wallet of bitcoins with one user, one hot wallet and one withdrawal, from the request to the end.
use drx_wallet.Base.{
  ℕ, ◌+◌, ◌<◌, ◌≤◌, ◌≡◌, refl, sym, ◌∙◌, inl, inr, Bool, true, false, none, some, List, [], ◌∷◌,
  String, str_eq, eq_iff, Bool-cases, arith,
}
use drx_wallet.Base.Int.{pos}
use drx_wallet.Base.Outcome.{Outcome, ok, err, Error}
use drx_wallet.Base.Saves.{contains}
use drx_wallet.Base.{◌&&◌, count_where, count_where_none}
use drx_wallet.Schema.{WithdrawalStatus, Note}
use drx_wallet.Schema.{
  CountsPending, Withdrawal, is_pending, contains_text, Db, World, Registry, Gateway, Currency,
  IsDisjoint, IsNamed, IsFresh, HotWallet, WalletBalance, TransactionStatus, on_platform,
}
use drx_wallet.Workers.Picker.{picker_do_process}
use drx_wallet.Workers.Signer.{signer_do_process}
use drx_wallet.Workers.Sender.{sender_do_process}
use drx_wallet.Workers.Verifier.{verifier_do_process}
use drx_wallet.Workers.Requests.{insert_withdrawal_record}
use drx_wallet.Lifecycle.{IsConsistent, machine}
use drx_wallet.Lifecycle.Ticks.{commit}

abbrev pub btc : Currency
btc = record {
  symbol = "btc";
  network_symbol = "btc";
  platform = "btc";
  is_utxo_based = true;
  is_native = true;
  human_readable_scale = 8;
  native_scale = 0;
}

abbrev pub currencies_of : Bool → List Currency
currencies_of true = btc ∷ []
currencies_of false = []

abbrev pub currency_of : Bool → Outcome Currency
currency_of true = ok btc
currency_of false = err Error.unknown_currency

abbrev pub registry : Registry
registry = record {
  get_one_currency = λ symbol. currency_of (str_eq symbol "btc");
  get_currencies_of_platform = λ platform. currencies_of (str_eq platform "btc");
}

only_btc :
    (platform symbol : String) → on_platform registry platform symbol ≡ true → platform ≡ "btc"
only_btc platform symbol h = elim (Bool-cases (str_eq platform "btc")) [
  | inl t ↦ (eq_iff platform "btc").0 t
  | inr n ↦ cc (rw n at h)
]

pub registry-IsDisjoint : IsDisjoint registry
registry-IsDisjoint = record {
  one_platform = λ p q symbol h k. only_btc p symbol h ∙ sym (only_btc q symbol k);
}

named :
    (symbol : String) {c : Currency} → registry.get_one_currency symbol ≡ ok c → c.symbol ≡ symbol
named symbol {c} e = elim (Bool-cases (str_eq symbol "btc")) [
  | inl t ↦ let same : btc ≡ c = cc (rw t at e) in rw (← same, (eq_iff symbol "btc").0 t) refl
  | inr n ↦ cc (rw n at e)
]

pub registry-IsNamed : IsNamed registry
registry-IsNamed = record { own_symbol = λ platform symbol h e. named symbol e }

-- A key that is greater than those in the table.
abbrev pub next_id : List ℕ → ℕ
next_id [] = 1
next_id (k ∷ ks) = k + next_id ks

next_positive : (ids : List ℕ) → 0 < next_id ids
next_positive [] = omega arith
next_positive (k ∷ ks) = omega (arith, next_positive ks)

not_among : (n : ℕ) (ids : List ℕ) → next_id ids ≤ n → contains n ids ≡ false
not_among n [] h = refl
not_among n (k ∷ ks) h = ground (arith, next_positive ks, not_among n ks)

abbrev pub gateway : Gateway
gateway = record {
  get_address_balance = λ address. ok (pos 1000);
  get_transaction_status = λ txid. ok TransactionStatus.unknown;
  get_network_fee = λ txid. ok (pos 7);
  construct_utxo_transaction =
      λ from vouts. ok (some (record { txid = "raw"; unsigned_raw = "unsigned" }));
  construct_account_transaction = λ from to amount tag. ok none;
  sign_raw_transaction = λ raw secret. ok (record { txid = "txid"; signed_raw = "signed" });
  send_raw_transaction = λ raw. ok (some "txid");
}

abbrev pub completed_gateway : Gateway
completed_gateway = record gateway {
  get_transaction_status = λ txid. ok TransactionStatus.completed;
}

-- The count that the picker needs.
abbrev pub is_counted : List String → Withdrawal → Bool
is_counted symbols r = contains_text r.currency symbols && is_pending r.status

abbrev pub count_rows : List String → List Withdrawal → ℕ
count_rows symbols rows = count_where (is_counted symbols) rows

abbrev pub world : World
world = record {
  now = 5;
  new_id = next_id;
  gateway_of = λ symbol. gateway;
  run_count = λ query rows. count_rows query.where_in rows;
}

abbrev pub later_world : World
later_world = record {
  now = 9;
  new_id = next_id;
  gateway_of = λ symbol. completed_gateway;
  run_count = λ query rows. count_rows query.where_in rows;
}

pub world-CountsPending : CountsPending world
world-CountsPending = record {
  counted = λ symbols rows r none_ there on_it.
      let quiet = count_where_none (is_counted symbols) r rows none_ there in
      ground (arith, quiet, on_it);
}

pub world-IsFresh : IsFresh world
world-IsFresh = record {
  positive = next_positive;
  unused = λ ids. not_among (next_id ids) ids (omega arith);
}

pub later_world-IsFresh : IsFresh later_world
later_world-IsFresh = record {
  positive = next_positive;
  unused = λ ids. not_among (next_id ids) ids (omega arith);
}

abbrev pub hot_wallet : HotWallet
hot_wallet = record {
  user_id = 1;
  wallet_id = 1;
  address = "hot";
  currency = "btc";
  is_normal = true;
  secret = "secret";
  is_external = false;
}

abbrev pub wallet_balance : WalletBalance
wallet_balance = record {
  wallet_id = 1;
  currency = "btc";
  balance = pos 500;
  withdrawal_pending = pos 0;
  withdrawal_total = pos 0;
  lower_threshold = none;
  upper_threshold = none;
  middle_threshold = none;
  minimum_collect_amount = none;
  updated_at = 0;
}

abbrev pub new_db : Db
new_db = record {
  withdrawals = [];
  withdrawal_txs = [];
  withdrawal_logs = [];
  deposits = [];
  deposit_logs = [];
  internal_transfers = [];
  wallets = record { id = 1; user_id = 1; currency = "btc"; is_hd = true; secret = "" } ∷ [];
  addresses =
      record {
        wallet_id = 1;
        currency = "btc";
        address = "mine";
        hd_path = "m/0";
        secret = "key";
        is_hd = true;
        is_external = false;
      }
      ∷ [];
  hot_wallets = hot_wallet ∷ [];
  cold_wallets = [];
  wallet_balances = wallet_balance ∷ [];
  wallet_logs = [];
  webhooks = [];
  webhook_progresses = [];
  webhook_logs = [];
}

pub new_db-IsConsistent : (strict : Bool) → IsConsistent registry strict (machine new_db)
new_db-IsConsistent strict = record {
  request_ids = tt;
  bundle_ids = tt;
  positive_ids = λ b m. elim m [ ];
  linked = λ r m. elim m [ ];
  carried = λ b m. elim m [ ];
  exclusive = λ yes_ platform. omega arith;
  one_signed = λ source. omega arith;
}

unfoldable pub asked_db : Db
unfolding insert_withdrawal_record
asked_db = insert_withdrawal_record world "btc" 1 "to" (pos 100) none "TMP_WITHDRAWAL_TX" new_db

unfoldable pub picked_db : Db
unfolding asked_db picker_do_process
picked_db = commit (picker_do_process registry world "btc" asked_db) asked_db

unfoldable pub signed_db : Db
unfolding picked_db signer_do_process
signed_db = commit (signer_do_process registry world "btc" picked_db) picked_db

unfoldable pub sent_db : Db
unfolding signed_db sender_do_process
sent_db = commit (sender_do_process registry world "btc" signed_db) signed_db

unfoldable pub completed_db : Db
unfolding sent_db verifier_do_process
completed_db = commit (verifier_do_process registry later_world "btc" sent_db) sent_db

-- The withdrawal of completed_db.
abbrev pub completed_row : Withdrawal
completed_row = record {
  id = 1;
  user_id = 1;
  wallet_id = 1;
  currency = "btc";
  withdrawal_tx_id = 1;
  txid = "txid";
  from_address = "hot";
  to_address = "to";
  amount = pos 100;
  status = WithdrawalStatus.completed;
  note = Note.untagged;
  created_at = 5;
  updated_at = 9;
}
