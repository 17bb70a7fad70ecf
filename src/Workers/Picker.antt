-- ===== src/Workers/Picker.antt =====
-- pickerDoProcess.ts. The counter of failed rounds only chooses between two lines of the log, and is
-- left out.
use drx_wallet.Base.{
  Bool, true, Option, none, some, List, [], ◌∷◌, ◌++◌, map, String, str_eq, if◌then◌else◌, select,
  ℕ,
}
use drx_wallet.Base.Int.{ℤ, pos, ◌+ℤ◌, eqb_ℤ}
use drx_wallet.Base.Outcome.{Outcome, ok, err, Error, ◌>>=◌}
use drx_wallet.Schema.{
  Db, World, Registry, Currency, Gateway, Withdrawal, HotWallet, RawVout, RawTransaction, get_tag,
}
use drx_wallet.RawDb.Keys.{withdrawal_key, touch_withdrawals}
use drx_wallet.RawDb.Picking.{get_next_picked_withdrawals, do_picking_withdrawals}
use drx_wallet.RawDb.HotWallets.{find_sufficient_hot_wallet, check_hot_wallet_is_sufficient}
use drx_wallet.RawDb.Threshold.{check_upper_threshold}

abbrev pub tmp_address : String
tmp_address = "TMP_ADDRESS"

-- A withdrawal of zero gives no output.
abbrev pub vouts_of : List Withdrawal → List RawVout
vouts_of [] = []
vouts_of (r ∷ rs) =
    let rest = vouts_of rs in
    if eqb_ℤ r.amount (pos 0)
    then rest
    else record { to_address = r.to_address; amount = r.amount } ∷ rest

abbrev pub total_of : List Withdrawal → ℤ
total_of [] = pos 0
total_of (r ∷ rs) =
    let rest = total_of rs in if eqb_ℤ r.amount (pos 0) then rest else r.amount +ℤ rest

abbrev pub is_from : String → Withdrawal → Bool
is_from address r = str_eq r.from_address address

-- The withdrawals that go into the transaction before the hot wallet is known.
abbrev pub first_picked : Currency → Withdrawal → List Withdrawal → List Withdrawal
first_picked c first rest =
    if c.is_utxo_based then select (is_from tmp_address) (first ∷ rest) else first ∷ []

-- On a network with unspent outputs, those to the cold wallet from this hot wallet are added.
abbrev pub all_picked : Currency → HotWallet → Withdrawal → List Withdrawal → List Withdrawal
all_picked c hot_wallet first rest =
    if c.is_utxo_based
    then first_picked c first rest ++ select (is_from hot_wallet.address) (first ∷ rest)
    else first_picked c first rest

-- The call for an account reads the first output, which throws where there is none.
abbrev construct_from_account :
    Gateway → HotWallet → List RawVout → ℤ → Option String → Outcome (Option RawTransaction)
construct_from_account g hot_wallet [] amount tag = err Error.null_reference
construct_from_account g hot_wallet (v ∷ vs) amount tag =
    g.construct_account_transaction hot_wallet.address v.to_address amount tag

abbrev pub construct :
    Gateway
    → Currency
    → HotWallet
    → List Withdrawal
    → Option String
    → Outcome (Option RawTransaction)
construct g c hot_wallet picked tag =
    if c.is_utxo_based
    then g.construct_utxo_transaction hot_wallet.address (vouts_of picked)
    else construct_from_account g hot_wallet (vouts_of picked) (total_of picked) tag

-- A construction that throws or gives nothing is tried again later: only the times are updated.
abbrev pub finish_picking :
    World → Currency → HotWallet → List ℕ → Outcome (Option RawTransaction) → Db → Outcome Db
finish_picking w c hot_wallet ids (err e) db = touch_withdrawals w ids db
finish_picking w c hot_wallet ids (ok none) db = touch_withdrawals w ids db
finish_picking w c hot_wallet ids (ok (some raw)) db =
    do_picking_withdrawals w raw hot_wallet c.symbol ids db

-- `if (!checkHotWalletIsSufficient(…)) throw`, on networks with unspent outputs only.
abbrev pub check_sufficient : World → Currency → HotWallet → ℤ → Outcome Bool
check_sufficient w c hot_wallet amount =
    if c.is_utxo_based then check_hot_wallet_is_sufficient w hot_wallet amount else ok true

abbrev pub pick_from :
    World → Currency → Withdrawal → List Withdrawal → Option HotWallet → Db → Outcome Db
pick_from w c first rest none db =
    touch_withdrawals w (map withdrawal_key (first_picked c first rest)) db
pick_from w c first rest (some hot_wallet) db = do
  let picked = all_picked c hot_wallet first rest
  enough ← check_sufficient w c hot_wallet (total_of picked)
  if enough
      then finish_picking w c hot_wallet (map withdrawal_key picked)
          (construct (w.gateway_of c.symbol) c hot_wallet picked (get_tag first)) db
      else err Error.hot_wallet_insufficient

abbrev pub pick_group : Registry → World → String → List Withdrawal → Db → Outcome Db
pick_group reg w platform [] db = check_upper_threshold reg w platform db
pick_group reg w platform (first ∷ rest) db = do
  c ← reg.get_one_currency first.currency
  hot_wallet ←
      find_sufficient_hot_wallet w first.wallet_id c (total_of (first_picked c first rest)) db
  pick_from w c first rest hot_wallet db

-- `_pickerDoProcess`, for the platform of the picker's currency.
unfoldable pub picker_do_process : Registry → World → String → Db → Outcome Db
picker_do_process reg w platform db =
    pick_group reg w platform (get_next_picked_withdrawals reg w platform db) db
