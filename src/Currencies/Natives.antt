-- ===== src/Currencies/Natives.antt =====
-- The built-in currencies of libs/sota-common/src/registries/CurrencyRegistry.ts. Their full names are
-- left out.
use drx_wallet.Base.{ℕ, Bool, true, false, List, [], ◌∷◌, String}
use drx_wallet.Schema.{Currency}

-- A currency that is the asset of its platform.
abbrev pub native_currency : String → String → Bool → ℕ → ℕ → Currency
native_currency symbol platform is_utxo_based human_readable_scale native_scale = record {
  symbol = symbol;
  network_symbol = symbol;
  platform = platform;
  is_utxo_based = is_utxo_based;
  is_native = true;
  human_readable_scale = human_readable_scale;
  native_scale = native_scale;
}

abbrev pub bitcoin : Currency
bitcoin = native_currency "btc" "btc" true 8 0

abbrev pub ethereum : Currency
ethereum = native_currency "eth" "eth" false 18 0

abbrev pub bsc : Currency
bsc = native_currency "bnb" "bnb" false 18 0

abbrev pub cardano : Currency
cardano = native_currency "ada" "ada" true 6 0

abbrev pub bitcoin_cash : Currency
bitcoin_cash = native_currency "bch" "bch" true 8 0

abbrev pub bitcoin_sv : Currency
bitcoin_sv = native_currency "bsv" "bsv" true 8 0

abbrev pub eos : Currency
eos = native_currency "eos" "eos" false 0 4

abbrev pub litecoin : Currency
litecoin = native_currency "ltc" "ltc" true 8 0

abbrev pub dash : Currency
dash = native_currency "dash" "dash" true 8 0

abbrev pub ethereum_classic : Currency
ethereum_classic = native_currency "etc" "etc" false 18 0

abbrev pub neo : Currency
neo = native_currency "neo" "neo" true 0 0

abbrev pub neo_gas : Currency
neo_gas = native_currency "gas" "neo" true 0 8

abbrev pub tomo : Currency
tomo = native_currency "tomo" "tomo" false 18 0

abbrev pub ripple : Currency
ripple = native_currency "xrp" "xrp" false 0 6

abbrev pub stellar : Currency
stellar = native_currency "xlm" "xlm" false 0 6

abbrev pub nem : Currency
nem = native_currency "nem" "nem" false 6 0

abbrev pub tron : Currency
tron = native_currency "trx" "trx" true 8 6

-- `nativeCurrencies`
abbrev pub native_currencies : List Currency
native_currencies =
    bitcoin ∷ ethereum ∷ cardano ∷ bitcoin_cash ∷ bitcoin_sv ∷ eos ∷ litecoin ∷ dash
    ∷ ethereum_classic ∷ neo ∷ neo_gas ∷ tomo ∷ ripple ∷ stellar ∷ nem ∷ tron ∷ bsc ∷ []
