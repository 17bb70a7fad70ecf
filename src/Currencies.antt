-- ===== src/Currencies.antt =====
-- libs/sota-common/src/registries/CurrencyRegistry.ts: the registered currencies, the tokens of each
-- kind, the configurations, and who is told of them. A callback is the list of what it was called with;
-- callbacks do not call the registry themselves.
mod Natives
mod States
pub mod Callbacks
pub mod Reached
pub mod Kept
pub mod Told
pub mod Homes
pub mod Platforms
pub mod Tokens
pub mod Listeners
pub mod Configs
pub use Natives.*
pub use States.*
use drx_wallet.Base.{
  ℕ, suc, Bool, true, false, Option, none, some, List, [], ◌∷◌, map, String, str_eq, if◌then◌else◌,
  insert_row,
}
use drx_wallet.Base.Outcome.{Outcome, ok, err, Error, or_throw}
use drx_wallet.Base.Text.{to_lower, join_dot}
use drx_wallet.Base.Dict.{map_get, map_has, map_set, map_delete}
use drx_wallet.Schema.{Currency, Registry, contains_text}

-- The callbacks of one currency are counted: each is called once more.
abbrev pub call_specific :
    Option (List ℕ) → String → List (String × List ℕ) → List (String × List ℕ)
call_specific none symbol listeners = listeners
call_specific (some counts) symbol listeners = map_set symbol (map (λ n. suc n) counts) listeners

abbrev pub add_currency : Currency → State → State
add_currency c st =
    let symbol = to_lower c.symbol in
    record st {
      currencies = map_set symbol c st.currencies;
      currency_listeners = map (insert_row c) st.currency_listeners;
      specific_listeners =
          call_specific (map_get symbol st.specific_listeners) symbol st.specific_listeners;
    }

-- `registerCurrency`
unfoldable pub register_currency : Currency → State → State × Bool
unfolding to_lower
register_currency c st =
    if map_has (to_lower c.symbol) st.currencies then (st, false) else (add_currency c st, true)

abbrev pub add_token : Token → Family → Family
add_token t f = record {
  tokens = insert_row t f.tokens;
  listeners = map (insert_row t) f.listeners;
}

-- A token of a kind; its name is left out.
unfoldable pub token_of : String → String → String → String → ℕ → ℕ → String → Token
unfolding join_dot
token_of prefix id platform network_symbol human_readable_scale native_scale contract = record {
  currency = record {
    symbol = join_dot prefix id;
    network_symbol = network_symbol;
    platform = platform;
    is_utxo_based = false;
    is_native = false;
    human_readable_scale = human_readable_scale;
    native_scale = native_scale;
  };
  contract = contract;
}

abbrev pub omni_asset : String → String → ℕ → Token
omni_asset property_id network_symbol scale =
    token_of "omni" property_id "btc" network_symbol 0 scale property_id

abbrev pub erc20_token : String → String → ℕ → Token
erc20_token contract network_symbol decimals =
    token_of "erc20" contract "eth" network_symbol decimals 0 contract

-- A token of BSC has the same prefix as one of Ethereum.
abbrev pub bep20_token : String → String → ℕ → Token
bep20_token contract network_symbol decimals =
    token_of "erc20" contract "bnb" network_symbol decimals 0 contract

abbrev pub trc20_token : String → String → ℕ → Token
trc20_token contract network_symbol decimals =
    token_of "trc20" contract "tomo" network_symbol decimals 0 contract

abbrev pub eos_token : String → String → ℕ → Token
eos_token code_ network_symbol scale =
    token_of "eos" network_symbol "eos" network_symbol 0 scale code_

-- `registerOmniAsset`
unfoldable pub register_omni_asset : String → String → ℕ → State → State × Bool
unfolding token_of register_currency
register_omni_asset property_id network_symbol scale st =
    let t = omni_asset property_id network_symbol scale in
    register_currency t.currency (record st { omni = add_token t st.omni })

-- `registerErc20Token`
unfoldable pub register_erc20_token : String → String → ℕ → State → State × Bool
unfolding token_of register_currency
register_erc20_token contract network_symbol decimals st =
    let t = erc20_token contract network_symbol decimals in
    register_currency t.currency (record st { erc20 = add_token t st.erc20 })

-- `registerBEP20Token`
unfoldable pub register_bep20_token : String → String → ℕ → State → State × Bool
unfolding token_of register_currency
register_bep20_token contract network_symbol decimals st =
    let t = bep20_token contract network_symbol decimals in
    register_currency t.currency (record st { bep20 = add_token t st.bep20 })

-- `registerTrc20Token`
unfoldable pub register_trc20_token : String → String → ℕ → State → State × Bool
unfolding token_of register_currency
register_trc20_token contract network_symbol decimals st =
    let t = trc20_token contract network_symbol decimals in
    register_currency t.currency (record st { trc20 = add_token t st.trc20 })

-- `registerEosToken`
unfoldable pub register_eos_token : String → String → ℕ → State → State × Bool
unfolding token_of register_currency
register_eos_token code_ network_symbol scale st =
    let t = eos_token code_ network_symbol scale in
    register_currency t.currency (record st { eos_tokens = add_token t st.eos_tokens })

-- The loop that splices the first token of the contract out.
abbrev pub remove_token : String → List Token → List Token
remove_token contract [] = []
remove_token contract (t ∷ ts) =
    if str_eq (to_lower t.contract) (to_lower contract) then ts else t ∷ remove_token contract ts

-- `unregisterCurrency`, with the symbol as it is given.
unfoldable pub unregister_currency : String → State → State × Bool
unregister_currency symbol st =
    if map_has symbol st.currencies
    then (record st { currencies = map_delete symbol st.currencies }, true)
    else (st, false)

-- `unregisterErc20Token`
unfoldable pub unregister_erc20_token : String → State → State
unfolding unregister_currency join_dot to_lower
unregister_erc20_token contract st =
    let removed : Family = record st.erc20 { tokens = remove_token contract st.erc20.tokens } in
    (unregister_currency (join_dot "erc20" contract) (record st { erc20 = removed })).0

-- `unregisterBep20Token`
unfoldable pub unregister_bep20_token : String → State → State
unfolding unregister_currency join_dot to_lower
unregister_bep20_token contract st =
    let removed : Family = record st.bep20 { tokens = remove_token contract st.bep20.tokens } in
    (unregister_currency (join_dot "erc20" contract) (record st { bep20 = removed })).0

-- `getOneCurrency`
unfoldable pub get_one_currency : String → State → Outcome Currency
unfolding to_lower
get_one_currency symbol st =
    or_throw Error.unknown_currency (map_get (to_lower symbol) st.currencies)

-- `getOneErc20Token`
unfoldable pub get_one_erc20_token : String → State → Outcome Currency
unfolding get_one_currency join_dot
get_one_erc20_token contract st = get_one_currency (join_dot "erc20" contract) st

abbrev currency_of : Token → Currency
currency_of t = t.currency

abbrev pub currencies_of : Family → List Currency
currencies_of f = map currency_of f.tokens

-- The cases of the switch of `getCurrenciesOfPlatform`. There is none for bsv, neo and trx, and the
-- one for eos does not list the native asset.
unfoldable pub platform_cases : State → List (String × List Currency)
platform_cases st =
    ("btc", bitcoin ∷ currencies_of st.omni)
    ∷ ("eth", ethereum ∷ currencies_of st.erc20)
    ∷ ("bnb", bsc ∷ currencies_of st.bep20)
    ∷ ("tomo", tomo ∷ currencies_of st.trc20)
    ∷ ("eos", currencies_of st.eos_tokens)
    ∷ ("bch", bitcoin_cash ∷ [])
    ∷ ("ltc", litecoin ∷ [])
    ∷ ("dash", dash ∷ [])
    ∷ ("etc", ethereum_classic ∷ [])
    ∷ ("ada", cardano ∷ [])
    ∷ ("xrp", ripple ∷ [])
    ∷ ("xlm", stellar ∷ [])
    ∷ ("nem", nem ∷ [])
    ∷ []

-- `getCurrenciesOfPlatform`
unfoldable pub get_currencies_of_platform : String → State → Outcome (List Currency)
unfolding platform_cases
get_currencies_of_platform platform st =
    or_throw Error.unknown_platform (map_get platform (platform_cases st))

-- `hasOneNativeCurrency`
unfoldable pub has_one_native_currency : String → Bool
has_one_native_currency symbol =
    contains_text symbol (map (λ (c : Currency). c.symbol) native_currencies)

abbrev pub register_each : List Currency → State → State
register_each [] st = st
register_each (c ∷ cs) st = register_each cs (register_currency c st).0

-- What the workers ask the registry. A platform for which the switch throws has no worker.
abbrev pub or_none : Outcome (List Currency) → List Currency
or_none (ok cs) = cs
or_none (err e) = []

abbrev pub registry_of : State → Registry
registry_of st = record {
  get_one_currency = λ symbol. get_one_currency symbol st;
  get_currencies_of_platform = λ platform. or_none (get_currencies_of_platform platform st);
}
