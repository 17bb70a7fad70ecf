-- ===== src/Currencies/Callbacks.antt =====
-- The callbacks and the configurations of the registry.
use drx_wallet.Base.{
  Bool, true, false, Option, none, some, List, [], ◌∷◌, map, ℕ, insert_row, if◌then◌else◌,
}
use drx_wallet.Base.Outcome.{Outcome, Error, or_throw}
use drx_wallet.Base.Text.{to_lower}
use drx_wallet.Base.Dict.{map_get, map_has, map_set}
use drx_wallet.Schema.{Currency}
use drx_wallet.Currencies.{Family, State, Config}

-- A new callback is called at once with each token that is there.
abbrev pub listen : Family → Family
listen f = record f { listeners = insert_row f.tokens f.listeners }

-- `onERC20TokenRegistered`
unfoldable pub on_erc20_token_registered : State → State
on_erc20_token_registered st = record st { erc20 = listen st.erc20 }

-- `onBep20TokenRegistered`
unfoldable pub on_bep20_token_registered : State → State
on_bep20_token_registered st = record st { bep20 = listen st.bep20 }

-- `onTRC20TokenRegistered`
unfoldable pub on_trc20_token_registered : State → State
on_trc20_token_registered st = record st { trc20 = listen st.trc20 }

-- `onOmniAssetRegistered`
unfoldable pub on_omni_asset_registered : State → State
on_omni_asset_registered st = record st { omni = listen st.omni }

-- `onEOSTokenRegistered`
unfoldable pub on_eos_token_registered : State → State
on_eos_token_registered st = record st { eos_tokens = listen st.eos_tokens }

-- `onCurrencyRegistered`: this callback is not called for the currencies that are there.
unfoldable pub on_currency_registered : State → State
on_currency_registered st = record st { currency_listeners = insert_row [] st.currency_listeners }

abbrev counts_of : Option (List ℕ) → List ℕ
counts_of none = []
counts_of (some counts) = counts

-- `onSpecificCurrencyRegistered`: whether the callback is called at once; it is not kept then.
unfoldable pub on_specific_currency_registered : Currency → State → State × Bool
unfolding to_lower
on_specific_currency_registered c st =
    if map_has (to_lower c.symbol) st.currencies then (st, true) else (
      record st {
        specific_listeners =
            map_set (to_lower c.symbol)
              (insert_row 0 (counts_of (map_get (to_lower c.symbol) st.specific_listeners)))
              st.specific_listeners;
      },
      false,
    )

-- `onCurrencyConfigSet`
unfoldable pub on_currency_config_set : State → State
on_currency_config_set st = record st { config_listeners = insert_row [] st.config_listeners }

-- `Object.assign(target, source)`
abbrev pub assign : Config → Config → Config
assign target [] = target
assign target ((field, value) ∷ source) = assign (map_set field value target) source

-- The merged configuration: what was set before, with the new fields over it.
abbrev pub merged_config : Option Config → Config → Config
merged_config none config = assign [] config
merged_config (some old_config) config = assign (assign [] old_config) config

-- `setCurrencyConfig`
unfoldable pub set_currency_config : Currency → Config → State → State
unfolding to_lower
set_currency_config c config st =
    let symbol = to_lower c.symbol in
    record st {
      configs = map_set symbol (merged_config (map_get symbol st.configs) config) st.configs;
      config_listeners = map (insert_row (c, config)) st.config_listeners;
    }

abbrev or_platform : Option Config → Option Config → Option Config
or_platform none platform_config = platform_config
or_platform (some config) platform_config = some config

-- `getCurrencyConfig`
unfoldable pub get_currency_config : Currency → State → Outcome Config
unfolding to_lower
get_currency_config c st =
    or_throw Error.unknown_currency
      (or_platform (map_get (to_lower c.symbol) st.configs) (map_get c.platform st.configs))
