-- ===== src/Currencies/Reached.antt =====
-- The states of the registry that its calls lead to.
use drx_wallet.Base.{ℕ, String}
use drx_wallet.Schema.{Currency}
use drx_wallet.Currencies.Callbacks.{
  on_erc20_token_registered, on_bep20_token_registered, on_trc20_token_registered,
  on_omni_asset_registered, on_eos_token_registered, on_currency_registered,
  on_specific_currency_registered, on_currency_config_set, set_currency_config,
}
use drx_wallet.Currencies.{
  Config, State, empty, native_currencies, register_each, register_currency, register_omni_asset,
  register_erc20_token, register_bep20_token, register_trc20_token, register_eos_token,
  unregister_erc20_token, unregister_bep20_token,
}

-- The states that the calls of the registry lead to.
pub data Reached : State → Type 0 where
  start : Reached (register_each native_currencies empty)
  currency : {st : State} (c : Currency) → Reached st → Reached (register_currency c st).0
  omni :
      {st : State} (id symbol : String) (scale : ℕ)
      → Reached st
      → Reached (register_omni_asset id symbol scale st).0
  erc20 :
      {st : State} (contract symbol : String) (decimals : ℕ)
      → Reached st
      → Reached (register_erc20_token contract symbol decimals st).0
  bep20 :
      {st : State} (contract symbol : String) (decimals : ℕ)
      → Reached st
      → Reached (register_bep20_token contract symbol decimals st).0
  trc20 :
      {st : State} (contract symbol : String) (decimals : ℕ)
      → Reached st
      → Reached (register_trc20_token contract symbol decimals st).0
  eos :
      {st : State} (code_ symbol : String) (scale : ℕ)
      → Reached st
      → Reached (register_eos_token code_ symbol scale st).0
  on_erc20 : {st : State} → Reached st → Reached (on_erc20_token_registered st)
  on_bep20 : {st : State} → Reached st → Reached (on_bep20_token_registered st)
  on_trc20 : {st : State} → Reached st → Reached (on_trc20_token_registered st)
  on_omni : {st : State} → Reached st → Reached (on_omni_asset_registered st)
  on_eos : {st : State} → Reached st → Reached (on_eos_token_registered st)
  on_currency : {st : State} → Reached st → Reached (on_currency_registered st)
  on_specific :
      {st : State} (c : Currency) → Reached st → Reached (on_specific_currency_registered c st).0
  on_config : {st : State} → Reached st → Reached (on_currency_config_set st)
  config :
      {st : State} (c : Currency) (fields : Config)
      → Reached st
      → Reached (set_currency_config c fields st)
  no_erc20 :
      {st : State} (contract : String) → Reached st → Reached (unregister_erc20_token contract st)
  no_bep20 :
      {st : State} (contract : String) → Reached st → Reached (unregister_bep20_token contract st)
