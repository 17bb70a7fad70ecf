-- ===== src/Currencies/Listeners.antt =====
-- Who is told of which token.
use drx_wallet.Base.{inl, inr, List, [], ◌∷◌, String, Bool-cases}
use drx_wallet.Base.Text.{to_lower, join_dot}
use drx_wallet.Base.Dict.{map_has}
use drx_wallet.Schema.{Currency}
use drx_wallet.Currencies.{
  State, empty, native_currencies, register_each, register_currency, add_token, token_of,
  omni_asset, erc20_token, bep20_token, trc20_token, eos_token, register_omni_asset,
  register_erc20_token, register_bep20_token, register_trc20_token, register_eos_token,
  remove_token, unregister_currency, unregister_erc20_token, unregister_bep20_token,
}
use drx_wallet.Currencies.Callbacks.{
  on_erc20_token_registered, on_bep20_token_registered, on_trc20_token_registered,
  on_omni_asset_registered, on_eos_token_registered, on_currency_registered,
  on_specific_currency_registered, on_currency_config_set, set_currency_config,
}
use drx_wallet.Currencies.Reached.{Reached}
use drx_wallet.Currencies.Told.{
  AllTold, add_token-IsTold, listen-IsTold, listeners-remove, Told-erc20, Told-bep20, Told-trc20,
  Told-omni, Told-eos_tokens,
}

register_currency-AllTold :
    (c : Currency) (st : State) → AllTold st → AllTold (register_currency c st).0
unfolding register_currency
register_currency-AllTold c st k = elim (Bool-cases (map_has (to_lower c.symbol) st.currencies)) [
  | inl old ↦ rw old k
  | inr new ↦ rw new k
]

unregister_currency-AllTold :
    (name : String) (st : State) → AllTold st → AllTold (unregister_currency name st).0
unfolding unregister_currency
unregister_currency-AllTold name st k = elim (Bool-cases (map_has name st.currencies)) [
  | inl old ↦ rw old k
  | inr new ↦ rw new k
]

register_each-AllTold :
    (cs : List Currency) (st : State) → AllTold st → AllTold (register_each cs st)
register_each-AllTold [] st k = k
register_each-AllTold (c ∷ cs) st k =
    register_each-AllTold cs (register_currency c st).0 (register_currency-AllTold c st k)

on_specific-AllTold :
    (c : Currency) (st : State) → AllTold st → AllTold (on_specific_currency_registered c st).0
unfolding on_specific_currency_registered
on_specific-AllTold c st k = elim (Bool-cases (map_has (to_lower c.symbol) st.currencies)) [
  | inl old ↦ rw old k
  | inr new ↦ rw new k
]

-- In each state that calls of the registry lead to, each callback for a kind of token was called with
-- every token of that kind that is in the list, whether the token or the callback came first.
pub Reached-AllTold : {st : State} → Reached st → AllTold st
unfolding register_omni_asset register_erc20_token register_bep20_token register_trc20_token
    register_eos_token unregister_erc20_token unregister_bep20_token token_of
    on_erc20_token_registered on_bep20_token_registered on_trc20_token_registered
    on_omni_asset_registered on_eos_token_registered on_currency_registered on_currency_config_set
    set_currency_config
Reached-AllTold Reached.start =
    register_each-AllTold native_currencies empty
      (record { erc20 = tt; bep20 = tt; trc20 = tt; omni = tt; eos_tokens = tt })
Reached-AllTold (Reached.currency {st} c path) =
    register_currency-AllTold c st (Reached-AllTold path)
Reached-AllTold (Reached.omni {st} id name n path) =
    let k = Reached-AllTold path in
    let t = omni_asset id name n in
    register_currency-AllTold t.currency (record st { omni = add_token t st.omni })
      (record {
        erc20 = k.erc20;
        bep20 = k.bep20;
        trc20 = k.trc20;
        omni = add_token-IsTold t st.omni k.omni;
        eos_tokens = k.eos_tokens;
      })
Reached-AllTold (Reached.erc20 {st} id name n path) =
    let k = Reached-AllTold path in
    let t = erc20_token id name n in
    register_currency-AllTold t.currency (record st { erc20 = add_token t st.erc20 })
      (Told-erc20 (add_token-IsTold t st.erc20 k.erc20) k)
Reached-AllTold (Reached.bep20 {st} id name n path) =
    let k = Reached-AllTold path in
    let t = bep20_token id name n in
    register_currency-AllTold t.currency (record st { bep20 = add_token t st.bep20 })
      (Told-bep20 (add_token-IsTold t st.bep20 k.bep20) k)
Reached-AllTold (Reached.trc20 {st} id name n path) =
    let k = Reached-AllTold path in
    let t = trc20_token id name n in
    register_currency-AllTold t.currency (record st { trc20 = add_token t st.trc20 })
      (Told-trc20 (add_token-IsTold t st.trc20 k.trc20) k)
Reached-AllTold (Reached.eos {st} id name n path) =
    let k = Reached-AllTold path in
    let t = eos_token id name n in
    register_currency-AllTold t.currency (record st { eos_tokens = add_token t st.eos_tokens })
      (Told-eos_tokens (add_token-IsTold t st.eos_tokens k.eos_tokens) k)
Reached-AllTold (Reached.no_erc20 {st} contract path) =
    let k = Reached-AllTold path in
    unregister_currency-AllTold (join_dot "erc20" contract)
      (record st { erc20 = record st.erc20 { tokens = remove_token contract st.erc20.tokens } })
      (Told-erc20 (listeners-remove contract st.erc20.tokens st.erc20.listeners k.erc20) k)
Reached-AllTold (Reached.no_bep20 {st} contract path) =
    let k = Reached-AllTold path in
    unregister_currency-AllTold (join_dot "erc20" contract)
      (record st { bep20 = record st.bep20 { tokens = remove_token contract st.bep20.tokens } })
      (Told-bep20 (listeners-remove contract st.bep20.tokens st.bep20.listeners k.bep20) k)
Reached-AllTold (Reached.on_erc20 {st} path) =
    let k = Reached-AllTold path in Told-erc20 (listen-IsTold st.erc20 k.erc20) k
Reached-AllTold (Reached.on_bep20 {st} path) =
    let k = Reached-AllTold path in Told-bep20 (listen-IsTold st.bep20 k.bep20) k
Reached-AllTold (Reached.on_trc20 {st} path) =
    let k = Reached-AllTold path in Told-trc20 (listen-IsTold st.trc20 k.trc20) k
Reached-AllTold (Reached.on_omni {st} path) =
    let k = Reached-AllTold path in Told-omni (listen-IsTold st.omni k.omni) k
Reached-AllTold (Reached.on_eos {st} path) =
    let k = Reached-AllTold path in Told-eos_tokens (listen-IsTold st.eos_tokens k.eos_tokens) k
Reached-AllTold (Reached.on_currency path) = Reached-AllTold path
Reached-AllTold (Reached.on_config path) = Reached-AllTold path
Reached-AllTold (Reached.config c fields path) = Reached-AllTold path
Reached-AllTold (Reached.on_specific {st} c path) = on_specific-AllTold c st (Reached-AllTold path)
