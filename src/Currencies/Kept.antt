-- ===== src/Currencies/Kept.antt =====
-- What holds in each state of the registry that calls lead to.
use drx_wallet.Base.{
  insert_row, ◌≡◌, refl, inl, inr, List, [], ◌∷◌, String, str_eq, Bool-cases, All,
}
use drx_wallet.Base.Text.{to_lower, join_dot, prefix_of}
use drx_wallet.Base.Dict.{map_has, All-map_set, All-map_delete}
use drx_wallet.Schema.{Currency}
use drx_wallet.Currencies.Callbacks.{
  on_erc20_token_registered, on_bep20_token_registered, on_trc20_token_registered,
  on_omni_asset_registered, on_eos_token_registered, on_currency_registered,
  on_specific_currency_registered, on_currency_config_set, set_currency_config,
}
use drx_wallet.Currencies.{
  Token, State, empty, native_currencies, register_each, register_currency, add_token, token_of,
  omni_asset, erc20_token, bep20_token, trc20_token, eos_token, register_omni_asset,
  register_erc20_token, register_bep20_token, register_trc20_token, register_eos_token,
  remove_token, unregister_currency, unregister_erc20_token, unregister_bep20_token,
}
use drx_wallet.Currencies.Reached.{Reached}

-- The symbol of a token.
abbrev pub symbol : Token → String
symbol t = t.currency.symbol

abbrev pub HasKind : String → Token → Type 0
HasKind kind t = prefix_of (symbol t) ≡ kind

abbrev pub IsOfContract : Token → Type 0
IsOfContract t = symbol t ≡ join_dot "erc20" t.contract

abbrev pub IsKeyed : String × Currency → Type 0
IsKeyed (key, c) = key ≡ to_lower c.symbol

-- What the calls keep.
pub record Kept (cs : List (String × Currency)) (a b c d e : List Token) : Type 0 where
  pub keyed : All IsKeyed cs
  pub erc20 : All IsOfContract a
  pub bep20 : All IsOfContract b
  pub trc20 : All (HasKind "trc20") c
  pub omni : All (HasKind "omni") d
  pub eos : All (HasKind "eos") e

abbrev pub IsKept : State → Type 0
IsKept st =
    Kept st.currencies st.erc20.tokens st.bep20.tokens st.trc20.tokens st.omni.tokens
      st.eos_tokens.tokens

module _ {cs : List (String × Currency)} {a b c d e : List Token} where
  Kept-keyed :
      {xs : List (String × Currency)} → All IsKeyed xs → Kept cs a b c d e → Kept xs a b c d e
  Kept-keyed now_ k = record {
    keyed = now_;
    erc20 = k.erc20;
    bep20 = k.bep20;
    trc20 = k.trc20;
    omni = k.omni;
    eos = k.eos;
  }

  Kept-erc20 : {xs : List Token} → All IsOfContract xs → Kept cs a b c d e → Kept cs xs b c d e
  Kept-erc20 now_ k = record {
    keyed = k.keyed;
    erc20 = now_;
    bep20 = k.bep20;
    trc20 = k.trc20;
    omni = k.omni;
    eos = k.eos;
  }

  Kept-bep20 : {xs : List Token} → All IsOfContract xs → Kept cs a b c d e → Kept cs a xs c d e
  Kept-bep20 now_ k = record {
    keyed = k.keyed;
    erc20 = k.erc20;
    bep20 = now_;
    trc20 = k.trc20;
    omni = k.omni;
    eos = k.eos;
  }

  Kept-trc20 : {xs : List Token} → All (HasKind "trc20") xs → Kept cs a b c d e → Kept cs a b xs d e
  Kept-trc20 now_ k = record {
    keyed = k.keyed;
    erc20 = k.erc20;
    bep20 = k.bep20;
    trc20 = now_;
    omni = k.omni;
    eos = k.eos;
  }

  Kept-omni : {xs : List Token} → All (HasKind "omni") xs → Kept cs a b c d e → Kept cs a b c xs e
  Kept-omni now_ k = record {
    keyed = k.keyed;
    erc20 = k.erc20;
    bep20 = k.bep20;
    trc20 = k.trc20;
    omni = now_;
    eos = k.eos;
  }

  Kept-eos : {xs : List Token} → All (HasKind "eos") xs → Kept cs a b c d e → Kept cs a b c d xs
  Kept-eos now_ k = record {
    keyed = k.keyed;
    erc20 = k.erc20;
    bep20 = k.bep20;
    trc20 = k.trc20;
    omni = k.omni;
    eos = now_;
  }

All-insert_row :
    {A : Type 0} (P : A → Type 0) (a : A) (xs : List A) → P a → All P xs → All P (insert_row a xs)
All-insert_row P a [] p h = (p, tt)
All-insert_row P a (x ∷ xs) p h = (h.0, All-insert_row P a xs p h.1)

All-remove_token :
    (P : Token → Type 0) (contract : String) (ts : List Token)
    → All P ts
    → All P (remove_token contract ts)
All-remove_token P contract [] h = tt
All-remove_token P contract (t ∷ ts) h =
    elim (Bool-cases (str_eq (to_lower t.contract) (to_lower contract))) [
      | inl same ↦ rw same h.1
      | inr other ↦ rw other (h.0, All-remove_token P contract ts h.1)
    ]

register_currency-IsKept :
    (c : Currency) (st : State) → IsKept st → IsKept (register_currency c st).0
unfolding register_currency
register_currency-IsKept c st k = elim (Bool-cases (map_has (to_lower c.symbol) st.currencies)) [
  | inl old ↦ rw old k
  | inr new ↦
      rw new (Kept-keyed (All-map_set IsKeyed (to_lower c.symbol) c st.currencies refl k.keyed) k)
]

unregister_currency-IsKept :
    (name : String) (st : State) → IsKept st → IsKept (unregister_currency name st).0
unfolding unregister_currency
unregister_currency-IsKept name st k = elim (Bool-cases (map_has name st.currencies)) [
  | inl old ↦ rw old (Kept-keyed (All-map_delete IsKeyed name st.currencies k.keyed) k)
  | inr new ↦ rw new k
]

register_each-IsKept : (cs : List Currency) (st : State) → IsKept st → IsKept (register_each cs st)
register_each-IsKept [] st k = k
register_each-IsKept (c ∷ cs) st k =
    register_each-IsKept cs (register_currency c st).0 (register_currency-IsKept c st k)

on_specific-IsKept :
    (c : Currency) (st : State) → IsKept st → IsKept (on_specific_currency_registered c st).0
unfolding on_specific_currency_registered
on_specific-IsKept c st k = elim (Bool-cases (map_has (to_lower c.symbol) st.currencies)) [
  | inl old ↦ rw old k
  | inr new ↦ rw new k
]

-- Each call keeps the invariant.
pub Reached-IsKept : {st : State} → Reached st → IsKept st
unfolding register_omni_asset register_erc20_token register_bep20_token register_trc20_token
    register_eos_token unregister_erc20_token unregister_bep20_token token_of prefix_of join_dot
    on_erc20_token_registered on_bep20_token_registered on_trc20_token_registered
    on_omni_asset_registered on_eos_token_registered on_currency_registered on_currency_config_set
    set_currency_config
Reached-IsKept Reached.start =
    register_each-IsKept native_currencies empty
      (record { keyed = tt; erc20 = tt; bep20 = tt; trc20 = tt; omni = tt; eos = tt })
Reached-IsKept (Reached.currency {st} c path) = register_currency-IsKept c st (Reached-IsKept path)
Reached-IsKept (Reached.omni {st} id name n path) =
    let k = Reached-IsKept path in
    register_currency-IsKept (omni_asset id name n).currency
      (record st { omni = add_token (omni_asset id name n) st.omni })
      (Kept-omni (All-insert_row (HasKind "omni") (omni_asset id name n) st.omni.tokens refl k.omni)
        k)
Reached-IsKept (Reached.erc20 {st} id name n path) =
    let k = Reached-IsKept path in
    register_currency-IsKept (erc20_token id name n).currency
      (record st { erc20 = add_token (erc20_token id name n) st.erc20 })
      (Kept-erc20 (All-insert_row IsOfContract (erc20_token id name n) st.erc20.tokens refl k.erc20)
        k)
Reached-IsKept (Reached.bep20 {st} id name n path) =
    let k = Reached-IsKept path in
    register_currency-IsKept (bep20_token id name n).currency
      (record st { bep20 = add_token (bep20_token id name n) st.bep20 })
      (Kept-bep20 (All-insert_row IsOfContract (bep20_token id name n) st.bep20.tokens refl k.bep20)
        k)
Reached-IsKept (Reached.trc20 {st} id name n path) =
    let k = Reached-IsKept path in
    register_currency-IsKept (trc20_token id name n).currency
      (record st { trc20 = add_token (trc20_token id name n) st.trc20 })
      (Kept-trc20
        (All-insert_row (HasKind "trc20") (trc20_token id name n) st.trc20.tokens refl k.trc20) k)
Reached-IsKept (Reached.eos {st} id name n path) =
    let k = Reached-IsKept path in
    register_currency-IsKept (eos_token id name n).currency
      (record st { eos_tokens = add_token (eos_token id name n) st.eos_tokens })
      (Kept-eos
        (All-insert_row (HasKind "eos") (eos_token id name n) st.eos_tokens.tokens refl k.eos) k)
Reached-IsKept (Reached.no_erc20 {st} contract path) =
    let k = Reached-IsKept path in
    unregister_currency-IsKept (join_dot "erc20" contract)
      (record st { erc20 = record st.erc20 { tokens = remove_token contract st.erc20.tokens } })
      (Kept-erc20 (All-remove_token IsOfContract contract st.erc20.tokens k.erc20) k)
Reached-IsKept (Reached.no_bep20 {st} contract path) =
    let k = Reached-IsKept path in
    unregister_currency-IsKept (join_dot "erc20" contract)
      (record st { bep20 = record st.bep20 { tokens = remove_token contract st.bep20.tokens } })
      (Kept-bep20 (All-remove_token IsOfContract contract st.bep20.tokens k.bep20) k)
Reached-IsKept (Reached.on_erc20 path) = Reached-IsKept path
Reached-IsKept (Reached.on_bep20 path) = Reached-IsKept path
Reached-IsKept (Reached.on_trc20 path) = Reached-IsKept path
Reached-IsKept (Reached.on_omni path) = Reached-IsKept path
Reached-IsKept (Reached.on_eos path) = Reached-IsKept path
Reached-IsKept (Reached.on_currency path) = Reached-IsKept path
Reached-IsKept (Reached.on_config path) = Reached-IsKept path
Reached-IsKept (Reached.config c fields path) = Reached-IsKept path
Reached-IsKept (Reached.on_specific {st} c path) = on_specific-IsKept c st (Reached-IsKept path)
