-- ===== src/Currencies/Tokens.antt =====
-- Registering a token of Ethereum, and taking it back.
use drx_wallet.Base.{
  ℕ, ◌≡◌, ◌≢◌, refl, sym, ap, ◌∙◌, inl, inr, true, false, List, [], ◌∷◌, String, str_eq, eq_iff,
  insert_row, Bool-cases, All,
}
use text.Mathlib.TextPositions.{eq_refl}
use drx_wallet.Base.Text.{to_lower, to_lower_idem, join_dot, join_dot_cancel, to_lower-join_dot}
use drx_wallet.Base.Dict.{map_has, map_has-map_set, map_set, map_delete, map_delete-map_set}
use drx_wallet.Schema.{Currency}
use drx_wallet.Currencies.{
  Token, State, register_currency, add_currency, add_token, token_of, erc20_token,
  register_erc20_token, remove_token, unregister_currency, unregister_erc20_token,
}
use drx_wallet.Currencies.Reached.{Reached}
use drx_wallet.Currencies.Kept.{IsKeyed, Reached-IsKept}

-- No token of the list is of the contract, up to case.
abbrev pub IsNewContract : String → List Token → Type 0
IsNewContract contract ts =
    All (λ (t : Token). str_eq (to_lower t.contract) (to_lower contract) ≡ false) ts

remove_token-insert_row :
    (t : Token) (ts : List Token)
    → IsNewContract t.contract ts
    → remove_token t.contract (insert_row t ts) ≡ ts
remove_token-insert_row t [] h = rw (eq_refl (to_lower t.contract)) refl
remove_token-insert_row t (u ∷ us) h = rw h.0 (ap (λ r. u ∷ r) (remove_token-insert_row t us h.1))

new_currency :
    (c : Currency) (st : State)
    → map_has (to_lower c.symbol) st.currencies ≡ false
    → (register_currency c st).0 ≡ add_currency c st
unfolding register_currency
new_currency c st new_ = rw new_ refl

known_currency :
    (name : String) (st : State)
    → map_has name st.currencies ≡ true
    → (unregister_currency name st).0 ≡ (record st { currencies = map_delete name st.currencies })
unfolding unregister_currency
known_currency name st known = rw known refl

unknown_currency :
    (name : String) (st : State)
    → map_has name st.currencies ≡ false
    → (unregister_currency name st).0 ≡ st
unfolding unregister_currency
unknown_currency name st unknown = rw unknown refl

module _ (c : Currency) (name : String) (m : List (String × Currency))
    (e : to_lower c.symbol ≡ name) where
  set_known : map_has name (map_set (to_lower c.symbol) c m) ≡ true
  set_known = rw e (map_has-map_set name c m)

  set_gone : map_has name m ≡ false → map_delete name (map_set (to_lower c.symbol) c m) ≡ m
  set_gone h = rw e (map_delete-map_set name c m h)

-- A key in lower case is no symbol of a contract that is not.
no_mixed_key :
    (contract : String) (m : List (String × Currency))
    → to_lower contract ≢ contract
    → All IsKeyed m
    → map_has (join_dot "erc20" contract) m ≡ false
unfolding to_lower
no_mixed_key contract [] mixed h = refl
no_mixed_key contract ((key, c) ∷ m) mixed h =
    elim (Bool-cases (str_eq key (join_dot "erc20" contract))) [
      | inl t ↦
          let same : join_dot "erc20" contract ≡ to_lower c.symbol =
            sym ((eq_iff key (join_dot "erc20" contract)).0 t) ∙ h.0 in
          let lower : to_lower (join_dot "erc20" contract) ≡ join_dot "erc20" contract =
            ap to_lower same ∙ (to_lower_idem c.symbol ∙ sym same) in
          absurd (
            mixed (
              join_dot_cancel "erc20" (to_lower contract) contract
                (sym (to_lower-join_dot "erc20" contract) ∙ lower)))
      | inr n ↦ rw n (no_mixed_key contract m mixed h.1)
    ]

-- A token of Ethereum with a contract in lower case, whose symbol and contract are new, can be registered
-- and taken back: the registered currencies and the tokens of Ethereum are those from before.
pub unregister_erc20_token-register_erc20_token :
    (contract network_symbol : String) (decimals : ℕ) (st : State)
    → to_lower contract ≡ contract
    → map_has (join_dot "erc20" contract) st.currencies ≡ false
    → IsNewContract contract st.erc20.tokens
    → ((unregister_erc20_token contract
          (register_erc20_token contract network_symbol decimals st).0).currencies
        ≡ st.currencies)
      × ((unregister_erc20_token contract
            (register_erc20_token contract network_symbol decimals st).0).erc20.tokens
          ≡ st.erc20.tokens)
unfolding unregister_erc20_token register_erc20_token token_of
unregister_erc20_token-register_erc20_token contract network_symbol decimals st lower new_symbol
      new_contract =
    let t = erc20_token contract network_symbol decimals in
    let key : to_lower (join_dot "erc20" contract) ≡ join_dot "erc20" contract =
      to_lower-join_dot "erc20" contract ∙ ap (join_dot "erc20") lower in
    let before : State = record st { erc20 = add_token t st.erc20 } in
    let added : (register_currency t.currency before).0 ≡ add_currency t.currency before =
      new_currency t.currency before (rw key new_symbol) in
    let after : State = add_currency t.currency before in
    let removed : State = record after {
      erc20 = record after.erc20 { tokens = remove_token contract after.erc20.tokens };
    } in
    let known : map_has (join_dot "erc20" contract) removed.currencies ≡ true =
      set_known t.currency (join_dot "erc20" contract) st.currencies key in
    let gone = set_gone t.currency (join_dot "erc20" contract) st.currencies key new_symbol in
    let whole : unregister_erc20_token contract (register_currency t.currency before).0
        ≡ (record removed {
          currencies = map_delete (join_dot "erc20" contract) removed.currencies;
        }) =
      ap (unregister_erc20_token contract) added
      ∙ known_currency (join_dot "erc20" contract) removed known in
    (
      ap (λ (x : State). x.currencies) whole ∙ gone,
      ap (λ (x : State). x.erc20.tokens) whole
          ∙ remove_token-insert_row t st.erc20.tokens new_contract,
    )

-- In each state that calls of the registry lead to, taking back a token of Ethereum whose contract is not
-- written in lower case leaves every registered currency, the token's too, though the token leaves the list.
pub unregister_mixed_case :
    (contract : String) (st : State)
    → Reached st
    → to_lower contract ≢ contract
    → ((unregister_erc20_token contract st).currencies ≡ st.currencies)
      × ((unregister_erc20_token contract st).erc20.tokens ≡ remove_token contract st.erc20.tokens)
unfolding unregister_erc20_token
unregister_mixed_case contract st path mixed =
    let removed : State = record st {
      erc20 = record st.erc20 { tokens = remove_token contract st.erc20.tokens };
    } in
    let unknown = no_mixed_key contract st.currencies mixed (Reached-IsKept path).keyed in
    let whole = unknown_currency (join_dot "erc20" contract) removed unknown in
    (ap (λ (x : State). x.currencies) whole, ap (λ (x : State). x.erc20.tokens) whole)
