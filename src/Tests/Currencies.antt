-- ===== src/Tests/Currencies.antt =====
-- A registry with a token of Ethereum, registered and taken back.
use drx_wallet.Base.{◌≡◌, ◌≢◌, refl, true, false, eq_iff}
use drx_wallet.Base.Outcome.{ok, err, Error}
use drx_wallet.Base.Text.{to_lower, join_dot}
use drx_wallet.Base.Dict.{map_has}
use drx_wallet.Schema.{IsDisjoint, on_platform}
use drx_wallet.Currencies.{
  State, empty, native_currencies, register_each, register_currency, erc20_token,
  register_erc20_token, remove_token, unregister_erc20_token, get_one_currency, registry_of,
  get_currencies_of_platform,
}
use drx_wallet.Currencies.Callbacks.{on_erc20_token_registered}
use drx_wallet.Currencies.Reached.{Reached}
use drx_wallet.Currencies.Platforms.{registry_of-IsDisjoint}
use drx_wallet.Currencies.Tokens.{
  unregister_erc20_token-register_erc20_token, unregister_mixed_case,
}
use drx_wallet.Currencies.Told.{AllTold}
use drx_wallet.Currencies.Listeners.{Reached-AllTold}

unfoldable started : State
unfolding register_currency
started = register_each native_currencies empty

unfoldable token_state : State
unfolding started register_erc20_token on_erc20_token_registered
token_state = (register_erc20_token "0xab" "tok" 18 (on_erc20_token_registered started)).0

token_state-Reached : Reached token_state
unfolding token_state
token_state-Reached = Reached.erc20 "0xab" "tok" 18 (Reached.on_erc20 Reached.start)

found_in_any_case :
    get_one_currency "ERC20.0xAB" token_state ≡ ok (erc20_token "0xab" "tok" 18).currency
unfolding get_one_currency token_state
found_in_any_case = refl

on_ethereum : on_platform (registry_of token_state) "eth" "erc20.0xab" ≡ true
unfolding token_state get_currencies_of_platform
on_ethereum = refl

no_neo : get_currencies_of_platform "neo" started ≡ err Error.unknown_platform
unfolding get_currencies_of_platform
no_neo = refl

registry_of-IsDisjoint_example : IsDisjoint (registry_of token_state)
unfolding token_state
registry_of-IsDisjoint_example =
    registry_of-IsDisjoint token_state token_state-Reached (λ t u m n. elim n [ ])

token_is_new : map_has (join_dot "erc20" "0xab") started.currencies ≡ false
unfolding started join_dot
token_is_new = refl

unregister_erc20_token-register_erc20_token_example :
    ((unregister_erc20_token "0xab" (register_erc20_token "0xab" "tok" 18 started).0).currencies
      ≡ started.currencies)
    × ((unregister_erc20_token "0xab" (register_erc20_token "0xab" "tok" 18 started).0).erc20.tokens
        ≡ started.erc20.tokens)
unfolding to_lower started
unregister_erc20_token-register_erc20_token_example =
    unregister_erc20_token-register_erc20_token "0xab" "tok" 18 started refl token_is_new tt

unfoldable mixed_state : State
unfolding started register_erc20_token
mixed_state = (register_erc20_token "0xAb" "tok" 18 started).0

mixed_state-Reached : Reached mixed_state
unfolding mixed_state
mixed_state-Reached = Reached.erc20 "0xAb" "tok" 18 Reached.start

mixed : to_lower "0xAb" ≢ "0xAb"
unfolding to_lower
mixed h = cc ((eq_iff (to_lower "0xAb") "0xAb").1 h)

unregister_mixed_case_example :
    ((unregister_erc20_token "0xAb" mixed_state).currencies ≡ mixed_state.currencies)
    × ((unregister_erc20_token "0xAb" mixed_state).erc20.tokens
        ≡ remove_token "0xAb" mixed_state.erc20.tokens)
unregister_mixed_case_example = unregister_mixed_case "0xAb" mixed_state mixed_state-Reached mixed

Reached-AllTold_example : AllTold token_state
Reached-AllTold_example = Reached-AllTold token_state-Reached
