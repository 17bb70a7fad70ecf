-- ===== src/Currencies/Platforms.antt =====
-- The two laws that the workers rely on, for the registry of the code.
use drx_wallet.Base.{◌≡◌, sym, ◌∙◌, String, All}
use drx_wallet.Base.Text.{to_lower}
use drx_wallet.Schema.{Currency, IsDisjoint}
use drx_wallet.Currencies.{Token, State, registry_of}
use drx_wallet.Currencies.Reached.{Reached}
use drx_wallet.Currencies.Kept.{symbol, Reached-IsKept}
use drx_wallet.Currencies.Homes.{on_platform-each, LivesAt, HasSeparateContracts, cases_home}

-- In each state that calls of the registry lead to, no symbol is on two platforms, if no contract is
-- registered for Ethereum and for BSC.
pub registry_of-IsDisjoint :
    (st : State) → Reached st → HasSeparateContracts st → IsDisjoint (registry_of st)
registry_of-IsDisjoint st path apart = record {
  one_platform = λ p q name h e.
      let there = on_platform-each st (LivesAt st) (cases_home st (Reached-IsKept path) apart) in
      sym (there p name h) ∙ there q name e;
}

abbrev IsLower : String → Type 0
IsLower name = to_lower name ≡ name

abbrev HasLowerSymbol : Token → Type 0
HasLowerSymbol t = IsLower (symbol t)

-- The symbols of the registered currencies and of the tokens are lower case.
pub record HasLowerSymbols (st : State) : Type 0 where
  pub currencies : All (λ (e : String × Currency). IsLower e.1.symbol) st.currencies
  pub erc20 : All HasLowerSymbol st.erc20.tokens
  pub bep20 : All HasLowerSymbol st.bep20.tokens
  pub trc20 : All HasLowerSymbol st.trc20.tokens
  pub omni : All HasLowerSymbol st.omni.tokens
  pub eos : All HasLowerSymbol st.eos_tokens.tokens
