-- ===== src/Currencies/Homes.antt =====
-- The platform on which the symbols of each kind of token stand.
use drx_wallet.Base.{
  ◌≡◌, ◌≢◌, refl, sym, ap, ◌∙◌, inl, inr, true, List, [], ◌∷◌, map, String, str_eq, eq_iff,
  if◌then◌else◌, Bool-cases, Option-cases, All, Has, arith, All-lookup,
}
use drx_wallet.Base.Text.{join_dot, join_dot_cancel, prefix_of}
use drx_wallet.Base.Dict.{map_get, All-map_get}
use drx_wallet.Schema.{Currency, contains_text, on_platform}
use drx_wallet.Currencies.{Token, State, platform_cases, get_currencies_of_platform, registry_of}
use drx_wallet.Currencies.Kept.{symbol, HasKind, IsOfContract, IsKept}

-- A property of the symbols of a platform, for a case of the switch.
abbrev pub EachThere : (String → String → Type 0) → String × List Currency → Type 0
EachThere P (platform, cs) = All (λ (c : Currency). P platform c.symbol) cs

module _ (st : State) (P : String → String → Type 0) where
  contains_text-each :
      (platform name : String) (cs : List Currency)
      → All (λ (c : Currency). P platform c.symbol) cs
      → contains_text name (map (λ (c : Currency). c.symbol) cs) ≡ true
      → P platform name
  contains_text-each platform name [] h e = cc
  contains_text-each platform name (c ∷ cs) h e = elim (Bool-cases (str_eq name c.symbol)) [
    | inl same ↦ rw ((eq_iff name c.symbol).0 same) h.0
    | inr other ↦ contains_text-each platform name cs h.1 (rw other at e)
  ]

  -- What each case of the switch holds of, the symbols of a platform do.
  pub on_platform-each :
      All (EachThere P) (platform_cases st)
      → (platform name : String) → on_platform (registry_of st) platform name ≡ true
      → P platform name
  unfolding get_currencies_of_platform
  on_platform-each each platform name h =
      elim (Option-cases (map_get platform (platform_cases st))) [
        | inl missing ↦ cc (rw missing at h)
        | inr (cs, found) ↦
            contains_text-each platform name cs
              (All-map_get (EachThere P) platform cs (platform_cases st) each found) (rw found at h)
      ]

-- The platform of a symbol, read off the text before its first dot. A token of the two that share a
-- prefix is told by the lists.
abbrev token_home : State → String → String → String
token_home st name kind =
    if str_eq kind "omni"
    then "btc"
    else if str_eq kind "trc20"
    then "tomo"
    else if str_eq kind "erc20"
    then (if contains_text name (map symbol st.bep20.tokens) then "bnb" else "eth")
    else kind

unfoldable pub home : State → String → String
home st name = token_home st name (prefix_of name)

abbrev pub LivesAt : State → String → String → Type 0
LivesAt st platform name = home st name ≡ platform

-- No contract is registered for Ethereum and for BSC.
abbrev pub HasSeparateContracts : State → Type 0
HasSeparateContracts st =
    (t u : Token) → Has t st.erc20.tokens → Has u st.bep20.tokens → t.contract ≢ u.contract

contains_text-map :
    (t : Token) (ts : List Token) → Has t ts → contains_text (symbol t) (map symbol ts) ≡ true
contains_text-map t [] m = elim m [ ]
contains_text-map t (u ∷ us) m = elim m [
  | inl e ↦ ground (arith, eq_iff (symbol t) (symbol u), ap symbol e)
  | inr r ↦ ground (arith, contains_text-map t us r)
]

contains_text-map_inv :
    (name : String) (ts : List Token)
    → contains_text name (map symbol ts) ≡ true
    → (t : Token) × Has t ts × (name ≡ symbol t)
contains_text-map_inv name [] h = cc
contains_text-map_inv name (t ∷ ts) h = elim (Bool-cases (str_eq name (symbol t))) [
  | inl same ↦ (t, inl refl, (eq_iff name (symbol t)).0 same)
  | inr other ↦ let (u, m, e) = contains_text-map_inv name ts (rw other at h) in (u, inr m, e)
]

pub All-currencies :
    (P : Currency → Type 0) (ts : List Token)
    → ((t : Token) → Has t ts → P t.currency)
    → All P (map (λ (t : Token). t.currency) ts)
All-currencies P [] h = tt
All-currencies P (t ∷ ts) h = (h t (inl refl), All-currencies P ts (λ u m. h u (inr m)))

kind_of_contract : (t : Token) → IsOfContract t → prefix_of (symbol t) ≡ "erc20"
unfolding prefix_of join_dot
kind_of_contract t e = rw e refl

module _ (st : State) (k : IsKept st) where
  bep20_home : (t : Token) → Has t st.bep20.tokens → LivesAt st "bnb" (symbol t)
  unfolding home
  bep20_home t m =
      rw
        (
          kind_of_contract t (All-lookup IsOfContract t st.bep20.tokens k.bep20 m),
          contains_text-map t st.bep20.tokens m,
        )
        refl

  erc20_home :
      HasSeparateContracts st → (t : Token) → Has t st.erc20.tokens → LivesAt st "eth" (symbol t)
  unfolding home
  erc20_home apart t m =
      let own = All-lookup IsOfContract t st.erc20.tokens k.erc20 m in
      elim (Bool-cases (contains_text (symbol t) (map symbol st.bep20.tokens))) [
        | inl shared ↦
            let (u, there, same) = contains_text-map_inv (symbol t) st.bep20.tokens shared in
            let other = All-lookup IsOfContract u st.bep20.tokens k.bep20 there in
            absurd (
              apart t u m there
                (join_dot_cancel "erc20" t.contract u.contract (sym own ∙ same ∙ other)))
        | inr single ↦ rw (kind_of_contract t own, single) refl
      ]

  omni_home : (t : Token) → Has t st.omni.tokens → LivesAt st "btc" (symbol t)
  unfolding home
  omni_home t m = rw (All-lookup (HasKind "omni") t st.omni.tokens k.omni m) refl

  trc20_home : (t : Token) → Has t st.trc20.tokens → LivesAt st "tomo" (symbol t)
  unfolding home
  trc20_home t m = rw (All-lookup (HasKind "trc20") t st.trc20.tokens k.trc20 m) refl

  eos_home : (t : Token) → Has t st.eos_tokens.tokens → LivesAt st "eos" (symbol t)
  unfolding home
  eos_home t m = rw (All-lookup (HasKind "eos") t st.eos_tokens.tokens k.eos m) refl

  pub cases_home : HasSeparateContracts st → All (EachThere (LivesAt st)) (platform_cases st)
  unfolding platform_cases home prefix_of
  cases_home apart = (
    (refl, All-currencies (λ (c : Currency). LivesAt st "btc" c.symbol) st.omni.tokens omni_home),
    (
      (
        refl,
        All-currencies (λ (c : Currency). LivesAt st "eth" c.symbol) st.erc20.tokens
            (erc20_home apart),
      ),
      (
        (
          refl,
          All-currencies (λ (c : Currency). LivesAt st "bnb" c.symbol) st.bep20.tokens bep20_home,
        ),
        (
          (
            refl,
            All-currencies (λ (c : Currency). LivesAt st "tomo" c.symbol) st.trc20.tokens
                trc20_home,
          ),
          (
            All-currencies (λ (c : Currency). LivesAt st "eos" c.symbol) st.eos_tokens.tokens
                eos_home,
            (
              (refl, tt),
              (
                (refl, tt),
                (
                  (refl, tt),
                  ((refl, tt), ((refl, tt), ((refl, tt), ((refl, tt), ((refl, tt), tt))))),
                ),
              ),
            ),
          ),
        ),
      ),
    ),
  )
