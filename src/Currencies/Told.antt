-- ===== src/Currencies/Told.antt =====
-- What it means that the callbacks of the registry were called with each token.
use drx_wallet.Base.{
  inl, inr, List, [], ◌∷◌, map, String, str_eq, insert_row, Bool-cases, All, Has, Has-append_left,
  Has-append_last, Has-insert_row,
}
use drx_wallet.Base.Text.{to_lower}
use drx_wallet.Currencies.{Token, Family, State, add_token, remove_token}
use drx_wallet.Currencies.Callbacks.{listen}

-- A callback has been called with each token of the list.
abbrev pub HasHeard : List Token → List Token → Type 0
HasHeard tokens heard = (t : Token) → Has t tokens → Has t heard

abbrev pub IsTold : Family → Type 0
IsTold f = All (HasHeard f.tokens) f.listeners

pub record Told (a b c d e : Family) : Type 0 where
  pub erc20 : IsTold a
  pub bep20 : IsTold b
  pub trc20 : IsTold c
  pub omni : IsTold d
  pub eos_tokens : IsTold e

abbrev pub AllTold : State → Type 0
AllTold st = Told st.erc20 st.bep20 st.trc20 st.omni st.eos_tokens

module _ {a b c d e : Family} where
  pub Told-erc20 : {x : Family} → IsTold x → Told a b c d e → Told x b c d e
  Told-erc20 now_ k = record {
    erc20 = now_;
    bep20 = k.bep20;
    trc20 = k.trc20;
    omni = k.omni;
    eos_tokens = k.eos_tokens;
  }

  pub Told-bep20 : {x : Family} → IsTold x → Told a b c d e → Told a x c d e
  Told-bep20 now_ k = record {
    erc20 = k.erc20;
    bep20 = now_;
    trc20 = k.trc20;
    omni = k.omni;
    eos_tokens = k.eos_tokens;
  }

  pub Told-trc20 : {x : Family} → IsTold x → Told a b c d e → Told a b x d e
  Told-trc20 now_ k = record {
    erc20 = k.erc20;
    bep20 = k.bep20;
    trc20 = now_;
    omni = k.omni;
    eos_tokens = k.eos_tokens;
  }

  pub Told-omni : {x : Family} → IsTold x → Told a b c d e → Told a b c x e
  Told-omni now_ k = record {
    erc20 = k.erc20;
    bep20 = k.bep20;
    trc20 = k.trc20;
    omni = now_;
    eos_tokens = k.eos_tokens;
  }

  pub Told-eos_tokens : {x : Family} → IsTold x → Told a b c d e → Told a b c d x
  Told-eos_tokens now_ k = record {
    erc20 = k.erc20;
    bep20 = k.bep20;
    trc20 = k.trc20;
    omni = k.omni;
    eos_tokens = now_;
  }

listeners-add :
    (t : Token) (tokens : List Token) (listeners : List (List Token))
    → All (HasHeard tokens) listeners
    → All (HasHeard (insert_row t tokens)) (map (insert_row t) listeners)
listeners-add t tokens [] h = tt
listeners-add t tokens (heard ∷ listeners) h = (
  λ u m. elim (Has-insert_row u t tokens m) [
    | inl old ↦ Has-append_left u heard _ (h.0 u old)
    | inr e ↦ rw e (Has-append_last t heard)
  ],
  listeners-add t tokens listeners h.1,
)

pub add_token-IsTold : (t : Token) (f : Family) → IsTold f → IsTold (add_token t f)
add_token-IsTold t f h = listeners-add t f.tokens f.listeners h

listeners-listen :
    (tokens : List Token) (listeners : List (List Token))
    → All (HasHeard tokens) listeners
    → All (HasHeard tokens) (insert_row tokens listeners)
listeners-listen tokens [] h = (λ u m. m, tt)
listeners-listen tokens (heard ∷ listeners) h = (h.0, listeners-listen tokens listeners h.1)

pub listen-IsTold : (f : Family) → IsTold f → IsTold (listen f)
listen-IsTold f h = listeners-listen f.tokens f.listeners h

Has-remove_token :
    (contract : String) (t : Token) (ts : List Token) → Has t (remove_token contract ts) → Has t ts
Has-remove_token contract t [] m = m
Has-remove_token contract t (u ∷ us) m =
    elim (Bool-cases (str_eq (to_lower u.contract) (to_lower contract))) [
      | inl same ↦ inr (rw same at m)
      | inr other ↦ elim (rw other at m) [
        | inl e ↦ inl e
        | inr r ↦ inr (Has-remove_token contract t us r)
      ]
    ]

pub listeners-remove :
    (contract : String) (tokens : List Token) (listeners : List (List Token))
    → All (HasHeard tokens) listeners
    → All (HasHeard (remove_token contract tokens)) listeners
listeners-remove contract tokens [] h = tt
listeners-remove contract tokens (heard ∷ listeners) h = (
  λ u m. h.0 u (Has-remove_token contract u tokens m),
  listeners-remove contract tokens listeners h.1,
)
