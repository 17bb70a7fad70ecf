-- ===== src/Currencies/States.antt =====
-- The state of the registry, and the state before any call.
use drx_wallet.Base.{ℕ, List, [], String}
use drx_wallet.Schema.{Currency}

-- A token, with its contract address (the property of an Omni asset, the code of an EOS token).
pub record Token : Type 0 where
  pub currency : Currency
  pub contract : String

-- The tokens of one kind, and the callbacks that are told of them.
pub record Family : Type 0 where
  pub tokens : List Token
  pub listeners : List (List Token)

-- `ICurrencyConfig`, an object of texts.
abbrev pub Config : Type 0
Config = List (String × String)

pub record State : Type 0 where
  pub currencies : List (String × Currency)
  pub configs : List (String × Config)
  pub erc20 : Family
  pub bep20 : Family
  pub trc20 : Family
  pub omni : Family
  pub eos_tokens : Family
  pub currency_listeners : List (List Currency)
  pub specific_listeners : List (String × List ℕ)
  pub config_listeners : List (List (Currency × Config))

abbrev no_tokens : Family
no_tokens = record { tokens = []; listeners = [] }

abbrev pub empty : State
empty = record {
  currencies = [];
  configs = [];
  erc20 = no_tokens;
  bep20 = no_tokens;
  trc20 = no_tokens;
  omni = no_tokens;
  eos_tokens = no_tokens;
  currency_listeners = [];
  specific_listeners = [];
  config_listeners = [];
}
