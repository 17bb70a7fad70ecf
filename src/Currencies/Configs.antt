-- ===== src/Currencies/Configs.antt =====
-- What a configuration reads back.
use drx_wallet.Base.{◌≡◌, refl, ap, ◌∙◌, Option, none, some, [], ◌∷◌, String, str_eq, if◌then◌else◌}
use text.Mathlib.TextPositions.{eq_refl}
use drx_wallet.Base.Outcome.{ok}
use drx_wallet.Base.Text.{to_lower}
use drx_wallet.Base.Dict.{map_get, map_set, map_get-map_set}
use drx_wallet.Schema.{Currency}
use drx_wallet.Currencies.{State, Config}
use drx_wallet.Currencies.Callbacks.{
  assign, merged_config, set_currency_config, get_currency_config,
}

-- The last value of a field, if the configuration names it.
abbrev pub last_of : String → Config → Option String → Option String
last_of field [] before = before
last_of field ((name, value) ∷ rest) before =
    last_of field rest (if str_eq name field then some value else before)

assign_lem :
    (target source : Config) (field : String)
    → map_get field (assign target source) ≡ last_of field source (map_get field target)
assign_lem target [] field = refl
assign_lem target ((name, value) ∷ source) field =
    assign_lem (map_set name value target) source field
    ∙ ap (last_of field source) (map_get-map_set name field value target)

abbrev pub old_of : Option Config → Config
old_of none = []
old_of (some old_config) = old_config

merged_config_lem :
    (o : Option Config) (config : Config) (field : String)
    → map_get field (merged_config o config) ≡ last_of field config (last_of field (old_of o) none)
merged_config_lem none config field = assign_lem [] config field
merged_config_lem (some old_config) config field =
    assign_lem (assign [] old_config) config field
    ∙ ap (last_of field config) (assign_lem [] old_config field)

-- After `setCurrencyConfig`, `getCurrencyConfig` finds a configuration for the currency in which each
-- field has the last value that the new configuration gives it, or else the last one that the
-- configuration from before gives it.
pub get_currency_config-set_currency_config :
    (c : Currency) (config : Config) (st : State)
    → (found : Config) × (get_currency_config c (set_currency_config c config st) ≡ ok found)
      × ((field : String)
          → map_get field found
            ≡ last_of field config
                (last_of field (old_of (map_get (to_lower c.symbol) st.configs)) none))
unfolding get_currency_config set_currency_config
get_currency_config-set_currency_config c config st =
    let key = to_lower c.symbol in
    let found = merged_config (map_get key st.configs) config in
    (
      found,
      rw (map_get-map_set key key found st.configs, eq_refl key) refl,
      λ field. merged_config_lem (map_get key st.configs) config field,
    )
