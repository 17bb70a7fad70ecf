-- ===== src/Chain/NetworkFee.antt =====
-- The fee of a transaction with unspent outputs, and the balance of a transfer of an account.
use drx_wallet.Base.{
  ◌≡◌, refl, sym, ap, ◌∙◌, inl, inr, true, List, [], ◌∷◌, ◌++◌, map, str_eq, ◌||◌, if◌then◌else◌,
  Bool-cases,
}
use drx_wallet.Base.Int.{ℤ, pos, ◌+ℤ◌, ◌-ℤ◌, neg_ℤ, int_laws}
use drx_wallet.Chain.{
  TransferEntry, BoiledVout, compact, merge_entries, amount_where, sum_entries, is_unparsed,
  convert_vin_to_transfer_entry, convert_vout_to_transfer_entry, extract_utxo_entries,
  get_network_fee,
}
use drx_wallet.Chain.Merging.{merge_entries-amount}

-- The values with an address.
abbrev sum_parsed : List BoiledVout → ℤ
sum_parsed [] = pos 0
sum_parsed (v ∷ vs) =
    let rest = sum_parsed vs in if is_unparsed v.address then rest else v.value +ℤ rest

sum_entries-amount : (es : List TransferEntry) → sum_entries es ≡ amount_where (λ a. true) es
sum_entries-amount [] = refl
sum_entries-amount (e ∷ es) = ap (λ t. e.amount +ℤ t) (sum_entries-amount es)

vouts_total :
    (outputs : List BoiledVout)
    → sum_entries (compact (map convert_vout_to_transfer_entry outputs)) ≡ sum_parsed outputs
vouts_total [] = refl
vouts_total (v ∷ vs) = elim (Bool-cases (is_unparsed v.address)) [
  | inl t ↦ rw t (vouts_total vs)
  | inr n ↦ rw (n, vouts_total vs)
]

sum_both :
    (inputs outputs : List BoiledVout)
    → sum_entries (
        compact
          (map convert_vin_to_transfer_entry inputs ++ map convert_vout_to_transfer_entry outputs))
      ≡ sum_parsed outputs -ℤ sum_parsed inputs
sum_both [] outputs = vouts_total outputs ∙ minus_zero (sum_parsed outputs)
  where
    minus_zero : (a : ℤ) → a ≡ a -ℤ pos 0
    minus_zero a = grind int_laws
sum_both (v ∷ vs) outputs = elim (Bool-cases (is_unparsed v.address)) [
  | inl t ↦ rw t (sum_both vs outputs)
  | inr n ↦ rw (n, sum_both vs outputs) (take_away v.value (sum_parsed outputs) (sum_parsed vs))
]
  where
    take_away : (x a b : ℤ) → neg_ℤ x +ℤ (a -ℤ b) ≡ a -ℤ (x +ℤ b)
    take_away x a b = grind int_laws

-- All values, and those without an address that the parser knows.
abbrev pub sum_values : List BoiledVout → ℤ
sum_values [] = pos 0
sum_values (v ∷ vs) = v.value +ℤ sum_values vs

abbrev pub sum_unaddressed : List BoiledVout → ℤ
sum_unaddressed [] = pos 0
sum_unaddressed (v ∷ vs) =
    let rest = sum_unaddressed vs in
    if str_eq v.address "" || str_eq v.address "false" then v.value +ℤ rest else rest

sum_parsed_lem : (vs : List BoiledVout) → sum_parsed vs ≡ sum_values vs -ℤ sum_unaddressed vs
sum_parsed_lem [] = zero_minus (pos 0)
  where
    zero_minus : (a : ℤ) → a ≡ a -ℤ pos 0
    zero_minus a = grind int_laws
sum_parsed_lem (v ∷ vs) = elim (Bool-cases (is_unparsed v.address)) [
  | inl t ↦ rw (t, sum_parsed_lem vs) (drop_both v.value (sum_values vs) (sum_unaddressed vs))
  | inr n ↦ rw (n, sum_parsed_lem vs) (keep_one v.value (sum_values vs) (sum_unaddressed vs))
]
  where
    drop_both : (x a b : ℤ) → a -ℤ b ≡ x +ℤ a -ℤ (x +ℤ b)
    drop_both x a b = grind int_laws

    keep_one : (x a b : ℤ) → x +ℤ (a -ℤ b) ≡ x +ℤ a -ℤ b
    keep_one x a b = grind int_laws

-- The network fee that `getNetworkFee` reads off the merged entries is the sum of all inputs less the sum
-- of all outputs, and what the outputs without an address hold more than the inputs without one.
pub get_network_fee_lem :
    (inputs outputs : List BoiledVout)
    → get_network_fee inputs outputs
      ≡ sum_values inputs
        -ℤ sum_values outputs
        +ℤ (sum_unaddressed outputs -ℤ sum_unaddressed inputs)
unfolding get_network_fee extract_utxo_entries
get_network_fee_lem inputs outputs =
    let entries =
      map convert_vin_to_transfer_entry inputs ++ map convert_vout_to_transfer_entry outputs in
    ap neg_ℤ (
      sum_entries-amount (merge_entries entries)
      ∙ merge_entries-amount (λ a. true) entries
      ∙ sym (sum_entries-amount (compact entries))
      ∙ sum_both inputs outputs
      ∙ ap (λ t. t -ℤ sum_parsed inputs) (sum_parsed_lem outputs)
      ∙ ap (λ t. (sum_values outputs -ℤ sum_unaddressed outputs) -ℤ t) (sum_parsed_lem inputs))
    ∙ negated (sum_values outputs) (sum_unaddressed outputs) (sum_values inputs)
        (sum_unaddressed inputs)
  where
    negated : (a b c d : ℤ) → neg_ℤ ((a -ℤ b) -ℤ (c -ℤ d)) ≡ c -ℤ a +ℤ (b -ℤ d)
    negated a b c d = grind int_laws
