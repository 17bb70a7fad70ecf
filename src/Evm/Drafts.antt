-- ===== src/Evm/Drafts.antt =====
-- What a transaction that is constructed may spend.
use drx_wallet.Base.{
  ℕ, ◌*◌, ◌≤◌, ◌≡◌, subst, inl, inr, Bool, true, false, String, ltb, Bool-cases, if◌then◌else◌,
  arith,
}
use drx_wallet.Base.Int.{ℤ, pos, ◌+ℤ◌, ◌-ℤ◌, ◌≤ℤ◌, ltb_ℤ, int_laws}
use drx_wallet.Base.Outcome.{ok, >>=-eq-ok, ok-injective}
use drx_wallet.Evm.{Node, EthTx, get_gas_price, gas_limit_of, value_of, construct_raw_transaction}

get_gas_price_le :
    (max_gas_price : ℕ) (node : Node) (lower : Bool) {price : ℕ}
    → get_gas_price max_gas_price node lower ≡ ok price
    → price ≤ max_gas_price
unfolding get_gas_price
get_gas_price_le max_gas_price node lower e =
    let (given, asked, k) = >>=-eq-ok node.get_gas_price _ e in
    elim (Bool-cases (ltb max_gas_price (given * (if lower then 2 else 5)))) [
      | inl over ↦ omega (arith, ok-injective _ _ (rw over at k))
      | inr under ↦ subst (λ n. n ≤ max_gas_price) (ok-injective _ _ (rw under at k)) (ground arith)
    ]

not_below : (a b : ℤ) → ltb_ℤ a b ≡ false → b ≤ℤ a
not_below a b h = ground arith

value_lem :
    (is_consolidate : Bool) (amount : ℤ) (fee : ℕ)
    → value_of is_consolidate amount (pos fee) +ℤ (if is_consolidate then pos fee else pos 0)
      ≡ amount
value_lem true amount fee = omega int_laws
value_lem false amount fee = omega int_laws

value_of-positive :
    (is_consolidate : Bool) (amount : ℤ) (max_gas_price price : ℕ)
    → price ≤ max_gas_price
    → pos (if is_consolidate then 21000 * max_gas_price else 0) ≤ℤ amount
    → pos 0 ≤ℤ value_of is_consolidate amount (pos (gas_limit_of is_consolidate * price))
value_of-positive true amount max_gas_price price low enough =
    not_negative amount (21000 * price) (21000 * max_gas_price) (omega (arith, low)) enough
  where
    not_negative : (a : ℤ) (f g : ℕ) → f ≤ g → pos g ≤ℤ a → pos 0 ≤ℤ (a -ℤ pos f)
    not_negative a f g h k = omega (int_laws, h, k)
value_of-positive false amount max_gas_price price low enough = enough

-- Where a transaction of the native asset is constructed from an amount that is not negative, and for a
-- consolidation is enough to pay the gas of a transfer at the maximal price, the value is not negative, the
-- gas price is at most the maximum, the value and the fee of all the gas together are at most the balance
-- that the node tells, and for a consolidation they are the whole amount.
pub construct_raw_transaction_bounds :
    (max_gas_price : ℕ) (node : Node) (from to_address : String) (amount : ℤ)
    (is_consolidate lower : Bool) {t : EthTx}
    → pos (if is_consolidate then 21000 * max_gas_price else 0) ≤ℤ amount
    → construct_raw_transaction max_gas_price node from to_address amount is_consolidate lower
      ≡ ok t
    → (pos 0 ≤ℤ t.value)
      × (t.gas_price ≤ max_gas_price)
      × ((balance : ℤ) × (node.get_balance from ≡ ok balance)
          × (t.value +ℤ pos (t.gas_limit * t.gas_price) ≤ℤ balance))
      × (t.value +ℤ (if is_consolidate then pos (t.gas_limit * t.gas_price) else pos 0) ≡ amount)
unfolding construct_raw_transaction
construct_raw_transaction_bounds max_gas_price node from to_address amount is_consolidate lower
      enough e =
    let (nonce, hn, k) = >>=-eq-ok (node.get_transaction_count from) _ e in
    let (price, hp, k1) = >>=-eq-ok (get_gas_price max_gas_price node lower) _ k in
    let (balance, hb, k2) = >>=-eq-ok (node.get_balance from) _ k1 in
    let fee = pos (gas_limit_of is_consolidate * price) in
    elim (Bool-cases (ltb_ℤ balance (value_of is_consolidate amount fee +ℤ fee))) [
      | inl poor ↦ cc (rw poor at k2)
      | inr rich ↦
          let same = ok-injective _ _ (rw rich at k2) in
          subst
            (λ (x : EthTx).
              (pos 0 ≤ℤ x.value)
              × (x.gas_price ≤ max_gas_price)
              × ((b : ℤ) × (node.get_balance from ≡ ok b)
                  × (x.value +ℤ pos (x.gas_limit * x.gas_price) ≤ℤ b))
              × (x.value +ℤ (if is_consolidate then pos (x.gas_limit * x.gas_price) else pos 0)
                  ≡ amount))
            same
            (
              value_of-positive is_consolidate amount max_gas_price price
                  (get_gas_price_le max_gas_price node lower hp) enough,
              get_gas_price_le max_gas_price node lower hp,
              (balance, hb, not_below balance _ rich),
              value_lem is_consolidate amount (gas_limit_of is_consolidate * price),
            )
    ]
