-- ===== src/Coins/Picking.antt =====
-- The loop of `constructRawTransaction` over the unspent outputs.
use drx_wallet.Base.{
  ℕ, zero, suc, ◌+◌, ◌*◌, ◌≤◌, ◌<◌, ◌≡◌, refl, ap, ◌∙◌, subst, inl, inr, true, false, List, [], ◌∷◌,
  ◌++◌, Bool-cases, length, take, insert_row, arith,
}
use drx_wallet.Base.Int.{ℤ, pos, ◌+ℤ◌, ◌≤ℤ◌, ◌<ℤ◌, ltb_ℤ, int_laws}
use drx_wallet.Base.Outcome.{ok, err, Error, ok-injective}
use drx_wallet.Coins.{Utxo, Picked, sum_utxos, fee_of, pick_utxos}

-- The first `n` unspent outputs hold more than the outputs and the fee of a transaction with them.
abbrev pub Covers : ℤ → ℤ → ℕ → List Utxo → ℕ → Type 0
Covers total_output total_input size us n =
    total_output +ℤ fee_of (size + 181 * n) <ℤ total_input +ℤ sum_utxos (take n us)

abbrev pub FallsShort : ℤ → ℤ → ℕ → List Utxo → ℕ → Type 0
FallsShort total_output total_input size us n =
    total_input +ℤ sum_utxos (take n us) ≤ℤ total_output +ℤ fee_of (size + 181 * n)

pub record IsPick (out : ℤ) (picked : List Utxo) (input : ℤ) (size : ℕ) (us : List Utxo) (n : ℕ)
    (p : Picked) : Type 0 where
  pub not_none : 1 ≤ n
  pub within : n ≤ length us
  pub first_ones : p.utxos ≡ picked ++ take n us
  pub its_fee : p.fee ≡ fee_of (size + 181 * n)
  pub covers : Covers out input size us n
  pub least : (m : ℕ) → 1 ≤ m → m < n → FallsShort out input size us m

append_assoc : (xs : List Utxo) (u : Utxo) (ys : List Utxo) → insert_row u xs ++ ys ≡ xs ++ (u ∷ ys)
append_assoc [] u ys = refl
append_assoc (x ∷ xs) u ys = ap (λ t. x ∷ t) (append_assoc xs u ys)

module _ (out : ℤ) where
  step_size : (size n : ℕ) → size + 181 + 181 * n ≡ size + 181 * suc n
  step_size size n = omega arith

  step_input : (input x rest : ℤ) → input +ℤ x +ℤ rest ≡ input +ℤ (x +ℤ rest)
  step_input input x rest = grind int_laws

  Covers-next :
      (input : ℤ) (size : ℕ) (u : Utxo) (us : List Utxo) (n : ℕ)
      → Covers out (input +ℤ pos u.satoshis) (size + 181) us n
      → Covers out input size (u ∷ us) (suc n)
  Covers-next input size u us n h =
      subst (λ k. out +ℤ fee_of k <ℤ input +ℤ (pos u.satoshis +ℤ sum_utxos (take n us)))
        (step_size size n)
        (subst (λ t. out +ℤ fee_of (size + 181 + 181 * n) <ℤ t)
          (step_input input (pos u.satoshis) (sum_utxos (take n us))) h)

  short_next :
      (input : ℤ) (size : ℕ) (u : Utxo) (us : List Utxo) (n : ℕ)
      → FallsShort out (input +ℤ pos u.satoshis) (size + 181) us n
      → FallsShort out input size (u ∷ us) (suc n)
  short_next input size u us n h =
      subst (λ k. input +ℤ (pos u.satoshis +ℤ sum_utxos (take n us)) ≤ℤ out +ℤ fee_of k)
        (step_size size n)
        (subst (λ t. t ≤ℤ out +ℤ fee_of (size + 181 + 181 * n))
          (step_input input (pos u.satoshis) (sum_utxos (take n us))) h)

  plus_zero : (a : ℤ) → a ≡ a +ℤ pos 0
  plus_zero a = grind int_laws

  Covers-now :
      (input : ℤ) (size : ℕ) (u : Utxo) (us : List Utxo)
      → out +ℤ fee_of (size + 181) <ℤ input +ℤ pos u.satoshis
      → Covers out input size (u ∷ us) 1
  Covers-now input size u us h = rw (← plus_zero (pos u.satoshis)) h

  short_now :
      (input : ℤ) (size : ℕ) (u : Utxo) (us : List Utxo)
      → input +ℤ pos u.satoshis ≤ℤ out +ℤ fee_of (size + 181)
      → FallsShort out input size (u ∷ us) 1
  short_now input size u us h = rw (← plus_zero (pos u.satoshis)) h

  pub pick_utxos_lem :
      (picked : List Utxo) (input : ℤ) (size : ℕ) (us : List Utxo) {p : Picked}
      → pick_utxos out picked input size us ≡ ok p
      → (n : ℕ) × IsPick out picked input size us n p
  pick_utxos_lem picked input size [] e = cc
  pick_utxos_lem picked input size (u ∷ us) e =
      elim (Bool-cases (ltb_ℤ (out +ℤ fee_of (size + 181)) (input +ℤ pos u.satoshis))) [
        | inl t ↦ (
          1,
          subst (λ q. IsPick out picked input size (u ∷ us) 1 q) (ok-injective _ _ (rw t at e))
              (record {
                not_none = omega arith;
                within = omega arith;
                first_ones = refl;
                its_fee = refl;
                covers =
                    Covers-now input size u us
                      (ltb_lt (out +ℤ fee_of (size + 181)) (input +ℤ pos u.satoshis) t);
                least = λ m low high. absurd (omega (arith, low, high));
              }),
        )
        | inr f ↦
            let (n, later) =
              pick_utxos_lem (insert_row u picked) (input +ℤ pos u.satoshis) (size + 181) us
                (rw f at e) in
            let short =
              short_now input size u us
                (not_lt (out +ℤ fee_of (size + 181)) (input +ℤ pos u.satoshis) f) in
            (
              suc n,
              record {
                not_none = omega arith;
                within = omega (arith, later.within);
                first_ones = later.first_ones ∙ append_assoc picked u (take n us);
                its_fee = later.its_fee ∙ ap fee_of (step_size size n);
                covers = Covers-next input size u us n later.covers;
                least = still_short input size u us n short later.least;
              },
            )
      ]
    where
      ltb_lt : (a b : ℤ) → ltb_ℤ a b ≡ true → a <ℤ b
      ltb_lt a b h = ground arith

      not_lt : (a b : ℤ) → ltb_ℤ a b ≡ false → b ≤ℤ a
      not_lt a b h = ground arith

      still_short :
          (input : ℤ) (size : ℕ) (u : Utxo) (us : List Utxo) (n : ℕ)
          → FallsShort out input size (u ∷ us) 1
          → ((m : ℕ) → 1 ≤ m → m < n → FallsShort out (input +ℤ pos u.satoshis) (size + 181) us m)
          → (m : ℕ) → 1 ≤ m
          → m < suc n
          → FallsShort out input size (u ∷ us) m
      still_short input size u us n now_ later zero low high = absurd (omega (arith, low))
      still_short input size u us n now_ later (suc zero) low high = now_
      still_short input size u us n now_ later (suc (suc m)) low high =
          short_next input size u us (suc m) (later (suc m) (omega arith) (omega (arith, high)))

  pub pick_utxos_short :
      (picked : List Utxo) (input : ℤ) (size : ℕ) (us : List Utxo) {x : Error}
      → pick_utxos out picked input size us ≡ err x
      → (m : ℕ) → 1 ≤ m
      → m ≤ length us
      → FallsShort out input size us m
  pick_utxos_short picked input size [] e m low high = absurd (omega (arith, low, high))
  pick_utxos_short picked input size (u ∷ us) e m low high =
      elim (Bool-cases (ltb_ℤ (out +ℤ fee_of (size + 181)) (input +ℤ pos u.satoshis))) [
        | inl t ↦ cc (rw t at e)
        | inr f ↦
            by_size m low high
              (short_now input size u us
                (not_lt (out +ℤ fee_of (size + 181)) (input +ℤ pos u.satoshis) f))
              (pick_utxos_short (insert_row u picked) (input +ℤ pos u.satoshis) (size + 181) us
                (rw f at e))
      ]
    where
      not_lt : (a b : ℤ) → ltb_ℤ a b ≡ false → b ≤ℤ a
      not_lt a b h = ground arith

      by_size :
          (m : ℕ)
          → 1 ≤ m
          → m ≤ length (u ∷ us)
          → FallsShort out input size (u ∷ us) 1
          → ((m : ℕ)
              → 1 ≤ m
              → m ≤ length us
              → FallsShort out (input +ℤ pos u.satoshis) (size + 181) us m)
          → FallsShort out input size (u ∷ us) m
      by_size zero low high now_ later = absurd (omega (arith, low))
      by_size (suc zero) low high now_ later = now_
      by_size (suc (suc m)) low high now_ later =
          short_next input size u us (suc m) (later (suc m) (omega arith) (omega (arith, high)))
