-- ===== src/Blocks/Reading.antt =====
-- No transaction of a range of blocks is lost, and none comes from elsewhere.
use drx_wallet.Base.{
  ℕ, zero, suc, ◌+◌, ◌-◌, ◌≤◌, ◌<◌, ◌≡◌, ◌⊎◌, ◌↔◌, refl, sym, ap, ◌∙◌, subst, inl, inr, Option,
  none, some, List, [], ◌∷◌, ◌++◌, String, ltb, select, Has, arith, Bool-cases, Has-append_left,
  Has-append, ◌==◌, ==_iff,
}
use drx_wallet.Base.Outcome.{ok, ◌>>=◌, >>=-eq-ok, ok-injective}
use drx_wallet.Blocks.{
  Block, Source, get_one_block, push_found_tx, get_transactions_by_ids, is_text, transactions_in,
  get_block_transactions, transactions_from, get_multi_blocks_transactions,
}

module _ {T : Type 0} (s : Source T) where
  -- A transaction of a block: the block is found, and the transaction for one of its texts that is not empty.
  pub record IsIn (n : ℕ) (t : T) : Type 0 where
    pub block : Block
    pub txid : String
    pub found_block : get_one_block s n ≡ ok (some block)
    pub listed : Has txid (select is_text block.txids)
    pub found : s.get_one_transaction txid block ≡ ok (some t)

  Has-append_right : (t : T) (xs ys : List T) → Has t ys → Has t (xs ++ ys)
  Has-append_right t [] ys m = m
  Has-append_right t (x ∷ xs) ys m = inr (Has-append_right t xs ys m)

  push_found_tx-Has :
      (o : Option T) (txs : List T) (t : T) → Has t txs → Has t (push_found_tx o txs)
  push_found_tx-Has none txs t m = m
  push_found_tx-Has (some u) txs t m = inr m

  push_found_tx_cases :
      (o : Option T) (txs : List T) (t : T) → Has t (push_found_tx o txs) → (o ≡ some t) ⊎ Has t txs
  push_found_tx_cases none txs t m = inr m
  push_found_tx_cases (some u) txs t m = elim m [ inl e ↦ inl (ap some (sym e)) | inr r ↦ inr r ]

  by_ids_all :
      (b : Block) (txids : List String) {txs : List T}
      → get_transactions_by_ids s b txids ≡ ok txs
      → (txid : String) (t : T) → Has txid txids
      → s.get_one_transaction txid b ≡ ok (some t)
      → Has t txs
  unfolding get_transactions_by_ids
  by_ids_all b [] e txid t m found = elim m [ ]
  by_ids_all b (x ∷ xs) {txs} e txid t m found =
      let (o, ho, k) = >>=-eq-ok (s.get_one_transaction x b) _ e in
      let (rest, hr, k1) = >>=-eq-ok (get_transactions_by_ids s b xs) _ k in
      let whole = ok-injective _ _ k1 in
      elim m [
        | inl same ↦
            let own : o ≡ some t =
              ok-injective _ _
                (sym ho ∙ (ap (λ y. s.get_one_transaction y b) (sym same) ∙ found)) in
            subst (λ ys. Has t ys) whole
              (subst (λ p. Has t (push_found_tx p rest)) (sym own) (inl refl))
        | inr r ↦
            subst (λ ys. Has t ys) whole
              (push_found_tx-Has o rest t (by_ids_all b xs hr txid t r found))
      ]

  by_ids_only :
      (b : Block) (txids : List String) {txs : List T}
      → get_transactions_by_ids s b txids ≡ ok txs
      → (t : T) → Has t txs
      → (txid : String) × Has txid txids × (s.get_one_transaction txid b ≡ ok (some t))
  unfolding get_transactions_by_ids
  by_ids_only b [] {txs} e t m = elim (subst (λ ys. Has t ys) (sym (ok-injective _ _ e)) m) [ ]
  by_ids_only b (x ∷ xs) e t m =
      let (o, ho, k) = >>=-eq-ok (s.get_one_transaction x b) _ e in
      let (rest, hr, k1) = >>=-eq-ok (get_transactions_by_ids s b xs) _ k in
      elim (push_found_tx_cases o rest t (subst (λ ys. Has t ys) (sym (ok-injective _ _ k1)) m)) [
        | inl own ↦ (x, inl refl, ho ∙ ap ok own)
        | inr r ↦ let (txid, there, found) = by_ids_only b xs hr t r in (txid, inr there, found)
      ]

  get_block_transactions_all :
      (n : ℕ) {txs : List T} → get_block_transactions s n ≡ ok txs → (t : T) → IsIn n t → Has t txs
  unfolding get_block_transactions
  get_block_transactions_all n e t i =
      by_ids_all i.block (select is_text i.block.txids)
        (sym (ap (λ o. o >>= transactions_in s) i.found_block) ∙ e) i.txid t i.listed i.found

  IsIn-get_block_transactions :
      (n : ℕ) {txs : List T} → get_block_transactions s n ≡ ok txs → (t : T) → Has t txs → IsIn n t
  unfolding get_block_transactions
  IsIn-get_block_transactions n {txs} e t m =
      let (o, ho, k) = >>=-eq-ok (get_one_block s n) _ e in of_block o ho k
    where
      of_block :
          (o : Option Block) → get_one_block s n ≡ ok o → transactions_in s o ≡ ok txs → IsIn n t
      of_block none ho k = cc
      of_block (some b) ho k =
          let (txid, there, found) = by_ids_only b (select is_text b.txids) k t m in
          record { block = b; txid = txid; found_block = ho; listed = there; found = found }

  from_all :
      (n count : ℕ) {txs : List T}
      → transactions_from s n count ≡ ok txs
      → (m : ℕ) (t : T) → n ≤ m
      → m < n + count
      → IsIn m t
      → Has t txs
  from_all n zero e m t low high i = absurd (omega (arith, low, high))
  from_all n (suc count) e m t low high i =
      let (now_, hn, k) = >>=-eq-ok (get_block_transactions s n) _ e in
      let (rest, hr, k1) = >>=-eq-ok (transactions_from s (n + 1) count) _ k in
      subst (λ ys. Has t ys) (ok-injective _ _ k1)
        (elim (Bool-cases (m == n)) [
          | inl same ↦
              Has-append_left t now_ rest
                (get_block_transactions_all n hn t (subst (λ j. IsIn j t) ((==_iff m n).0 same) i))
          | inr other ↦
              Has-append_right t now_ rest
                (from_all (n + 1) count hr m t (ground (arith, other, low)) (omega (arith, high)) i)
        ])

  from_only :
      (n count : ℕ) {txs : List T}
      → transactions_from s n count ≡ ok txs
      → (t : T) → Has t txs
      → (m : ℕ) × (n ≤ m) × (m < n + count) × IsIn m t
  from_only n zero e t m = elim (subst (λ ys. Has t ys) (sym (ok-injective _ _ e)) m) [ ]
  from_only n (suc count) e t m =
      let (now_, hn, k) = >>=-eq-ok (get_block_transactions s n) _ e in
      let (rest, hr, k1) = >>=-eq-ok (transactions_from s (n + 1) count) _ k in
      elim (Has-append t now_ rest (subst (λ ys. Has t ys) (sym (ok-injective _ _ k1)) m)) [
        | inl here_ ↦ (n, omega arith, omega arith, IsIn-get_block_transactions n hn t here_)
        | inr later ↦
            let (j, low, high, i) = from_only (n + 1) count hr t later in
            (j, omega (arith, low), omega (arith, high), i)
      ]

  -- Where `getMultiBlocksTransactions` does not throw on a range, a transaction is in the result just where it is
  -- found for a text of a block of the range.
  pub get_multi_blocks_transactions_lem :
      (first last : ℕ) {txs : List T} (t : T)
      → get_multi_blocks_transactions s first last ≡ ok txs
      → Has t txs ↔ ((m : ℕ) × (first ≤ m) × (m ≤ last) × IsIn m t)
  unfolding get_multi_blocks_transactions
  get_multi_blocks_transactions_lem first last t e = elim (Bool-cases (ltb last first)) [
    | inl empty ↦ cc (rw empty at e)
    | inr ordered ↦
        let k = rw ordered at e in
        let le : first ≤ last = ground (arith, ordered) in
        (
          λ there.
              let (m, low, high, i) = from_only first (last - first + 1) k t there in
              (m, low, omega (arith, le, high), i),
          λ (m, low, high, i).
              from_all first (last - first + 1) k m t low (omega (arith, le, high)) i,
        )
  ]
