-- ===== src/Chain/Merging.antt =====
-- mergeEntries loses no amount and leaves one entry for an address.
use drx_wallet.Base.{
  ◌≡◌, refl, sym, ◌∙◌, subst, inl, inr, Bool, true, false, Option, some, List, [], ◌∷◌, String,
  str_eq, eq_iff, Bool-cases, Option-cases, arith, find_first, find_first-none, count_where,
  count_where-append, insert_row, Has, count_where_none, count_where_zero, ◌≤◌, ◌+◌,
}
use drx_wallet.Base.Int.{ℤ, pos, ◌+ℤ◌, int_laws}
use drx_wallet.Chain.{
  TransferEntry, is_at, compact, remove_first, merge_entry, merge_into, merge_entries, amount_where,
}
use drx_wallet.Chain.Amounts.{merge_into_amount}

-- Whatever addresses are looked at, `mergeEntries` keeps the sum of their amounts: the total over all
-- addresses, and what each address gains or loses.
pub merge_entries-amount :
    (p : String → Bool) (entries : List (Option TransferEntry))
    → amount_where p (merge_entries entries) ≡ amount_where p (compact entries)
unfolding merge_entries
merge_entries-amount p entries =
    merge_into_amount p [] (compact entries) ∙ zero_left (amount_where p (compact entries))
  where
    zero_left : (a : ℤ) → pos 0 +ℤ a ≡ a
    zero_left a = grind int_laws

-- No address stands in two entries.
unfoldable pub IsMerged : List TransferEntry → Type 0
IsMerged entries = (address : String) → count_where (is_at address) entries ≤ 1

count-remove_first :
    (address other : String) (es : List TransferEntry)
    → count_where (is_at other) (remove_first address es) ≤ count_where (is_at other) es
unfolding remove_first
count-remove_first address other [] = omega arith
count-remove_first address other (x ∷ xs) = ground (arith, count-remove_first address other xs)

count-remove_found :
    (address : String) (item : TransferEntry) (es : List TransferEntry)
    → find_first (is_at address) es ≡ some item
    → count_where (is_at address) es ≡ 1 + count_where (is_at address) (remove_first address es)
unfolding remove_first
count-remove_found address item [] e = cc
count-remove_found address item (x ∷ xs) e = elim (Bool-cases (is_at address x)) [
  | inl t ↦ rw t refl
  | inr n ↦ rw (n, n) (omega (arith, count-remove_found address item xs (rw n at e)))
]

-- A row that is put at the end counts for its own address alone.
count-insert_entry :
    (other : String) (e : TransferEntry) (es : List TransferEntry)
    → count_where (is_at other) es ≤ 1
    → count_where (is_at e.address) es ≡ 0
    → count_where (is_at other) (insert_row e es) ≤ 1
count-insert_entry other e es once free =
    let total = count_where-append (is_at other) es (e ∷ []) in
    elim (Bool-cases (is_at other e)) [
      | inl t ↦
          let same : e.address ≡ other = (eq_iff e.address other).0 t in
          let zero_rows : count_where (is_at other) es ≡ 0 = rw same at free in
          ground (arith, total)
      | inr n ↦ ground (arith, total)
    ]

merge_entry-IsMerged :
    (result : List TransferEntry) (entry : TransferEntry)
    → IsMerged result
    → IsMerged (merge_entry result entry)
unfolding merge_entry IsMerged
merge_entry-IsMerged result entry merged other =
    elim (Option-cases (find_first (is_at entry.address) result)) [
      | inl nothing ↦ rw nothing (
          count-insert_entry other entry result (merged other) (
            count_where_zero (is_at entry.address) result
              (λ e m. find_first-none (is_at entry.address) e result nothing m)))
      | inr (item, found) ↦
          let fewer = count-remove_first entry.address other result in
          let gone = count-remove_found entry.address item result found in
          let once = merged other in
          let once_there = merged entry.address in
          rw found (
            count-insert_entry other (record entry { amount = entry.amount +ℤ item.amount })
              (remove_first entry.address result) (omega (arith, fewer, once))
              (omega (arith, gone, once_there)))
    ]

merge_into-IsMerged :
    (result entries : List TransferEntry) → IsMerged result → IsMerged (merge_into result entries)
unfolding merge_into
merge_into-IsMerged result [] merged = merged
merge_into-IsMerged result (e ∷ es) merged =
    merge_into-IsMerged (merge_entry result e) es (merge_entry-IsMerged result e merged)

-- After `mergeEntries` each address is only involved in one entry.
pub merge_entries-IsMerged :
    (entries : List (Option TransferEntry)) → IsMerged (merge_entries entries)
unfolding merge_entries IsMerged
merge_entries-IsMerged entries = merge_into-IsMerged [] (compact entries) (λ address. omega arith)

amount_of_none :
    (address : String) (es : List TransferEntry)
    → count_where (is_at address) es ≡ 0
    → amount_where (λ a. str_eq a address) es ≡ pos 0
amount_of_none address [] z = refl
amount_of_none address (x ∷ xs) z = elim (Bool-cases (is_at address x)) [
  | inl t ↦ absurd (omega (arith, rw t at z))
  | inr n ↦ rw n (amount_of_none address xs (omega (arith, rw n at z)))
]

amount_of_entry :
    (e : TransferEntry) (es : List TransferEntry)
    → Has e es
    → count_where (is_at e.address) es ≤ 1
    → amount_where (λ a. str_eq a e.address) es ≡ e.amount
amount_of_entry e [] m once = elim m [ ]
amount_of_entry e (x ∷ xs) m once = elim (Bool-cases (is_at e.address x)) [
  | inl t ↦ elim m [
    | inl same ↦
        rw (t, amount_of_none e.address xs (omega (arith, rw t at once)), same)
          (zero_right x.amount)
    | inr k ↦
        let none_left : count_where (is_at e.address) xs ≡ 0 = omega (arith, rw t at once) in
        let self : is_at e.address e ≡ true = (eq_iff e.address e.address).1 refl in
        let other = count_where_none (is_at e.address) e xs none_left k in cc (self, other)
  ]
  | inr n ↦ elim m [
    | inl same ↦
        let self : is_at e.address e ≡ true = (eq_iff e.address e.address).1 refl in
        let not_self : is_at e.address e ≡ false =
          subst (λ q. is_at e.address q ≡ false) (sym same) n in
        cc (self, not_self)
    | inr k ↦ rw n (amount_of_entry e xs k (omega (arith, rw n at once)))
  ]
]
  where
    zero_right : (a : ℤ) → a +ℤ pos 0 ≡ a
    zero_right a = grind int_laws

-- An entry that `mergeEntries` gives for an address holds the sum of all that was given for it.
pub merged_entry_amount :
    (entries : List (Option TransferEntry)) (e : TransferEntry)
    → Has e (merge_entries entries)
    → e.amount ≡ amount_where (λ a. str_eq a e.address) (compact entries)
unfolding IsMerged
merged_entry_amount entries e m =
    sym (amount_of_entry e (merge_entries entries) m (merge_entries-IsMerged entries e.address))
    ∙ merge_entries-amount (λ a. str_eq a e.address) entries
