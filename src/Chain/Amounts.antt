-- ===== src/Chain/Amounts.antt =====
-- What entries of some addresses hold together, through each step of `mergeEntries`.
use drx_wallet.Base.{
  ◌≡◌, refl, ◌∙◌, inl, inr, Bool, some, List, [], ◌∷◌, String, eq_iff, if◌then◌else◌, Bool-cases,
  Option-cases, find_first, find_first-Has, insert_row,
}
use drx_wallet.Base.Int.{ℤ, pos, ◌+ℤ◌, int_laws}
use drx_wallet.Chain.{TransferEntry, is_at, remove_first, merge_entry, merge_into, amount_where}

pub share_of : (String → Bool) → TransferEntry → ℤ
share_of p e = if p e.address then e.amount else pos 0

pub amount_where-cons :
    (p : String → Bool) (e : TransferEntry) (es : List TransferEntry)
    → amount_where p (e ∷ es) ≡ share_of p e +ℤ amount_where p es
unfolding share_of
amount_where-cons p e es = elim (Bool-cases (p e.address)) [
  | inl t ↦ rw t refl
  | inr n ↦ rw n (zero_left (amount_where p es))
]
  where
    zero_left : (a : ℤ) → a ≡ pos 0 +ℤ a
    zero_left a = grind int_laws

pub amount_where-insert_row :
    (p : String → Bool) (e : TransferEntry) (es : List TransferEntry)
    → amount_where p (insert_row e es) ≡ amount_where p es +ℤ share_of p e
amount_where-insert_row p e [] = amount_where-cons p e [] ∙ swap (share_of p e)
  where
    swap : (a : ℤ) → a +ℤ pos 0 ≡ pos 0 +ℤ a
    swap a = grind int_laws
amount_where-insert_row p e (x ∷ xs) =
    amount_where-cons p x (insert_row e xs)
    ∙ rw (amount_where-insert_row p e xs, amount_where-cons p x xs)
        (assoc (share_of p x) (amount_where p xs) (share_of p e))
  where
    assoc : (a b c : ℤ) → a +ℤ (b +ℤ c) ≡ a +ℤ b +ℤ c
    assoc a b c = grind int_laws

pub amount_where-remove_first :
    (p : String → Bool) (address : String) (item : TransferEntry) (es : List TransferEntry)
    → find_first (is_at address) es ≡ some item
    → amount_where p es ≡ amount_where p (remove_first address es) +ℤ share_of p item
unfolding remove_first
amount_where-remove_first p address item [] e = cc
amount_where-remove_first p address item (x ∷ xs) e = elim (Bool-cases (is_at address x)) [
  | inl t ↦
      let same : x ≡ item = cc (rw t at e) in
      rw t (amount_where-cons p x xs ∙ rw same (swap (share_of p item) (amount_where p xs)))
  | inr n ↦ rw n (
      amount_where-cons p x xs
      ∙ rw
          (
            amount_where-remove_first p address item xs (rw n at e),
            amount_where-cons p x (remove_first address xs),
          )
          (assoc (share_of p x) (amount_where p (remove_first address xs)) (share_of p item)))
]
  where
    swap : (a b : ℤ) → a +ℤ b ≡ b +ℤ a
    swap a b = grind int_laws

    assoc : (a b c : ℤ) → a +ℤ (b +ℤ c) ≡ a +ℤ b +ℤ c
    assoc a b c = grind int_laws

pub merge_entry_amount :
    (p : String → Bool) (result : List TransferEntry) (entry : TransferEntry)
    → amount_where p (merge_entry result entry) ≡ amount_where p result +ℤ share_of p entry
unfolding merge_entry share_of
merge_entry_amount p result entry = elim (Option-cases (find_first (is_at entry.address) result)) [
  | inl nothing ↦ rw nothing (amount_where-insert_row p entry result)
  | inr (item, found) ↦
      let at : item.address ≡ entry.address =
        (eq_iff item.address entry.address).0
          (find_first-Has (is_at entry.address) item result found).1 in
      let merged : TransferEntry = record entry { amount = entry.amount +ℤ item.amount } in
      rw found (
        amount_where-insert_row p merged (remove_first entry.address result)
        ∙ rw (amount_where-remove_first p entry.address item result found)
            (merged_share (amount_where p (remove_first entry.address result)) item at))
]
  where
    add_two : (a b c : ℤ) → a +ℤ (b +ℤ c) ≡ a +ℤ c +ℤ b
    add_two a b c = grind int_laws

    add_none : (a : ℤ) → a +ℤ pos 0 ≡ a +ℤ pos 0 +ℤ pos 0
    add_none a = grind int_laws

    merged_share :
        (a : ℤ) (item : TransferEntry)
        → item.address ≡ entry.address
        → a +ℤ share_of p (record entry { amount = entry.amount +ℤ item.amount })
          ≡ a +ℤ share_of p item +ℤ share_of p entry
    merged_share a item at = elim (Bool-cases (p entry.address)) [
      | inl t ↦ rw (at, t) (add_two a entry.amount item.amount)
      | inr n ↦ rw (at, n) (add_none a)
    ]

pub merge_into_amount :
    (p : String → Bool) (result entries : List TransferEntry)
    → amount_where p (merge_into result entries) ≡ amount_where p result +ℤ amount_where p entries
unfolding merge_into
merge_into_amount p result [] = zero_right (amount_where p result)
  where
    zero_right : (a : ℤ) → a ≡ a +ℤ pos 0
    zero_right a = grind int_laws
merge_into_amount p result (e ∷ es) =
    merge_into_amount p (merge_entry result e) es
    ∙ rw (merge_entry_amount p result e, amount_where-cons p e es)
        (assoc (amount_where p result) (share_of p e) (amount_where p es))
  where
    assoc : (a b c : ℤ) → a +ℤ b +ℤ c ≡ a +ℤ (b +ℤ c)
    assoc a b c = grind int_laws
