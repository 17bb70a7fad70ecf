-- ===== src/Base/Saves.antt =====
-- Rows with unique keys, and `EntityManager.save` of entities that were read before: each is
-- written to the row with its key.
use drx_wallet.Base.{
  ℕ, ◌≡◌, refl, sym, ap, ◌∙◌, ◌≢◌, inl, inr, Bool, true, false, ◌||◌, List, [], ◌∷◌, map, arith,
  ◌==◌, if◌then◌else◌, Bool-cases, ==_iff, ==_refl, select, update_where, insert_row, Has, All,
  All-lookup, Has-select, Has-select_intro, count_where, count_where_zero, ◌≤◌,
}

abbrev pub contains : ℕ → List ℕ → Bool
contains k [] = false
contains k (j ∷ js) = (k == j) || contains k js

module _ {A : Type 0} (key : A → ℕ) where
  -- No key stands twice.
  abbrev pub Unique : List A → Type 0
  Unique [] = Unit
  Unique (x ∷ xs) = All (λ y. key y ≢ key x) xs × Unique xs

  pub Unique-eq : (a b : A) (xs : List A) → Unique xs → Has a xs → Has b xs → key a ≡ key b → a ≡ b
  Unique-eq a b [] u m n e = elim m [ ]
  Unique-eq a b (x ∷ xs) u m n e = elim m [
    | inl p ↦ elim n [
      | inl q ↦ p ∙ sym q
      | inr s ↦ absurd (All-lookup (λ y. key y ≢ key x) b xs u.0 s (sym e ∙ ap key p))
    ]
    | inr r ↦ elim n [
      | inl q ↦ absurd (All-lookup (λ y. key y ≢ key x) a xs u.0 r (e ∙ ap key q))
      | inr s ↦ Unique-eq a b xs u.1 r s e
    ]
  ]

  -- One row at most has a key.
  pub Unique-count : (k : ℕ) (xs : List A) → Unique xs → count_where (λ x. key x == k) xs ≤ 1
  Unique-count k [] u = omega arith
  Unique-count k (x ∷ xs) u = elim (Bool-cases (key x == k)) [
    | inl t ↦
        let same = (==_iff (key x) k).0 t in
        let alone =
          count_where_zero (λ y. key y == k) xs
            (λ y m. elim (Bool-cases (key y == k)) [
              | inl t' ↦
                  absurd (
                    All-lookup (λ z. key z ≢ key x) y xs u.0 m ((==_iff (key y) k).0 t' ∙ sym same))
              | inr n ↦ n
            ]) in
        rw t (omega (arith, alone))
    | inr n ↦ rw n (omega (arith, Unique-count k xs u.1))
  ]

  pub Unique-insert_row :
      (r : A) (xs : List A)
      → Unique xs
      → ((x : A) → Has x xs → key r ≢ key x)
      → Unique (insert_row r xs)
  Unique-insert_row r [] u fresh = (tt, tt)
  Unique-insert_row r (x ∷ xs) u fresh =
      (others xs u.0, Unique-insert_row r xs u.1 (λ y m. fresh y (inr m)))
    where
      others :
          (ys : List A) → All (λ y. key y ≢ key x) ys → All (λ y. key y ≢ key x) (insert_row r ys)
      others [] h = (fresh x (inl refl), tt)
      others (y ∷ ys) h = (h.0, others ys h.1)

  All-update_key :
      (p : A → Bool) (f : A → A) (k : ℕ) (xs : List A)
      → ((x : A) → key (f x) ≡ key x)
      → All (λ y. key y ≢ k) xs
      → All (λ y. key y ≢ k) (update_where p f xs)
  All-update_key p f k [] same h = tt
  All-update_key p f k (x ∷ xs) same h = (moved, All-update_key p f k xs same h.1)
    where
      moved : key (if p x then f x else x) ≢ k
      moved = elim (Bool-cases (p x)) [ inl t ↦ rw (t, same x) h.0 | inr n ↦ rw n h.0 ]

  update_key :
      (p : A → Bool) (f : A → A) (x : A) → key (f x) ≡ key x → key (if p x then f x else x) ≡ key x
  update_key p f x same = elim (Bool-cases (p x)) [ inl t ↦ rw t same | inr n ↦ rw n ]

  pub Unique-update_where :
      (p : A → Bool) (f : A → A) (xs : List A)
      → ((x : A) → key (f x) ≡ key x)
      → Unique xs
      → Unique (update_where p f xs)
  Unique-update_where p f [] same u = tt
  Unique-update_where p f (x ∷ xs) same u = (
    rw (update_key p f x (same x)) (All-update_key p f (key x) xs same u.0),
    Unique-update_where p f xs same u.1,
  )

  -- UPDATE … WHERE id IN (…)
  abbrev pub update_ids : List ℕ → (A → A) → List A → List A
  update_ids ids f = update_where (λ x. contains (key x) ids) f

  -- `save` of each entity in turn; `f` sets the columns that were changed on it.
  abbrev pub save_each : List A → (A → A) → List A → List A
  save_each [] f rows = rows
  save_each (r ∷ rs) f rows = save_each rs f (update_where (λ x. key x == key r) f rows)

  update_twice :
      (r : ℕ) (ids : List ℕ) (f : A → A) (rows : List A)
      → ((x : A) → key (f x) ≡ key x)
      → ((x : A) → f (f x) ≡ f x)
      → update_ids ids f (update_where (λ x. key x == r) f rows) ≡ update_ids (r ∷ ids) f rows
  update_twice r ids f [] same again = refl
  update_twice r ids f (x ∷ xs) same again =
      ground (arith, same x, again x, update_twice r ids f xs same again)

  -- Saving entities one after the other is one UPDATE over their keys.
  pub save_each-eq-update_ids :
      (rs : List A) (f : A → A) (rows : List A)
      → ((x : A) → key (f x) ≡ key x)
      → ((x : A) → f (f x) ≡ f x)
      → save_each rs f rows ≡ update_ids (map key rs) f rows
  save_each-eq-update_ids [] f rows same again = none_saved rows
    where
      none_saved : (ys : List A) → ys ≡ update_ids [] f ys
      none_saved [] = refl
      none_saved (y ∷ ys) = ap (λ t. y ∷ t) (none_saved ys)
  save_each-eq-update_ids (r ∷ rs) f rows same again =
      save_each-eq-update_ids rs f (update_where (λ x. key x == key r) f rows) same again
      ∙ update_twice (key r) (map key rs) f rows same again

  pub contains-Has :
      (x : A) (rs : List A)
      → contains (key x) (map key rs) ≡ true
      → (r : A) × Has r rs × (key x ≡ key r)
  contains-Has x [] e = cc
  contains-Has x (r ∷ rs) e = elim (Bool-cases (key x == key r)) [
    | inl t ↦ (r, inl refl, (==_iff (key x) (key r)).0 t)
    | inr n ↦ let ih = contains-Has x rs (rw n at e) in (ih.0, inr ih.1, ih.2)
  ]

  pub Has-contains : (x : A) (rs : List A) → Has x rs → contains (key x) (map key rs) ≡ true
  Has-contains x [] m = elim m [ ]
  Has-contains x (r ∷ rs) m = elim m [
    | inl e ↦ rw (ap key e) (rw (==_refl (key r)))
    | inr k ↦ ground (arith, Has-contains x rs k)
  ]

  update_where_congr :
      (p q : A → Bool) (f : A → A) (rows : List A)
      → ((x : A) → Has x rows → p x ≡ q x)
      → update_where p f rows ≡ update_where q f rows
  update_where_congr p q f [] same = refl
  update_where_congr p q f (x ∷ xs) same =
      ground (arith, same x (inl refl), update_where_congr p q f xs (λ y m. same y (inr m)))

  selected_key :
      (p : A → Bool) (x : A) (rows : List A)
      → Unique rows
      → Has x rows
      → contains (key x) (map key (select p rows)) ≡ p x
  selected_key p x rows u m = elim (Bool-cases (p x)) [
    | inl t ↦ rw t (Has-contains x (select p rows) (Has-select_intro p x rows m t))
    | inr n ↦ elim (Bool-cases (contains (key x) (map key (select p rows)))) [
      | inl t ↦
          let (r, hr, e) = contains-Has x (select p rows) t in
          let (there, passes) = Has-select p r rows hr in
          cc (Unique-eq x r rows u m there e, passes)
      | inr out ↦ rw (out, n)
    ]
  ]

  -- Reading the rows that pass, and saving each, is an UPDATE with their condition.
  pub save_each-select :
      (p : A → Bool) (f : A → A) (rows : List A)
      → Unique rows
      → ((x : A) → key (f x) ≡ key x)
      → ((x : A) → f (f x) ≡ f x)
      → save_each (select p rows) f rows ≡ update_where p f rows
  save_each-select p f rows u same again =
      save_each-eq-update_ids (select p rows) f rows same again
      ∙ update_where_congr _ p f rows (λ x m. selected_key p x rows u m)
