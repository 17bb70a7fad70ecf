-- ===== src/Base/Laws.antt =====
-- Laws of the table operations, by induction on the rows.
use Prim.Native.Nat.{ℕ, zero, suc, ◌+◌, ◌≤◌}
use mathlib.Core.Path.{◌≡◌, refl, sym}
use mathlib.Core.Logic.{◌⊎◌, inl, inr}
use mathlib.Core.Bool.{Bool, true, false, ◌||◌}
use mathlib.Core.Option.{none, some}
use mathlib.Core.List.{List, [], ◌∷◌, ◌++◌}
use native.Mathlib.Omega.{arith}
use drx_wallet.Base.Tests.{ltb, leb, if◌then◌else◌, Bool-cases}
use drx_wallet.Base.Tables.{
  take, select, find_first, count_where, update_where, insert_row, insert_by, sort_by, find_oldest,
  Has, All,
}

-- A count that is not positive is zero.
pub not_positive : (n : ℕ) → ltb 0 n ≡ false → n ≡ 0
not_positive zero e = refl
not_positive (suc n) e = absurd (ground arith)

pub ||-eq-false : (p q : Bool) → (p || q) ≡ false → (p ≡ false) × (q ≡ false)
||-eq-false true q e = cc
||-eq-false false q e = (refl, e)

module _ {A : Type 0} where
  pub All-lookup {κ} : (P : A → Type κ) (x : A) (xs : List A) → All P xs → Has x xs → P x
  All-lookup P x [] h m = elim m [ ]
  All-lookup P x (y ∷ ys) h m = elim m [ inl e ↦ rw e h.0 | inr r ↦ All-lookup P x ys h.1 r ]

  pub All-of_Has {κ} : (P : A → Type κ) (xs : List A) → ((x : A) → Has x xs → P x) → All P xs
  All-of_Has P [] f = tt
  All-of_Has P (y ∷ ys) f = (f y (inl refl), All-of_Has P ys (λ x m. f x (inr m)))

  pub Has-append_left : (a : A) (xs ys : List A) → Has a xs → Has a (xs ++ ys)
  Has-append_left a [] ys m = elim m [ ]
  Has-append_left a (x ∷ xs) ys m = elim m [
    | inl e ↦ inl e
    | inr r ↦ inr (Has-append_left a xs ys r)
  ]

  pub Has-append_right : (a : A) (xs ys : List A) → Has a ys → Has a (xs ++ ys)
  Has-append_right a [] ys m = m
  Has-append_right a (x ∷ xs) ys m = inr (Has-append_right a xs ys m)

  pub Has-append : (a : A) (xs ys : List A) → Has a (xs ++ ys) → Has a xs ⊎ Has a ys
  Has-append a [] ys m = inr m
  Has-append a (x ∷ xs) ys m = elim m [
    | inl e ↦ inl (inl e)
    | inr r ↦ elim (Has-append a xs ys r) [ inl k ↦ inl (inr k) | inr k ↦ inr k ]
  ]

  pub Has-append_last : (a : A) (xs : List A) → Has a (insert_row a xs)
  Has-append_last a [] = inl refl
  Has-append_last a (x ∷ xs) = inr (Has-append_last a xs)

  pub Has-insert_row : (a r : A) (xs : List A) → Has a (insert_row r xs) → Has a xs ⊎ (a ≡ r)
  Has-insert_row a r [] m = elim m [ inl e ↦ inr e | inr n ↦ elim n [ ] ]
  Has-insert_row a r (x ∷ xs) m = elim m [
    | inl e ↦ inl (inl e)
    | inr n ↦ elim (Has-insert_row a r xs n) [ inl k ↦ inl (inr k) | inr e ↦ inr e ]
  ]

  pub Has-select :
      (p : A → Bool) (a : A) (xs : List A) → Has a (select p xs) → Has a xs × (p a ≡ true)
  Has-select p a [] m = elim m [ ]
  Has-select p a (x ∷ xs) m = elim (Bool-cases (p x)) [
    | inl yes_ ↦ elim (rw yes_ at m) [
      | inl e ↦ (inl e, rw e yes_)
      | inr r ↦ let ih = Has-select p a xs r in (inr ih.0, ih.1)
    ]
    | inr no_ ↦ let ih = Has-select p a xs (rw no_ at m) in (inr ih.0, ih.1)
  ]

  pub Has-select_intro :
      (p : A → Bool) (a : A) (xs : List A) → Has a xs → p a ≡ true → Has a (select p xs)
  Has-select_intro p a [] m h = elim m [ ]
  Has-select_intro p a (x ∷ xs) m h = elim m [
    | inl e ↦ let t : p x ≡ true = rw (← e) h in rw t (inl e)
    | inr r ↦ elim (Bool-cases (p x)) [
      | inl t ↦ rw t (inr (Has-select_intro p a xs r h))
      | inr f ↦ rw f (Has-select_intro p a xs r h)
    ]
  ]

  -- A row of the updated table comes from a row of the old one.
  pub Has-update_where :
      (p : A → Bool) (f : A → A) (a : A) (xs : List A)
      → Has a (update_where p f xs)
      → (x : A) × Has x xs × (a ≡ (if p x then f x else x))
  Has-update_where p f a [] m = elim m [ ]
  Has-update_where p f a (x ∷ xs) m = elim m [
    | inl e ↦ (x, inl refl, e)
    | inr r ↦ let ih = Has-update_where p f a xs r in (ih.0, inr ih.1, ih.2)
  ]

  pub Has-update_where_intro :
      (p : A → Bool) (f : A → A) (a : A) (xs : List A)
      → Has a xs
      → Has (if p a then f a else a) (update_where p f xs)
  Has-update_where_intro p f a [] m = elim m [ ]
  Has-update_where_intro p f a (x ∷ xs) m = elim m [
    | inl e ↦ inl (rw e)
    | inr r ↦ inr (Has-update_where_intro p f a xs r)
  ]

  pub Has-take : (n : ℕ) (a : A) (xs : List A) → Has a (take n xs) → Has a xs
  Has-take zero a xs m = elim m [ ]
  Has-take (suc n) a [] m = elim m [ ]
  Has-take (suc n) a (x ∷ xs) m = elim m [ inl e ↦ inl e | inr r ↦ inr (Has-take n a xs r) ]

  Has-insert_by :
      (key : A → ℕ) (a r : A) (xs : List A) → Has a (insert_by key r xs) → (a ≡ r) ⊎ Has a xs
  unfolding insert_by
  Has-insert_by key a r [] m = elim m [ inl e ↦ inl e | inr n ↦ elim n [ ] ]
  Has-insert_by key a r (x ∷ xs) m = elim (Bool-cases (leb (key r) (key x))) [
    | inl t ↦ rw t at m
    | inr f ↦ elim (rw f at m) [
      | inl e ↦ inr (inl e)
      | inr n ↦ elim (Has-insert_by key a r xs n) [ inl e ↦ inl e | inr k ↦ inr (inr k) ]
    ]
  ]

  pub Has-sort_by : (key : A → ℕ) (a : A) (xs : List A) → Has a (sort_by key xs) → Has a xs
  unfolding sort_by
  Has-sort_by key a [] m = m
  Has-sort_by key a (x ∷ xs) m = elim (Has-insert_by key a x (sort_by key xs) m) [
    | inl e ↦ inl e
    | inr k ↦ inr (Has-sort_by key a xs k)
  ]

  pub find_first-Has :
      (p : A → Bool) (a : A) (xs : List A) → find_first p xs ≡ some a → Has a xs × (p a ≡ true)
  find_first-Has p a [] e = cc
  find_first-Has p a (x ∷ xs) e = elim (Bool-cases (p x)) [
    | inl t ↦ let same : x ≡ a = cc (rw t at e) in (inl (sym same), rw (← same) t)
    | inr f ↦ let ih = find_first-Has p a xs (rw f at e) in (inr ih.0, ih.1)
  ]

  pub find_first-none :
      (p : A → Bool) (a : A) (xs : List A) → find_first p xs ≡ none → Has a xs → p a ≡ false
  find_first-none p a [] e m = elim m [ ]
  find_first-none p a (x ∷ xs) e m = elim (Bool-cases (p x)) [
    | inl t ↦ cc (rw t at e)
    | inr f ↦ elim m [ inl same ↦ rw same f | inr r ↦ find_first-none p a xs (rw f at e) r ]
  ]

  pub find_oldest-Has :
      (key : A → ℕ) (p : A → Bool) (a : A) (xs : List A)
      → find_oldest key p xs ≡ some a
      → Has a xs × (p a ≡ true)
  unfolding find_oldest
  find_oldest-Has key p a [] e = cc
  find_oldest-Has key p a (x ∷ xs) e = ground (arith, find_oldest-Has key p a xs)

  pub count_where-append :
      (p : A → Bool) (xs ys : List A)
      → count_where p (xs ++ ys) ≡ count_where p xs + count_where p ys
  count_where-append p [] ys = omega arith
  count_where-append p (x ∷ xs) ys = omega (arith, count_where-append p xs ys)

  -- COUNT is zero exactly where no row passes.
  pub count_where_none :
      (p : A → Bool) (a : A) (xs : List A) → count_where p xs ≡ 0 → Has a xs → p a ≡ false
  count_where_none p a [] e m = elim m [ ]
  count_where_none p a (x ∷ xs) e m = elim (Bool-cases (p x)) [
    | inl t ↦ absurd (omega (arith, rw t at e))
    | inr f ↦ elim m [
      | inl same ↦ rw same f
      | inr r ↦ count_where_none p a xs (omega (arith, rw f at e)) r
    ]
  ]

  pub count_where_zero :
      (p : A → Bool) (xs : List A) → ((a : A) → Has a xs → p a ≡ false) → count_where p xs ≡ 0
  count_where_zero p [] h = refl
  count_where_zero p (x ∷ xs) h =
      rw (h x (inl refl)) (omega (arith, count_where_zero p xs (λ a m. h a (inr m))))

  -- An update adds at most the rows that it changes to a count.
  pub count_where-update_add :
      (q p : A → Bool) (f : A → A) (xs : List A)
      → count_where q (update_where p f xs) ≤ count_where q xs + count_where p xs
  count_where-update_add q p f [] = omega arith
  count_where-update_add q p f (x ∷ xs) = ground (arith, count_where-update_add q p f xs)

  -- An update that makes no row pass raises no count.
  pub count_where-update_le :
      (q p : A → Bool) (f : A → A) (xs : List A)
      → ((a : A) → Has a xs → p a ≡ true → q (f a) ≡ true → q a ≡ true)
      → count_where q (update_where p f xs) ≤ count_where q xs
  count_where-update_le q p f [] h = omega arith
  count_where-update_le q p f (x ∷ xs) h =
      ground (arith, h x (inl refl), count_where-update_le q p f xs (λ a m. h a (inr m)))
