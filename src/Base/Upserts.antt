-- ===== src/Base/Upserts.antt =====
-- `EntityManager.save` of an entity by the columns of its key, and `delete`.
use drx_wallet.Base.{
  ◌≡◌, refl, Bool, true, false, not, none, some, List, [], ◌∷◌, Option, arith, find_first,
  update_where, insert_row, select,
}

module _ {A : Type 0} where
  -- The row with the key is replaced, or the entity is a new row.
  abbrev pub save_over : Option A → (A → Bool) → A → List A → List A
  save_over none p r rows = insert_row r rows
  save_over (some found) p r rows = update_where p (λ x. r) rows

  abbrev pub save_row : (A → Bool) → A → List A → List A
  save_row p r rows = save_over (find_first p rows) p r rows

  -- DELETE … WHERE p
  abbrev pub delete_where : (A → Bool) → List A → List A
  delete_where p rows = select (λ x. not (p x)) rows

  pub find_first-insert_row :
      (p : A → Bool) (r : A) (rows : List A)
      → find_first p rows ≡ none
      → p r ≡ true
      → find_first p (insert_row r rows) ≡ some r
  find_first-insert_row p r [] e h = rw h refl
  find_first-insert_row p r (x ∷ xs) e h = ground (arith, find_first-insert_row p r xs)

  find_first-update_where :
      (p : A → Bool) (r a : A) (rows : List A)
      → find_first p rows ≡ some a
      → p r ≡ true
      → find_first p (update_where p (λ x. r) rows) ≡ some r
  find_first-update_where p r a [] e h = cc
  find_first-update_where p r a (x ∷ xs) e h = ground (arith, find_first-update_where p r a xs)

  -- A saved entity is found by its key.
  pub find_first-save_row :
      (p : A → Bool) (r : A) (rows : List A)
      → p r ≡ true
      → find_first p (save_row p r rows) ≡ some r
  find_first-save_row p r rows h = by_row (find_first p rows) refl
    where
      by_row : (o : Option A) → find_first p rows ≡ o → find_first p (save_over o p r rows) ≡ some r
      by_row none e = (find_first-insert_row p r rows e h)
      by_row (some a) e = (find_first-update_where p r a rows e h)

  find_first-insert_other :
      (q : A → Bool) (r : A) (rows : List A)
      → q r ≡ false
      → find_first q (insert_row r rows) ≡ find_first q rows
  find_first-insert_other q r [] h = rw h refl
  find_first-insert_other q r (x ∷ xs) h = ground (arith, find_first-insert_other q r xs h)

  find_first-update_other :
      (p q : A → Bool) (r : A) (rows : List A)
      → ((x : A) → p x ≡ true → q x ≡ false)
      → q r ≡ false
      → find_first q (update_where p (λ x. r) rows) ≡ find_first q rows
  find_first-update_other p q r [] apart h = refl
  find_first-update_other p q r (x ∷ xs) apart h =
      ground (arith, apart x, find_first-update_other p q r xs apart h)

  -- A query that rows with the key do not pass finds what it found before.
  pub find_first-save_other :
      (p q : A → Bool) (r : A) (rows : List A)
      → ((x : A) → p x ≡ true → q x ≡ false)
      → q r ≡ false
      → find_first q (save_row p r rows) ≡ find_first q rows
  find_first-save_other p q r rows apart h = by_row (find_first p rows) refl
    where
      by_row :
          (o : Option A)
          → find_first p rows ≡ o
          → find_first q (save_over o p r rows) ≡ find_first q rows
      by_row none e = (find_first-insert_other q r rows h)
      by_row (some a) e = (find_first-update_other p q r rows apart h)

  -- A new row is inserted and deleted.
  pub delete_where-insert_row :
      (p : A → Bool) (r : A) (rows : List A)
      → find_first p rows ≡ none
      → p r ≡ true
      → delete_where p (insert_row r rows) ≡ rows
  delete_where-insert_row p r [] e h = rw h refl
  delete_where-insert_row p r (x ∷ xs) e h = ground (arith, delete_where-insert_row p r xs)
