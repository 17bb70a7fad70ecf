-- ===== src/Base/Views.antt =====
-- A view of each row, and what the table operations look like through it.
use drx_wallet.Base.{
  ℕ, ◌≡◌, refl, ap, ◌≢◌, inl, inr, Bool, List, [], ◌∷◌, map, update_where, insert_row, count_where,
  Has, All, arith,
}
use drx_wallet.Base.Saves.{Unique}

module _ {A B : Type 0} (view : A → B) where
  pub Has-map : (a : A) (xs : List A) → Has a xs → Has (view a) (map view xs)
  Has-map a [] m = elim m [ ]
  Has-map a (x ∷ xs) m = elim m [ inl e ↦ inl (ap view e) | inr r ↦ inr (Has-map a xs r) ]

  pub Has-map_inv : (b : B) (xs : List A) → Has b (map view xs) → (a : A) × Has a xs × (b ≡ view a)
  Has-map_inv b [] m = elim m [ ]
  Has-map_inv b (x ∷ xs) m = elim m [
    | inl e ↦ (x, inl refl, e)
    | inr r ↦ let ih = Has-map_inv b xs r in (ih.0, inr ih.1, ih.2)
  ]

  pub map-insert_row :
      (r : A) (xs : List A) → map view (insert_row r xs) ≡ insert_row (view r) (map view xs)
  map-insert_row r [] = refl
  map-insert_row r (x ∷ xs) = ap (λ t. view x ∷ t) (map-insert_row r xs)

  -- An update that the view sees as an update.
  pub map-update_where :
      (p : A → Bool) (f : A → A) (q : B → Bool) (g : B → B) (xs : List A)
      → ((x : A) → p x ≡ q (view x))
      → ((x : A) → view (f x) ≡ g (view x))
      → map view (update_where p f xs) ≡ update_where q g (map view xs)
  map-update_where p f q g [] hp hf = refl
  map-update_where p f q g (x ∷ xs) hp hf =
      ground (arith, hp x, hf x, map-update_where p f q g xs hp hf)

  -- An update that the view does not see.
  pub map-update_hidden :
      (p : A → Bool) (f : A → A) (xs : List A)
      → ((x : A) → view (f x) ≡ view x)
      → map view (update_where p f xs) ≡ map view xs
  map-update_hidden p f [] hf = refl
  map-update_hidden p f (x ∷ xs) hf = ground (arith, hf x, map-update_hidden p f xs hf)

module _ {A B : Type 0} (view : A → B) (key : B → ℕ) where
  All-map_inv : (P : B → Type 0) (xs : List A) → All P (map view xs) → All (λ x. P (view x)) xs
  All-map_inv P [] h = tt
  All-map_inv P (x ∷ xs) h = (h.0, All-map_inv P xs h.1)

  pub Unique-map_inv : (xs : List A) → Unique key (map view xs) → Unique (λ x. key (view x)) xs
  Unique-map_inv [] u = tt
  Unique-map_inv (x ∷ xs) u =
      (All-map_inv (λ y. key y ≢ key (view x)) xs u.0, Unique-map_inv xs u.1)

module _ {A B : Type 0} (view : A → B) where
  pub count_where-map :
      (p : B → Bool) (xs : List A) → count_where p (map view xs) ≡ count_where (λ x. p (view x)) xs
  count_where-map p [] = refl
  count_where-map p (x ∷ xs) = omega (arith, count_where-map p xs)
