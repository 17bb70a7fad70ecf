-- ===== src/Base/Tables.antt =====
-- Tables of the database as lists of rows in the order of their keys, and what SELECT, UPDATE and
-- COUNT with a WHERE clause do to them.
use Prim.Native.Nat.{ℕ, zero, suc, ◌+◌}
use mathlib.Core.Path.{◌≡◌}
use mathlib.Core.Logic.{◌⊎◌}
use mathlib.Core.Bool.{Bool}
use mathlib.Core.Option.{Option, none, some}
use mathlib.Core.List.{List, [], ◌∷◌, ◌++◌}
use drx_wallet.Base.Tests.{leb, if◌then◌else◌}

module _ {ℓ} {A : Type ℓ} where
  abbrev pub length : List A → ℕ
  length [] = 0
  length (x ∷ xs) = suc (length xs)

  abbrev pub take : ℕ → List A → List A
  take zero xs = []
  take (suc n) [] = []
  take (suc n) (x ∷ xs) = x ∷ take n xs

  -- SELECT … WHERE p
  abbrev pub select : (A → Bool) → List A → List A
  select p [] = []
  select p (x ∷ xs) = let rest = select p xs in if p x then x ∷ rest else rest

  -- SELECT … WHERE p LIMIT 1
  abbrev pub find_first : (A → Bool) → List A → Option A
  find_first p [] = none
  find_first p (x ∷ xs) = let rest = find_first p xs in if p x then some x else rest

  -- SELECT COUNT(*) WHERE p
  abbrev pub count_where : (A → Bool) → List A → ℕ
  count_where p [] = 0
  count_where p (x ∷ xs) = (if p x then 1 else 0) + count_where p xs

  -- UPDATE … SET f WHERE p
  abbrev pub update_where : (A → Bool) → (A → A) → List A → List A
  update_where p f [] = []
  update_where p f (x ∷ xs) = (if p x then f x else x) ∷ update_where p f xs

  -- INSERT
  abbrev pub insert_row : A → List A → List A
  insert_row r rows = rows ++ r ∷ []

  unfoldable pub insert_by : (A → ℕ) → A → List A → List A
  insert_by key r [] = r ∷ []
  insert_by key r (x ∷ xs) =
      let rest = insert_by key r xs in if leb (key r) (key x) then r ∷ x ∷ xs else x ∷ rest

  -- ORDER BY key ASC
  unfoldable pub sort_by : (A → ℕ) → List A → List A
  unfolding insert_by
  sort_by key [] = []
  sort_by key (x ∷ xs) = insert_by key x (sort_by key xs)

  abbrev pub older : (A → ℕ) → A → Option A → Option A
  older key x none = some x
  older key x (some y) = if leb (key x) (key y) then some x else some y

  -- SELECT … WHERE p ORDER BY key ASC LIMIT 1
  unfoldable pub find_oldest : (A → ℕ) → (A → Bool) → List A → Option A
  find_oldest key p [] = none
  find_oldest key p (x ∷ xs) =
      let rest = find_oldest key p xs in if p x then older key x rest else rest

-- Membership, by recursion.
module _ {A : Type 0} where
  abbrev pub Has : A → List A → Type 0
  Has a [] = ⊥
  Has a (x ∷ xs) = (a ≡ x) ⊎ Has a xs

  abbrev pub All {κ} : (A → Type κ) → List A → Type κ
  All P [] = Unit
  All P (x ∷ xs) = P x × All P xs
