-- ===== src/Base/Dict.antt =====
-- A map from texts, in the order in which its keys were set first: the `Map` of JavaScript, and the
-- own properties of an object.
use drx_wallet.Base.{
  ◌≡◌, refl, ap, inl, inr, Bool, true, false, ◌||◌, Option, none, some, List, [], ◌∷◌, String,
  str_eq, eq_iff, if◌then◌else◌, Bool-cases, arith, All,
}
use text.Mathlib.TextPositions.{eq_refl}

module _ {ℓ} {V : Type ℓ} where
  abbrev pub map_get : String → List (String × V) → Option V
  map_get k [] = none
  map_get k ((j, v) ∷ m) = if str_eq j k then some v else map_get k m

  abbrev pub map_has : String → List (String × V) → Bool
  map_has k [] = false
  map_has k ((j, v) ∷ m) = str_eq j k || map_has k m

  abbrev pub map_set : String → V → List (String × V) → List (String × V)
  map_set k v [] = (k, v) ∷ []
  map_set k v ((j, w) ∷ m) = if str_eq j k then (k, v) ∷ m else (j, w) ∷ map_set k v m

  abbrev pub map_delete : String → List (String × V) → List (String × V)
  map_delete k [] = []
  map_delete k ((j, v) ∷ m) = if str_eq j k then m else (j, v) ∷ map_delete k m

  pub map_get-map_set :
      (k j : String) (v : V) (m : List (String × V))
      → map_get j (map_set k v m) ≡ (if str_eq k j then some v else map_get j m)
  map_get-map_set k j v [] = refl
  map_get-map_set k j v ((i, w) ∷ m) =
      ground (arith, eq_iff k j, eq_iff i k, eq_iff i j, map_get-map_set k j v m)

  -- A key that was new is gone again when it is deleted.
  pub map_delete-map_set :
      (k : String) (v : V) (m : List (String × V))
      → map_has k m ≡ false
      → map_delete k (map_set k v m) ≡ m
  map_delete-map_set k v [] h = rw (eq_refl k) refl
  map_delete-map_set k v ((j, w) ∷ m) h = elim (Bool-cases (str_eq j k)) [
    | inl t ↦ cc (rw t at h)
    | inr n ↦ rw (n, n) (ap (λ t. (j, w) ∷ t) (map_delete-map_set k v m (rw n at h)))
  ]

  pub map_has-map_set :
      (k : String) (v : V) (m : List (String × V)) → map_has k (map_set k v m) ≡ true
  map_has-map_set k v [] = rw (eq_refl k) refl
  map_has-map_set k v ((j, w) ∷ m) = elim (Bool-cases (str_eq j k)) [
    | inl t ↦ rw (t, eq_refl k) refl
    | inr n ↦ rw (n, n) (map_has-map_set k v m)
  ]

module _ {V : Type 0} (P : String × V → Type 0) where
  pub All-map_set :
      (k : String) (v : V) (m : List (String × V)) → P (k, v) → All P m → All P (map_set k v m)
  All-map_set k v [] p h = (p, tt)
  All-map_set k v ((j, w) ∷ m) p h = elim (Bool-cases (str_eq j k)) [
    | inl t ↦ rw t (p, h.1)
    | inr n ↦ rw n (h.0, All-map_set k v m p h.1)
  ]

  pub All-map_delete : (k : String) (m : List (String × V)) → All P m → All P (map_delete k m)
  All-map_delete k [] h = tt
  All-map_delete k ((j, w) ∷ m) h = elim (Bool-cases (str_eq j k)) [
    | inl t ↦ rw t h.1
    | inr n ↦ rw n (h.0, All-map_delete k m h.1)
  ]

  pub All-map_get :
      (k : String) (v : V) (m : List (String × V)) → All P m → map_get k m ≡ some v → P (k, v)
  All-map_get k v [] h e = cc
  All-map_get k v ((j, w) ∷ m) h e = elim (Bool-cases (str_eq j k)) [
    | inl t ↦ let same : w ≡ v = cc (rw t at e) in rw (← same, ← (eq_iff j k).0 t) h.0
    | inr n ↦ All-map_get k v m h.1 (rw n at e)
  ]
