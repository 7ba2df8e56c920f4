-- ===== src/OrdMap.antt =====
-- `std::map` with integer keys, as the source uses it: an association list in the order of the keys,
-- so that it is also what an iterator walks over.
use distance_vector_routing.Common.{
  ℕ, ◌≡◌, refl, List, [], ◌∷◌, Option, none, some, arith, ltb, ◌==◌, if◌then◌else◌,
}

abbrev pub OrdMap {ℓ} : Type ℓ → Type ℓ
OrdMap V = List (ℕ × V)

module _ {ℓ} {V : Type ℓ} where
  unfoldable pub lookup : ℕ → OrdMap V → Option V
  lookup k [] = none
  lookup k ((j, v) ∷ m) = if j == k then some v else lookup k m

  -- `m[k] = v`.
  unfoldable pub insert : ℕ → V → OrdMap V → OrdMap V
  insert k v [] = (k, v) ∷ []
  insert k v ((j, w) ∷ m) =
      if ltb k j then (k, v) ∷ (j, w) ∷ m else if j == k then (k, v) ∷ m else (j, w) ∷ insert k v m

  abbrev or_default : V → Option V → V
  or_default d none = d
  or_default d (some v) = v

  -- The value that `m[k]` refers to: where the key is missing, the default `d` of the type.
  unfoldable pub at : V → ℕ → OrdMap V → V
  unfolding lookup
  at d k m = or_default d (lookup k m)

  abbrev or_insert : V → ℕ → OrdMap V → Option V → OrdMap V
  or_insert d k m none = insert k d m
  or_insert d k m (some v) = m

  -- The map after `m[k]` is read: `operator[]` inserts the default where the key is missing.
  unfoldable pub touch : V → ℕ → OrdMap V → OrdMap V
  unfolding lookup insert
  touch d k m = or_insert d k m (lookup k m)

  pub lookup-insert :
      (j k : ℕ) (v : V) (m : OrdMap V)
      → lookup j (insert k v m) ≡ (if k == j then some v else lookup j m)
  unfolding lookup insert
  lookup-insert j k v [] = refl
  lookup-insert j k v ((i, w) ∷ m) = ground (arith, lookup-insert j k v m)

  pub at-insert :
      (d : V) (j k : ℕ) (v : V) (m : OrdMap V)
      → at d j (insert k v m) ≡ (if k == j then v else at d j m)
  unfolding at
  at-insert d j k v m = ground (arith, lookup-insert j k v m)

  pub at-nil : (d : V) (k : ℕ) → at d k [] ≡ d
  unfolding at lookup
  at-nil d k = refl

  -- Reading a missing key changes no value that can be read.
  pub at-touch : (d : V) (j k : ℕ) (m : OrdMap V) → at d j (touch d k m) ≡ at d j m
  unfolding at touch
  at-touch d j k m = ground (arith, lookup-insert j k d m)
