-- ===== src/Routing/Network/Closer.antt =====
-- The routers whose routes to a destination cost less than some cost.
use distance_vector_routing.Common.{
  ℕ, ◌+◌, ◌<◌, ◌≤◌, subst, inl, inr, List, [], ◌∷◌, arith, length, ltb, if◌then◌else◌,
}
use distance_vector_routing.Routing.Network.Loops.{Has}

-- How many routers have a route that costs less than `c`, by their costs `f`.
unfoldable pub closer : (ℕ → ℕ) → ℕ → List ℕ → ℕ
closer f c [] = 0
closer f c (x ∷ xs) = (if ltb (f x) c then 1 else 0) + closer f c xs

closer_mono : (f : ℕ → ℕ) (b c : ℕ) (xs : List ℕ) → b ≤ c → closer f b xs ≤ closer f c xs
unfolding closer
closer_mono f b c [] h = omega arith
closer_mono f b c (x ∷ xs) h = ground (arith, closer_mono f b c xs h)

pub closer-lt :
    (f : ℕ → ℕ) (c n : ℕ) (xs : List ℕ) → Has n xs → f n < c → closer f (f n) xs < closer f c xs
unfolding closer
closer-lt f c n [] h small = absurd h
closer-lt f c n (x ∷ xs) (inl e) small =
    subst (λ y. closer f (f n) (y ∷ xs) < closer f c (y ∷ xs)) e
      (ground (arith, closer_mono f (f n) c xs (omega arith)))
closer-lt f c n (x ∷ xs) (inr later) small = ground (arith, closer-lt f c n xs later small)

closer-le : (f : ℕ → ℕ) (c : ℕ) (xs : List ℕ) → closer f c xs ≤ length xs
unfolding closer
closer-le f c [] = omega arith
closer-le f c (x ∷ xs) = ground (arith, closer-le f c xs)

-- The router itself does not count.
pub closer-lt_length : (f : ℕ → ℕ) (n : ℕ) (xs : List ℕ) → Has n xs → closer f (f n) xs < length xs
unfolding closer
closer-lt_length f n [] h = absurd h
closer-lt_length f n (x ∷ xs) (inl e) =
    subst (λ y. closer f (f n) (y ∷ xs) < length (y ∷ xs)) e (ground (arith, closer-le f (f n) xs))
closer-lt_length f n (x ∷ xs) (inr later) = ground (arith, closer-lt_length f n xs later)
