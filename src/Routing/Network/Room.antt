-- ===== src/Routing/Network/Room.antt =====
-- How far the costs towards a router can have grown, by the routers that have a route to it.
use distance_vector_routing.Common.{
  ℕ, suc, subst, ◌+◌, ◌*◌, ◌<◌, ◌≤◌, inl, inr, List, [], ◌∷◌, arith, All, length, ltb,
  if◌then◌else◌,
}
use distance_vector_routing.Routing.{inf}
use distance_vector_routing.Routing.Quiet.{link, IsLinked}
use distance_vector_routing.Routing.Network.{Network}
use distance_vector_routing.Routing.Network.Loops.{Has}

-- The routers of the network, and a bound on the cost of its links by which no sum overflows.
pub record IsBounded (net : Network) (IsNode : ℕ → Type 0) (nodes : List ℕ) (max_link : ℕ)
    : Type 0 where
  pub inside : All IsNode nodes
  pub has : (x : ℕ) → IsNode x → Has x nodes
  pub link_le : (a n : ℕ) → IsNode a → IsLinked net a n → link net a n ≤ max_link
  pub fits : max_link * suc (length nodes) < inf

-- One link for each of the routers that have a route, by their costs `f`.
pub reach : ℕ → (ℕ → ℕ) → List ℕ → ℕ
reach c f [] = 0
reach c f (x ∷ xs) = (if ltb (f x) inf then c else 0) + reach c f xs

pub reach-le : (c : ℕ) (f : ℕ → ℕ) (xs : List ℕ) → reach c f xs + c ≤ c * suc (length xs)
unfolding reach
reach-le c f [] = grind arith
reach-le c f (x ∷ xs) = grind (arith, reach-le c f xs)

module _ (c : ℕ) (f g : ℕ → ℕ) (IsNode : ℕ → Type 0) (falls : (x : ℕ) → IsNode x → g x ≤ f x) where
  pub reach_mono : (xs : List ℕ) → All IsNode xs → reach c f xs ≤ reach c g xs
  unfolding reach
  reach_mono [] h = omega arith
  reach_mono (x ∷ xs) h = ground (arith, falls x h.0, reach_mono xs h.1)

  -- A router that gets its first route makes room for one link more.
  pub reach_more :
      (a : ℕ) (xs : List ℕ)
      → All IsNode xs
      → Has a xs
      → inf ≤ f a
      → g a < inf
      → reach c f xs + c ≤ reach c g xs
  unfolding reach
  reach_more a [] h here old new = absurd here
  reach_more a (x ∷ xs) h (inl e) old new =
      let before : inf ≤ f x = subst (λ y. inf ≤ f y) e old in
      let now : g x < inf = subst (λ y. g y < inf) e new in ground (arith, reach_mono xs h.1)
  reach_more a (x ∷ xs) h (inr later) old new =
      ground (arith, falls x h.0, reach_more a xs h.1 later old new)

pub reach_some : (c : ℕ) (f : ℕ → ℕ) (a : ℕ) (xs : List ℕ) → Has a xs → f a < inf → c ≤ reach c f xs
unfolding reach
reach_some c f a [] h small = absurd h
reach_some c f a (x ∷ xs) (inl e) small =
    let now : f x < inf = subst (λ y. f y < inf) e small in ground arith
reach_some c f a (x ∷ xs) (inr later) small = ground (arith, reach_some c f a xs later small)
