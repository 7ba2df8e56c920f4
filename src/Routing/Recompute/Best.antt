-- ===== src/Routing/Recompute/Best.antt =====
-- The Bellman-Ford equation, which `recompute_routing_table` is to solve: for a destination, the
-- least cost over all neighbours and the first neighbour that has it.
use Prim.Native.Nat.{min}
use native.Mathlib.Decide.{ℕ_discrete}
use distance_vector_routing.Common.{
  ℕ, ◌≡◌, refl, ◌≤◌, zero, suc, some, get_elem?, ◌&&◌, ◌||◌, not, Bool, false, List, [], ◌∷◌, arith,
  ◌==◌, if◌then◌else◌,
}
use distance_vector_routing.Routing.{inf, is_neighbour, is_self, Router, Route}
use distance_vector_routing.Routing.Vectors.{Vectors, cell}
use distance_vector_routing.Routing.Recompute.{path_cost, is_usable}

-- Two sets of vectors in which every read gives the same.
abbrev pub SameCells : Vectors → Vectors → Type 0
SameCells v w = (x y : ℕ) → cell v x y ≡ cell w x y

-- The cost of the way through the router `n`: infinite unless `n` is a neighbour and both parts of
-- the way are finite.
unfoldable pub candidate_cost : Vectors → ℕ → ℕ → Router → ℕ
candidate_cost v me destination n =
    if is_neighbour n.type && is_usable (cell v me n.router_id) (cell v n.router_id destination)
    then path_cost (cell v me n.router_id) (cell v n.router_id destination)
    else inf

unfoldable pub best_cost : Vectors → ℕ → ℕ → List Router → ℕ
best_cost v me destination [] = inf
best_cost v me destination (n ∷ ns) =
    min (candidate_cost v me destination n) (best_cost v me destination ns)

-- The first router with the cost `c`.
unfoldable pub first_hop : Vectors → ℕ → ℕ → ℕ → List Router → ℕ
first_hop v me destination c [] = inf
first_hop v me destination c (n ∷ ns) =
    if candidate_cost v me destination n == c then n.router_id else first_hop v me destination c ns

unfoldable pub best_route : Vectors → ℕ → List Router → ℕ → Route
unfolding best_cost first_hop
best_route v me routers destination =
    let c = best_cost v me destination routers in
    record {
      cost = c;
      next_hop_id = if c == inf then inf else first_hop v me destination c routers;
    }

pub best_cost-le :
    (v : Vectors) (me destination : ℕ) (ns : List Router) → best_cost v me destination ns ≤ inf
unfolding best_cost
best_cost-le v me destination [] = omega arith
best_cost-le v me destination (n ∷ ns) = omega (arith, best_cost-le v me destination ns)

-- The best route depends on the vectors through what is read from them alone.
module _ (v w : Vectors) (me destination : ℕ) (same : SameCells v w) where
  candidate_cost-same :
      (n : Router) → candidate_cost v me destination n ≡ candidate_cost w me destination n
  unfolding candidate_cost
  candidate_cost-same n = rw (same me n.router_id, same n.router_id destination)

  best_cost-same :
      (ns : List Router) → best_cost v me destination ns ≡ best_cost w me destination ns
  unfolding best_cost
  best_cost-same [] = refl
  best_cost-same (n ∷ ns) = rw (candidate_cost-same n, best_cost-same ns)

  first_hop-same :
      (c : ℕ) (ns : List Router) → first_hop v me destination c ns ≡ first_hop w me destination c ns
  unfolding first_hop
  first_hop-same c [] = refl
  first_hop-same c (n ∷ ns) = rw (candidate_cost-same n, first_hop-same c ns)

  pub best_route-same :
      (routers : List Router)
      → best_route v me routers destination ≡ best_route w me routers destination
  unfolding best_route
  best_route-same routers =
      rw (best_cost-same routers, first_hop-same (best_cost w me destination routers) routers)

-- No way is shorter than the best.
pub best_cost-le_candidate :
    (v : Vectors) (me destination : ℕ) (ns : List Router) (j : ℕ) (n : Router)
    → get_elem? ns j ≡ some n
    → best_cost v me destination ns ≤ candidate_cost v me destination n
unfolding best_cost
best_cost-le_candidate v me destination [] j n h = cc
best_cost-le_candidate v me destination (a ∷ ns) zero n h = ground arith
best_cost-le_candidate v me destination (a ∷ ns) (suc j) n h =
    omega (arith, best_cost-le_candidate v me destination ns j n h)

-- The first router with a cost that some router has.
pub first_hop-candidate :
    (v : Vectors) (me destination c : ℕ) (ns : List Router) (j : ℕ) (n : Router)
    → get_elem? ns j ≡ some n
    → candidate_cost v me destination n ≡ c
    → (i : ℕ) × (q : Router) × (get_elem? ns i ≡ some q)
      × (candidate_cost v me destination q ≡ c)
      × (first_hop v me destination c ns ≡ q.router_id)
unfolding first_hop
first_hop-candidate v me destination c [] j n h e = cc
first_hop-candidate v me destination c (a ∷ ns) zero n h e =
    let same : candidate_cost v me destination a ≡ c = ground (arith, h, e) in
    (zero, a, refl, same, ground (arith, same))
first_hop-candidate v me destination c (a ∷ ns) (suc j) n h e =
    elim (ℕ_discrete (candidate_cost v me destination a) c) [
      | yes same ↦ (zero, a, refl, same, ground (arith, same))
      | no other ↦
          let (i, q, at_i, found, first) = first_hop-candidate v me destination c ns j n h e in
          (suc i, q, at_i, found, ground (arith, other, first))
    ]

-- Whether a destination with this id stands in the list.
abbrev pub is_destination : ℕ → List Router → Bool
is_destination k [] = false
is_destination k (d ∷ ds) = not (is_self d.type) && d.router_id == k || is_destination k ds
