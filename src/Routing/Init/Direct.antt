-- ===== src/Routing/Init/Direct.antt =====
-- The best routes while only the links of this router are known.
use distance_vector_routing.Common.{
  ℕ, zero, suc, ◌≡◌, refl, ◌+◌, ◌≤◌, ◌<◌, ◌&&◌, true, false, List, [], ◌∷◌, some, arith, ◌==◌,
  if◌then◌else◌, get_elem?, Bool-cases, inl, inr,
}
use distance_vector_routing.Routing.{inf, is_neighbour, Router, Route}
use distance_vector_routing.Routing.Vectors.{Vectors}
use distance_vector_routing.Routing.Recompute.Best.{
  candidate_cost, best_cost, first_hop, best_route,
}

-- Of a list from index `i` on, the router at `m` alone has a finite candidate, if it is a neighbour.
pub record OnlyDirect (v : Vectors) (me y i m : ℕ) (ns : List Router) : Type 0 where
  pub candidate :
      (k : ℕ) (n : Router)
      → get_elem? ns k ≡ some n
      → candidate_cost v me y n ≡ (if is_neighbour n.type && i + k == m then n.cost else inf)

OnlyDirect-tail :
    (v : Vectors) (me y i m : ℕ) (n : Router) (ns : List Router)
    → OnlyDirect v me y i m (n ∷ ns)
    → OnlyDirect v me y (i + 1) m ns
OnlyDirect-tail v me y i m n ns h = record {
  candidate = λ k q at_k.
      let e : i + suc k ≡ i + 1 + k = omega arith in rw e at (h.candidate (suc k) q at_k);
}

best_cost-past :
    (v : Vectors) (me y i m : ℕ) (ns : List Router)
    → OnlyDirect v me y i m ns
    → m < i
    → best_cost v me y ns ≡ inf
unfolding best_cost
best_cost-past v me y i m [] h past = refl
best_cost-past v me y i m (n ∷ ns) h past = ground (
  arith,
  h.candidate 0 n refl,
  best_cost-past v me y (i + 1) m ns (OnlyDirect-tail v me y i m n ns h),
)

best_cost-direct :
    (v : Vectors) (me y i m k : ℕ) (ns : List Router) (d : Router)
    → OnlyDirect v me y i m ns
    → i + k ≡ m
    → get_elem? ns k ≡ some d
    → d.cost ≤ inf
    → best_cost v me y ns ≡ (if is_neighbour d.type then d.cost else inf)
unfolding best_cost
best_cost-direct v me y i m k [] d h e at_k small = cc
best_cost-direct v me y i m zero (n ∷ ns) d h e at_k small = ground (
  arith,
  h.candidate 0 n refl,
  best_cost-past v me y (i + 1) m ns (OnlyDirect-tail v me y i m n ns h),
)
best_cost-direct v me y i m (suc k) (n ∷ ns) d h e at_k small = ground (
  arith,
  h.candidate 0 n refl,
  best_cost-direct v me y (i + 1) m k ns d (OnlyDirect-tail v me y i m n ns h) (omega arith) at_k
      small,
)

first_hop-direct :
    (v : Vectors) (me y i m k : ℕ) (ns : List Router) (d : Router)
    → OnlyDirect v me y i m ns
    → i + k ≡ m
    → get_elem? ns k ≡ some d
    → is_neighbour d.type ≡ true
    → d.cost < inf
    → first_hop v me y d.cost ns ≡ d.router_id
unfolding first_hop
first_hop-direct v me y i m k [] d h e at_k near small = cc
first_hop-direct v me y i m zero (n ∷ ns) d h e at_k near small =
    ground (arith, h.candidate 0 n refl)
first_hop-direct v me y i m (suc k) (n ∷ ns) d h e at_k near small = ground (
  arith,
  h.candidate 0 n refl,
  first_hop-direct v me y (i + 1) m k ns d (OnlyDirect-tail v me y i m n ns h) (omega arith) at_k
      near small,
)

-- The direct route to a router: its link, if it is a neighbour.
abbrev pub direct_route : Router → Route
direct_route d =
    if is_neighbour d.type
    then record { cost = d.cost; next_hop_id = d.router_id }
    else record { cost = inf; next_hop_id = inf }

pub best_route-direct :
    (v : Vectors) (me m : ℕ) (ns : List Router) (d : Router)
    → OnlyDirect v me d.router_id 0 m ns
    → get_elem? ns m ≡ some d
    → (is_neighbour d.type ≡ true → d.cost < inf)
    → d.cost ≤ inf
    → best_route v me ns d.router_id ≡ direct_route d
unfolding best_route
best_route-direct v me m ns d h at_m finite small =
    let cost = best_cost-direct v me d.router_id 0 m m ns d h (omega arith) at_m small in
    elim (Bool-cases (is_neighbour d.type)) [
      | inr far ↦ rw (cost, far)
      | inl near ↦
          let short : (d.cost == inf) ≡ false = ground (arith, finite near) in
          rw (
            cost,
            near,
            short,
            first_hop-direct v me d.router_id 0 m m ns d h (omega arith) at_m near (finite near),
          )
    ]
