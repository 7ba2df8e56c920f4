-- ===== src/Routing/Shape.antt =====
-- Writes to a router that keep its id and its type: what they leave as it was.
use distance_vector_routing.Common.{
  ℕ, zero, suc, ◌≡◌, refl, ◌∙◌, List, [], ◌∷◌, Option, none, some, inl, inr, arith, ◌==◌,
  Bool-cases, get_elem?, set, get_elem?-set, get_elem?-map, map,
}
use distance_vector_routing.Routing.{Router, self_at}
use distance_vector_routing.Routing.Vectors.{Vectors}
use distance_vector_routing.Routing.Recompute.Best.{
  candidate_cost, best_cost, first_hop, best_route, is_destination,
}

-- Writing the router that `self` points to keeps its id, if the write does.
pub self_at-set :
    (rs : List Router) (p : Option ℕ) (i : ℕ) (src src' me : Router)
    → get_elem? rs i ≡ some src
    → src'.router_id ≡ src.router_id
    → self_at rs p ≡ some me
    → (me' : Router) × (self_at (set rs i src') p ≡ some me') × (me'.router_id ≡ me.router_id)
self_at-set rs none i src src' me h e m = cc
self_at-set rs (some j) i src src' me h e m = elim (Bool-cases (i == j)) [
  | inl same ↦ (src', get_elem?-set rs i j src src' h ∙ rw same, ground arith)
  | inr other ↦ (me, get_elem?-set rs i j src src' h ∙ rw other m, refl)
]

-- A write that keeps a router's id and type changes no best route and no destination.
module _ (i : ℕ) (r r' : Router) (same_id : r'.router_id ≡ r.router_id)
    (same_type : r'.type ≡ r.type) where
  candidate_cost-keep :
      (v : Vectors) (me destination : ℕ)
      → candidate_cost v me destination r' ≡ candidate_cost v me destination r
  unfolding candidate_cost
  candidate_cost-keep v me destination = rw (same_id, same_type)

  best_cost-set :
      (j : ℕ) (v : Vectors) (me destination : ℕ) (ns : List Router)
      → get_elem? ns j ≡ some r
      → best_cost v me destination (set ns j r') ≡ best_cost v me destination ns
  unfolding best_cost
  best_cost-set j v me destination [] h = refl
  best_cost-set zero v me destination (n ∷ ns) h =
      ground (arith, candidate_cost-keep v me destination)
  best_cost-set (suc j) v me destination (n ∷ ns) h = rw (best_cost-set j v me destination ns h)

  first_hop-set :
      (j : ℕ) (v : Vectors) (me destination c : ℕ) (ns : List Router)
      → get_elem? ns j ≡ some r
      → first_hop v me destination c (set ns j r') ≡ first_hop v me destination c ns
  unfolding first_hop
  first_hop-set j v me destination c [] h = refl
  first_hop-set zero v me destination c (n ∷ ns) h =
      ground (arith, candidate_cost-keep v me destination)
  first_hop-set (suc j) v me destination c (n ∷ ns) h = rw (first_hop-set j v me destination c ns h)

  pub best_route-set :
      (v : Vectors) (me destination : ℕ) (ns : List Router)
      → get_elem? ns i ≡ some r
      → best_route v me (set ns i r') destination ≡ best_route v me ns destination
  unfolding best_route
  best_route-set v me destination ns h = rw (
    best_cost-set i v me destination ns h,
    first_hop-set i v me destination (best_cost v me destination ns) ns h,
  )

pub is_destination-set :
    (i : ℕ) (r r' : Router) (k : ℕ) (ns : List Router)
    → r'.router_id ≡ r.router_id
    → r'.type ≡ r.type
    → get_elem? ns i ≡ some r
    → is_destination k (set ns i r') ≡ is_destination k ns
is_destination-set i r r' k [] a b h = refl
is_destination-set zero r r' k (n ∷ ns) a b h = ground arith
is_destination-set (suc i) r r' k (n ∷ ns) a b h = rw (is_destination-set i r r' k ns a b h)

pub self_at-map :
    (f : Router → Router) (rs : List Router) (p : Option ℕ) (me : Router)
    → self_at rs p ≡ some me
    → self_at (map f rs) p ≡ some (f me)
self_at-map f rs none me h = cc
self_at-map f rs (some i) me h = get_elem?-map f rs i me h
