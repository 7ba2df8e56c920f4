-- ===== src/Routing/Init/First.antt =====
-- The routes and the distances that a router has after its first INIT.
use distance_vector_routing.Common.{
  ℕ, zero, suc, ◌≡◌, ◌≢◌, refl, ap, ◌∙◌, ◌+◌, ◌≤◌, ◌&&◌, true, false, List, [], ◌∷◌, some, arith,
  ◌==◌, leb, if◌then◌else◌, get_elem?, All, Bool-cases, inl, inr,
}
use distance_vector_routing.OrdMap.{OrdMap, lookup}
use distance_vector_routing.Routing.{
  inf, RouterType, neighbour, self_router, non_neighbour, is_neighbour, is_self, Router, Route,
  Routing,
}
use distance_vector_routing.Routing.Vectors.{Vectors, cell}
use distance_vector_routing.Routing.Recompute.Best.{candidate_cost}
use distance_vector_routing.Routing.Recompute.Shortest.{Recomputed}
use distance_vector_routing.Routing.Init.{
  Host, init_rows, InitTables, init_links, first_cost, first_route,
}
use distance_vector_routing.Routing.Init.Message.{InitEntry, FitsInit, routers_of}
use distance_vector_routing.Routing.Init.Tables.{
  Distinct, init_rows-cell, init_links-other, init_links-Linked,
}
use distance_vector_routing.Routing.Init.Direct.{OnlyDirect, direct_route, best_route-direct}
use distance_vector_routing.Routing.Init.Listed.{
  Distinct-same, is_destination-listed, is_destination_self,
}

-- Every router has its direct route: a neighbour by its link, any other none; and this router itself
-- is at no cost.
pub record FirstRoutes (routers : List Router) (me : Router) (st : Routing) : Type 0 where
  pub others :
      (m : ℕ) (d : Router)
      → get_elem? routers m ≡ some d
      → is_self d.type ≡ false
      → lookup d.router_id st.routing_table ≡ some (direct_route d)
  pub own :
      lookup me.router_id st.routing_table ≡ some (record { cost = 0; next_hop_id = me.router_id })

-- A neighbour is known by a finite cost.
abbrev pub HasFiniteLink : Router → Type 0
HasFiniteLink r = (r.cost ≤ inf) × ((is_neighbour r.type && leb inf r.cost) ≡ false)

pub routers_of-finite :
    (host : Host) (i : ℕ) (es : List InitEntry)
    → All FitsInit es
    → All HasFiniteLink (routers_of host i es)
routers_of-finite host i [] fits = tt
routers_of-finite host i (e ∷ es) fits =
    ((omega (arith, fits.0.cost_fits), ground arith), routers_of-finite host (i + 1) es fits.1)

finite_at :
    (rs : List Router) (k : ℕ) (r : Router)
    → All HasFiniteLink rs
    → get_elem? rs k ≡ some r
    → HasFiniteLink r
finite_at [] k r h at_k = cc
finite_at (q ∷ rs) zero r h at_k = let same : q ≡ r = cc in rw (← same) (h.0)
finite_at (q ∷ rs) (suc k) r h at_k = finite_at rs k r h.1 at_k

first_cost-neighbour : (t : RouterType) (c : ℕ) → is_neighbour t ≡ true → first_cost t c ≡ c
first_cost-neighbour neighbour c h = refl
first_cost-neighbour self_router c h = cc
first_cost-neighbour non_neighbour c h = cc

is_self-not_neighbour : (t : RouterType) → is_neighbour t ≡ true → is_self t ≡ false
is_self-not_neighbour neighbour h = refl
is_self-not_neighbour self_router h = cc
is_self-not_neighbour non_neighbour h = refl

first_route_self :
    (t : RouterType) (me c : ℕ)
    → is_self t ≡ true
    → first_route t me c ≡ record { cost = 0; next_hop_id = me }
first_route_self neighbour me c h = cc
first_route_self self_router me c h = refl
first_route_self non_neighbour me c h = cc

module _ (routers : List Router) (s : ℕ) (me : Router) (v0 : Vectors) (t0 : OrdMap Route)
    (apart : Distinct routers) (at_s : get_elem? routers s ≡ some me)
    (is_me : is_self me.type ≡ true) (finite : All HasFiniteLink routers) where
  abbrev rows : InitTables
  rows = record { vectors = init_rows routers 0 routers v0; table = t0 }

  abbrev pub first_tables : InitTables
  first_tables = init_links me.router_id routers rows

  neighbour-other :
      (k : ℕ) (n : Router)
      → get_elem? routers k ≡ some n
      → is_neighbour n.type ≡ true
      → me.router_id ≢ n.router_id
  neighbour-other k n at_k near e =
      let same : me ≡ n = Distinct-same routers s k me n apart at_s at_k e in
      let own : is_self n.type ≡ true = rw same at is_me in
      cc (is_self-not_neighbour n.type near, own)

  first_tables-OnlyDirect :
      (m : ℕ) (d : Router)
      → get_elem? routers m ≡ some d
      → OnlyDirect first_tables.vectors me.router_id d.router_id 0 m routers
  unfolding candidate_cost
  first_tables-OnlyDirect m d at_m = record {
    candidate = λ k n at_k. elim (Bool-cases (is_neighbour n.type)) [
      | inr far ↦ rw far
      | inl near ↦
          let l = init_links-Linked me.router_id routers rows k n apart at_k in
          let o : cell first_tables.vectors n.router_id d.router_id
              ≡ (if 0 + k == m then 0 else inf) =
            init_links-other me.router_id routers rows n.router_id d.router_id
              (neighbour-other k n at_k near)
            ∙ init_rows-cell routers 0 routers v0 k m n d apart apart at_k at_m in
          rw (l.cost, first_cost-neighbour n.type n.cost near, o, near)
            (ground (arith, finite_at routers k n finite at_k, near))
    ];
  }

  -- The routes after the recomputation of these tables.
  pub first_tables-routes :
      (st st' : Routing)
      → st.rs.routers ≡ routers
      → st.distance_vectors ≡ first_tables.vectors
      → st.routing_table ≡ first_tables.table
      → Recomputed me.router_id st st'
      → FirstRoutes routers me st'
  first_tables-routes st st' e v t r = record {
    others = λ m d at_m other.
        r.table d.router_id
        ∙ rw (e, v, is_destination-listed routers m d at_m other)
            (ap some (
              best_route-direct first_tables.vectors me.router_id m routers d
                (first_tables-OnlyDirect m d at_m) at_m
                (λ near. ground (arith, finite_at routers m d finite at_m, near))
                (finite_at routers m d finite at_m).0));
    own =
        r.table me.router_id
        ∙ rw (e, t, is_destination_self routers s me apart at_s is_me)
            ((init_links-Linked me.router_id routers rows s me apart at_s).route
              ∙ ap some (first_route_self me.type me.router_id me.cost is_me));
  }

-- The distances: this router's own row holds its links, and any other row nothing but the way to
-- itself.
pub record FirstDistances (routers : List Router) (me : Router) (v : Vectors) : Type 0 where
  pub own_row :
      (k : ℕ) (r : Router)
      → get_elem? routers k ≡ some r
      → cell v me.router_id r.router_id ≡ first_cost r.type r.cost
  pub other_rows :
      (k m : ℕ) (n d : Router)
      → get_elem? routers k ≡ some n
      → get_elem? routers m ≡ some d
      → me.router_id ≢ n.router_id
      → cell v n.router_id d.router_id ≡ (if k == m then 0 else inf)
