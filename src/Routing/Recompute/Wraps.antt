-- ===== src/Routing/Recompute/Wraps.antt =====
-- Where the sum of two costs does not fit its 16 bits.
use distance_vector_routing.Common.{ℕ, ◌≡◌, ◌∙◌, ◌+◌, ◌^◌, ◌<◌, ◌≤◌, true, some, arith, get_elem?}
use distance_vector_routing.OrdMap.{lookup}
use distance_vector_routing.Routing.{inf, is_neighbour, Router, Route, Routing, get_self}
use distance_vector_routing.Routing.Vectors.{Vectors, cell}
use distance_vector_routing.Routing.Recompute.{recompute_routing_table}
use distance_vector_routing.Routing.Recompute.Best.{
  candidate_cost, best_route, best_cost-le_candidate, is_destination,
}
use distance_vector_routing.Routing.Recompute.Shortest.{recompute-Recomputed}

-- The way through a neighbour, as it is counted, costs 2 ^ 16 less than it does.
candidate_cost-wraps :
    (v : Vectors) (me d : ℕ) (n : Router)
    → is_neighbour n.type ≡ true
    → cell v me n.router_id < inf
    → cell v n.router_id d < inf
    → 2 ^ 16 ≤ cell v me n.router_id + cell v n.router_id d
    → candidate_cost v me d n + 2 ^ 16 ≡ cell v me n.router_id + cell v n.router_id d
unfolding candidate_cost
candidate_cost-wraps v me d n near up known large = ground (arith, near)

-- Where the link to a neighbour and the neighbour's distance to a router are finite, and together cost
-- 2 ^ 16 or more, the route to that router costs, after recomputation, at least 2 ^ 16 less than the
-- way through the neighbour does.
pub recompute-wraps :
    (st : Routing) (me : Router) (i : ℕ) (n : Router) (d : ℕ)
    → get_self st ≡ some me
    → get_elem? st.rs.routers i ≡ some n
    → is_neighbour n.type ≡ true
    → is_destination d st.rs.routers ≡ true
    → cell st.distance_vectors me.router_id n.router_id < inf
    → cell st.distance_vectors n.router_id d < inf
    → 2 ^ 16
      ≤ cell st.distance_vectors me.router_id n.router_id + cell st.distance_vectors n.router_id d
    → (st' : Routing) × (r : Route) × (recompute_routing_table st ≡ some st')
      × (lookup d st'.routing_table ≡ some r)
      × (r.cost + 2 ^ 16
          ≤ cell st.distance_vectors me.router_id n.router_id
            + cell st.distance_vectors n.router_id d)
unfolding best_route
recompute-wraps st me i n d is_me at_i near dest up known large =
    let v = st.distance_vectors in
    let (st', run, r) = recompute-Recomputed st me is_me in
    (
      st',
      best_route v me.router_id st.rs.routers d,
      run,
      r.table d ∙ rw dest,
      omega (
        arith,
        best_cost-le_candidate v me.router_id d st.rs.routers i n at_i,
        candidate_cost-wraps v me.router_id d n near up known large,
      ),
    )
