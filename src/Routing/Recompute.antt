-- ===== src/Routing/Recompute.antt =====
-- `recompute_routing_table` of src/routing.cpp.
pub mod Best
pub mod Shortest
pub mod Wraps
use distance_vector_routing.Common.{
  ℕ, ◌+◌, ◌%◌, ◌^◌, ◌&&◌, Bool, true, false, not, ◌||◌, List, [], ◌∷◌, Option, none, some, ltb,
  ◌==◌, if◌then◌else◌,
}
use distance_vector_routing.OrdMap.{OrdMap, insert}
use distance_vector_routing.Routing.{
  inf, is_neighbour, is_self, Router, Route, DistanceVector, Routing, get_self,
}
use distance_vector_routing.Routing.Vectors.{cell, touch_cell}

-- The variables of the inner loop, with the distance vectors, which its reads may extend.
pub record Scan : Type 0 where
  pub vectors : OrdMap DistanceVector
  pub min_cost : ℕ
  pub min_next_hop : ℕ

-- `uint16_t cost = self_to_neighbour + neighbour_to_destination`.
abbrev pub path_cost : ℕ → ℕ → ℕ
path_cost to_neighbour to_destination = (to_neighbour + to_destination) % 2 ^ 16

-- Whether neither part of the path is infinite.
abbrev pub is_usable : ℕ → ℕ → Bool
is_usable to_neighbour to_destination = not (to_neighbour == inf) && not (to_destination == inf)

-- The choice between the path found so far and the one through the neighbour `hop`.
unfoldable pub improve : OrdMap DistanceVector → ℕ → ℕ → ℕ → ℕ → ℕ → Scan
improve vectors hop to_neighbour to_destination min_cost min_next_hop =
    if is_usable to_neighbour to_destination && ltb (path_cost to_neighbour to_destination) min_cost
    then record {
      vectors = vectors;
      min_cost = path_cost to_neighbour to_destination;
      min_next_hop = hop;
    }
    else record { vectors = vectors; min_cost = min_cost; min_next_hop = min_next_hop }

-- One round of the inner loop.
unfoldable pub relax : ℕ → ℕ → Router → Scan → Scan
unfolding improve
relax me destination n s =
    let v1 = touch_cell s.vectors me n.router_id in
    let v2 = touch_cell v1 n.router_id destination in
    if is_neighbour n.type
    then improve v2 n.router_id (cell s.vectors me n.router_id) (cell v1 n.router_id destination)
        s.min_cost s.min_next_hop
    else s

unfoldable pub scan : ℕ → ℕ → List Router → Scan → Scan
scan me destination [] s = s
scan me destination (n ∷ ns) s = scan me destination ns (relax me destination n s)

-- The two maps that the outer loop changes.
pub record Tables : Type 0 where
  pub vectors : OrdMap DistanceVector
  pub table : OrdMap Route

abbrev start_scan : OrdMap DistanceVector → Scan
start_scan vectors = record { vectors = vectors; min_cost = inf; min_next_hop = inf }

abbrev store_route : ℕ → OrdMap Route → Scan → Tables
store_route destination table s = record {
  vectors = s.vectors;
  table = insert destination (record { cost = s.min_cost; next_hop_id = s.min_next_hop }) table;
}

-- One round of the outer loop.
unfoldable pub recompute_row : ℕ → List Router → Router → Tables → Tables
recompute_row me routers destination t =
    if is_self destination.type
    then t
    else store_route destination.router_id t.table
        (scan me destination.router_id routers (start_scan t.vectors))

unfoldable pub recompute_rows : ℕ → List Router → List Router → Tables → Tables
recompute_rows me routers [] t = t
recompute_rows me routers (d ∷ ds) t = recompute_rows me routers ds (recompute_row me routers d t)

unfoldable pub any_neighbour : List Router → Bool
any_neighbour [] = false
any_neighbour (r ∷ rs) = is_neighbour r.type || any_neighbour rs

unfoldable pub recompute_with : Routing → ℕ → Routing
recompute_with st me = record st { routing_table = t.table; distance_vectors = t.vectors }
  where
    t : Tables
    t =
        recompute_rows me st.rs.routers st.rs.routers
          (record { vectors = st.distance_vectors; table = st.routing_table })

-- `self` is dereferenced in the inner loop alone, which does so when it meets a neighbour: with no
-- neighbour the id is not used, and a null `self` does no harm.
unfoldable pub recompute_as : Routing → Option Router → Option Routing
unfolding recompute_with any_neighbour
recompute_as st (some me) = some (recompute_with st me.router_id)
recompute_as st none = if any_neighbour st.rs.routers then none else some (recompute_with st 0)

unfoldable pub recompute_routing_table : Routing → Option Routing
unfolding recompute_as
recompute_routing_table st = recompute_as st (get_self st)
