-- ===== src/Routing/Quiet.antt =====
-- A network of routers, each with its own state, in which nothing changes any more.
pub mod Shortest
mod Tests
use distance_vector_routing.Common.{ℕ, ◌≡◌, ◌≢◌, ◌+◌, ◌^◌, ◌<◌, ◌≤◌, ◌⊎◌, true, some, get_elem?}
use distance_vector_routing.OrdMap.{at}
use distance_vector_routing.Routing.{inf, is_neighbour, Router, Routing, no_route, get_self}
use distance_vector_routing.Routing.Vectors.{cell}
use distance_vector_routing.Routing.Recompute.{recompute_routing_table}
use distance_vector_routing.Routing.Recompute.Best.{is_destination}

-- The cost of the route to a destination.
abbrev pub route_cost : Routing → ℕ → ℕ
route_cost st d = (at no_route d st.routing_table).cost

-- The cost of the link from the router `a` to one of its neighbours.
abbrev pub link : (ℕ → Routing) → ℕ → ℕ → ℕ
link node a n = cell (node a).distance_vectors a n

-- The router `n` stands in the list of `a` as a neighbour, by a link that is up.
pub record IsLinked (node : ℕ → Routing) (a n : ℕ) : Type 0 where
  pub index : ℕ
  pub router : Router
  pub listed : get_elem? (node a).rs.routers index ≡ some router
  pub is_neighbour : is_neighbour router.type ≡ true
  pub id : router.router_id ≡ n
  pub up : link node a n ≢ inf

-- A way through the network, and the sum of its links.
pub data Walk (node : ℕ → Routing) (d : ℕ) : ℕ → ℕ → Type 0 where
  arrived : (a total : ℕ) → a ≡ d → total ≡ 0 → Walk node d a total
  hop :
      (a n rest total : ℕ)
      → IsLinked node a n
      → Walk node d n rest
      → total ≡ link node a n + rest
      → Walk node d a total

-- The cost `c` is that of a shortest way from `a` to `d`: no way costs less, and where it is finite,
-- some way costs as much.
pub record IsShortest (node : ℕ → Routing) (d a c : ℕ) : Type 0 where
  pub least : (total : ℕ) → Walk node d a total → c ≤ total
  pub reached : (c ≡ inf) ⊎ Walk node d a c

-- Every router of the network knows itself and the others. It was told by each neighbour the costs
-- of the routes that the neighbour has, and a recomputation would change no cost. Links cost
-- something, and the sums of finite costs fit a `uint16_t`.
pub record IsQuiet (node : ℕ → Routing) (IsNode : ℕ → Type 0) : Type 0 where
  pub self : (a : ℕ) → IsNode a → (me : Router) × (get_self (node a) ≡ some me) × (me.router_id ≡ a)
  pub own : (a : ℕ) → IsNode a → route_cost (node a) a ≡ 0
  pub others : (a d : ℕ) → IsNode a → IsNode d → a ≢ d → is_destination d (node a).rs.routers ≡ true
  pub inside : (a n : ℕ) → IsNode a → IsLinked node a n → IsNode n
  pub told :
      (a n d : ℕ)
      → IsNode a
      → IsNode d
      → IsLinked node a n
      → cell (node a).distance_vectors n d ≡ route_cost (node n) d
  pub settled :
      (a d : ℕ) (st : Routing)
      → IsNode a
      → IsNode d
      → recompute_routing_table (node a) ≡ some st
      → route_cost st d ≡ route_cost (node a) d
  pub positive : (a n : ℕ) → IsNode a → IsLinked node a n → 0 < link node a n
  pub fits :
      (a n d : ℕ)
      → IsNode a
      → IsNode d
      → IsLinked node a n
      → route_cost (node n) d ≢ inf
      → link node a n + route_cost (node n) d < 2 ^ 16
