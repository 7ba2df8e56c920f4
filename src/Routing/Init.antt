-- ===== src/Routing/Init.antt =====
-- `parse_init` of src/routing.cpp: the message that tells a router of itself and of all others.
pub mod Message
pub mod Tables
pub mod Direct
pub mod Listed
pub mod First
pub mod Ready
mod Tests
use Prim.Native.String.{String}
use text.Mathlib.Text.{◌==◌ as str_eq}
use distance_vector_routing.Common.{
  ℕ, zero, suc, ◌+◌, ◌&&◌, ◌++◌, List, [], ◌∷◌, Option, some, ◌>>=◌, leb, ◌==◌, if◌then◌else◌, pos,
}
use distance_vector_routing.OrdMap.{OrdMap, insert}
use distance_vector_routing.Bytes.{ntohui16, toui32}
use distance_vector_routing.Routing.{
  inf, RouterType, neighbour, self_router, non_neighbour, initialized, is_self, Timeval, Router,
  Routers, Route, Routing, DistanceVector, self_at,
}
use distance_vector_routing.Routing.Vectors.{set_cell}
use distance_vector_routing.Routing.Recompute.{recompute_routing_table}

-- What the host tells the program: its address, the text of an address, and the clock, read for the
-- router at an index. `stale` is what an unset `last_update` holds.
pub record Host : Type 0 where
  pub primary_ip : String
  pub inet_ntoa : ℕ → String
  pub clock : ℕ → Timeval
  pub stale : Timeval

unfoldable pub classify : Host → ℕ → ℕ → RouterType
classify host cost ip =
    if leb inf cost
    then non_neighbour
    else if cost == 0 && str_eq (host.inet_ntoa ip) host.primary_ip
    then self_router
    else neighbour

-- The clock is read for a neighbour alone.
abbrev pub first_update : Host → ℕ → RouterType → Timeval
first_update host i neighbour = host.clock i
first_update host i self_router = host.stale
first_update host i non_neighbour = host.stale

-- The router at index `i`, with the offset behind it.
unfoldable pub read_router : Host → List ℕ → ℕ → ℕ → Option (Router × ℕ)
unfolding classify
read_router host buffer i offset = do
  (router_id, o1) ← ntohui16 buffer offset
  (router_port, o2) ← ntohui16 buffer o1
  (data_port, o3) ← ntohui16 buffer o2
  (cost, o4) ← ntohui16 buffer o3
  (ip, o5) ← toui32 buffer o4
  let type = classify host cost ip
  some (
    record {
      router_id = router_id;
      router_port = router_port;
      data_port = data_port;
      cost = cost;
      ip = ip;
      ip_str = host.inet_ntoa ip;
      type = type;
      status = initialized;
      last_update = first_update host i type;
      data_socket_fd = pos 0;
    },
    o5,
  )

-- The loop from index `i` on, with `n` rounds left.
unfoldable pub read_routers : Host → List ℕ → ℕ → ℕ → ℕ → Option (List Router)
unfolding read_router
read_routers host buffer zero i offset = some []
read_routers host buffer (suc n) i offset = do
  (r, offset') ← read_router host buffer i offset
  rest ← read_routers host buffer n (i + 1) offset'
  some (r ∷ rest)

-- The last router of type SELF counts.
unfoldable pub find_self : ℕ → Option ℕ → List Router → Option ℕ
find_self i self [] = self
find_self i self (r ∷ rs) = find_self (i + 1) (if is_self r.type then some i else self) rs

abbrev Vectors : Type 0
Vectors = OrdMap DistanceVector

-- 0 on the diagonal, which is told by the indices, and infinity elsewhere.
unfoldable pub init_row : ℕ → ℕ → ℕ → List Router → Vectors → Vectors
init_row i from j [] v = v
init_row i from j (r ∷ rs) v =
    init_row i from (j + 1) rs (set_cell v from r.router_id (if i == j then 0 else inf))

unfoldable pub init_rows : List Router → ℕ → List Router → Vectors → Vectors
unfolding init_row
init_rows routers i [] v = v
init_rows routers i (r ∷ rs) v = init_rows routers (i + 1) rs (init_row i r.router_id 0 routers v)

pub record InitTables : Type 0 where
  pub vectors : Vectors
  pub table : OrdMap Route

-- The distance to a router and the route to it, by its type.
abbrev pub first_cost : RouterType → ℕ → ℕ
first_cost neighbour cost = cost
first_cost self_router cost = 0
first_cost non_neighbour cost = inf

abbrev pub first_route : RouterType → ℕ → ℕ → Route
first_route neighbour me cost = record { cost = cost; next_hop_id = me }
first_route self_router me cost = record { cost = 0; next_hop_id = me }
first_route non_neighbour me cost = record { cost = inf; next_hop_id = inf }

unfoldable pub init_links : ℕ → List Router → InitTables → InitTables
init_links me [] t = t
init_links me (r ∷ rs) t = init_links me rs (record {
  vectors = set_cell t.vectors me r.router_id (first_cost r.type r.cost);
  table = insert r.router_id (first_route r.type me r.cost) t.table;
})

-- The last loop dereferences `self` in each round.
unfoldable pub init_tables : List Router → Option ℕ → InitTables → Option InitTables
unfolding init_links
init_tables [] self t = some t
init_tables (r ∷ rs) self t = do
  me ← self_at (r ∷ rs) self
  some (init_links me.router_id (r ∷ rs) t)

unfoldable pub parse_routers : Routers → Option ℕ → List Router → Routing → Option Routing
unfolding init_rows init_tables
parse_routers rs self routers st = do
  t ← init_tables routers self (record {
    vectors = init_rows routers 0 routers st.distance_vectors;
    table = st.routing_table;
  })
  recompute_routing_table
      (record st { self = self; rs = rs; distance_vectors = t.vectors; routing_table = t.table })

unfoldable pub parse_init : Host → List ℕ → Routing → Option Routing
unfolding read_routers find_self parse_routers
parse_init host buffer st = do
  (router_count, o1) ← ntohui16 buffer 0
  (update_interval, o2) ← ntohui16 buffer o1
  read ← read_routers host buffer router_count 0 o2
  let routers = st.rs.routers ++ read
  let rs : Routers = record {
    router_count = router_count;
    update_interval = update_interval;
    routers = routers;
  }
  parse_routers rs (find_self 0 st.self routers) routers st
