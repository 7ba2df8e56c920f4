-- ===== src/Routing/Forward.antt =====
-- The way to a destination: `route_for_destination` of src/routing.cpp, and how `sendfile` and
-- `receive` of src/data_routing.cpp find the next hop and open its data port.
pub mod Steps
use distance_vector_routing.Common.{
  ℕ, not, List, [], ◌∷◌, Option, none, some, ◌==◌, if◌then◌else◌, ℤ, is_zero, set,
}
use distance_vector_routing.OrdMap.{at, touch}
use distance_vector_routing.Sockets.{Opened, connect_to}
use distance_vector_routing.Routing.{inf, Router, Route, no_route, Routing}
use distance_vector_routing.Routing.Update.{RouterPointer, find_by_id, with_routers}
use distance_vector_routing.Routing.Timeout.{Network}

-- The id under which the route stands.
unfoldable pub route_key : ℕ → List Router → Option ℕ
route_key ip [] = none
route_key ip (r ∷ rs) = if r.ip == ip then some r.router_id else route_key ip rs

abbrev pub read_route : Option ℕ → Routing → Option Route × Routing
read_route none st = (none, st)
read_route (some k) st = (
  some (at no_route k st.routing_table),
  record st { routing_table = touch no_route k st.routing_table },
)

unfoldable pub route_for_destination : ℕ → Routing → Option Route × Routing
unfolding route_key
route_for_destination ip st = read_route (route_key ip st.rs.routers) st

-- The next hop at an index, with its open descriptor, and the routers, of which it holds that.
abbrev pub NextHop : Type 0
NextHop = Option (ℕ × ℤ) × Routing

abbrev pub keep_open : ℕ → Router → Opened → Routing → NextHop
keep_open i r o st =
    if o.success
    then (
      some (i, o.sock_fd),
      with_routers st (set st.rs.routers i (record r { data_socket_fd = o.sock_fd })),
    )
    else (none, st)

-- `connect_to` writes a local variable here: a failure leaves the router as it was.
abbrev pub open_port : Network → RouterPointer → Routing → NextHop
open_port net none st = (none, st)
open_port net (some (i, r)) st =
    if not (is_zero r.data_socket_fd)
    then (some (i, r.data_socket_fd), st)
    else keep_open i r (connect_to (net.resolve r.ip_str r.data_port) r.data_socket_fd) st

-- The next hop's place in the list, where the route is finite.
abbrev pub hop_of : Option Route → List Router → RouterPointer
hop_of none routers = none
hop_of (some r) routers = if r.cost == inf then none else find_by_id r.next_hop_id routers

abbrev pub id_of : RouterPointer → Option ℕ
id_of none = none
id_of (some (i, r)) = some r.router_id

-- The id of the next hop.
unfoldable pub next_router : ℕ → Routing → Option ℕ
unfolding route_for_destination
next_router ip st = let (r, st') = route_for_destination ip st in id_of (hop_of r st'.rs.routers)

unfoldable pub next_hop_for : Network → ℕ → Routing → NextHop
unfolding route_for_destination
next_hop_for net ip st =
    let (r, st') = route_for_destination ip st in open_port net (hop_of r st'.rs.routers) st'
