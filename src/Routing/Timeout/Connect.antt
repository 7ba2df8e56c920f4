-- ===== src/Routing/Timeout/Connect.antt =====
-- The attempts of `connect_data_ports` of src/routing.cpp.
use mathlib.Core.Path.{ap₂}
use distance_vector_routing.Common.{◌≡◌, refl, ap, List, [], ◌∷◌, map, some, arith, All}
use distance_vector_routing.Sockets.{Attempt}
use distance_vector_routing.Sockets.Walk.{NonZero, connect_to-nonzero}
use distance_vector_routing.Routing.{Router, Routing}
use distance_vector_routing.Routing.Update.{with_routers}
use distance_vector_routing.Routing.Timeout.{Network, connect_router, connect_data_ports}

-- `getaddrinfo` finds an address for the data port of the router, and no call of `socket` returns 0.
pub record Resolves (net : Network) (r : Router) : Type 0 where
  pub first : Attempt
  pub others : List Attempt
  pub found : net.resolve r.ip_str r.data_port ≡ some (first ∷ others)
  pub nonzero : All NonZero (first ∷ others)

connect_router-twice :
    (net later : Network) (r : Router)
    → Resolves net r
    → connect_router later (connect_router net r) ≡ connect_router net r
unfolding connect_router
connect_router-twice net later r h =
    ground (arith, h.found, connect_to-nonzero h.first h.others r.data_socket_fd h.nonzero)

connect_routers-twice :
    (net later : Network) (rs : List Router)
    → All (Resolves net) rs
    → map (connect_router later) (map (connect_router net) rs) ≡ map (connect_router net) rs
connect_routers-twice net later [] h = refl
connect_routers-twice net later (r ∷ rs) h =
    ap₂ ◌∷◌ (connect_router-twice net later r h.0) (connect_routers-twice net later rs h.1)

-- Where an address is found for every data port, the first call of `connect_data_ports` is the only
-- one that does anything: a later call changes nothing, whatever the network then answers, even for
-- a router to which every attempt of the first call failed.
pub connect_data_ports-twice :
    (net later : Network) (st : Routing)
    → All (Resolves net) st.rs.routers
    → connect_data_ports later (connect_data_ports net st) ≡ connect_data_ports net st
unfolding connect_data_ports
connect_data_ports-twice net later st h =
    ap (with_routers st) (connect_routers-twice net later st.rs.routers h)
