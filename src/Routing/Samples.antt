-- ===== src/Routing/Samples.antt =====
-- A network of three routers, seen by the first: router 2 at cost 7 and router 3 at cost 2.
use distance_vector_routing.Common.{ℕ, ◌+◌, [], ◌∷◌, some, pos, true, none}
use distance_vector_routing.OrdMap.{OrdMap}
use distance_vector_routing.Routing.{
  RouterType, neighbour, self_router, active, Timeval, Router, Route, DistanceVector, Routing,
}
use distance_vector_routing.Routing.Timeout.{Network}

abbrev pub at_second : ℕ → Timeval
at_second s = record { tv_sec = s; tv_usec = 0 }

abbrev pub router : ℕ → ℕ → RouterType → Router
router id cost type = record {
  router_id = id;
  router_port = 4000 + id;
  data_port = 5000 + id;
  cost = cost;
  ip = 167772160 + id;
  ip_str = "10.0.0.1";
  type = type;
  status = active;
  last_update = at_second 100;
  data_socket_fd = pos 0;
}

abbrev pub first : Router
first = router 1 0 self_router

abbrev pub second : Router
second = router 2 7 neighbour

abbrev pub third : Router
third = router 3 2 neighbour

abbrev pub vectors : OrdMap DistanceVector
vectors =
    (1, (1, 0) ∷ (2, 7) ∷ (3, 2) ∷ [])
    ∷ (2, (1, 7) ∷ (2, 0) ∷ (3, 1) ∷ [])
    ∷ (3, (1, 2) ∷ (2, 1) ∷ (3, 0) ∷ [])
    ∷ []

abbrev pub table : OrdMap Route
table =
    (1, record { cost = 0; next_hop_id = 1 })
    ∷ (2, record { cost = 3; next_hop_id = 3 })
    ∷ (3, record { cost = 2; next_hop_id = 3 })
    ∷ []

-- Set up with an interval of 2 seconds.
abbrev pub sample : Routing
sample = record {
  self = some 0;
  rs = record { router_count = 3; update_interval = 2; routers = first ∷ second ∷ third ∷ [] };
  update_counter = 0;
  routing_table = table;
  distance_vectors = vectors;
}

-- A network in which every datagram leaves and no address is found.
abbrev pub network : Network
network = record { resolve = λ ip port. none; sends = λ ip port. true }
