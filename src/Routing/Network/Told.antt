-- ===== src/Routing/Network/Told.antt =====
-- The line of three routers, as the controller's INIT told each of them.
use distance_vector_routing.Common.{
  ℕ, ◌≡◌, refl, ◌+◌, ◌∷◌, [], List, All, ◌<◌, none, some, get_elem?, arith,
}
use distance_vector_routing.OrdMap.{lookup, at, touch, insert}
use distance_vector_routing.Routing.{Routing}
use distance_vector_routing.Routing.Vectors.{row, cell, touch_cell, set_cell}
use distance_vector_routing.Routing.Samples.{at_second}
use distance_vector_routing.Routing.Init.{
  Host, classify, read_router, read_routers, find_self, init_row, init_rows, init_links,
  init_tables, parse_routers, parse_init,
}
use distance_vector_routing.Routing.Recompute.{
  improve, relax, scan, recompute_row, recompute_rows, any_neighbour, recompute_with, recompute_as,
  recompute_routing_table,
}
use distance_vector_routing.Bytes.{ntohui16, toui32, load16, load32, htons, ntohs}
use distance_vector_routing.Routing.Init.Message.{InitEntry, FitsInit, init_message, routers_of}
use distance_vector_routing.Routing.Init.Tables.{Distinct}
use distance_vector_routing.Routing.Network.Started.{IsStarted}
use distance_vector_routing.Routing.Network.Line.{
  line, seen, ip_of, text_of, cost_at, IsNode, all_nodes,
}

abbrev host_of : ℕ → Host
host_of a = record {
  primary_ip = text_of (ip_of a);
  inet_ntoa = text_of;
  clock = λ i. at_second 100;
  stale = at_second 0;
}

abbrev entry : ℕ → ℕ → InitEntry
entry a d = record {
  id = d;
  port = 4000 + d;
  data_port = 5000 + d;
  cost = cost_at a d;
  ip = ip_of d;
}

abbrev entries_of : ℕ → List InitEntry
entries_of a = entry a 1 ∷ entry a 2 ∷ entry a 3 ∷ []

abbrev idle : Routing
idle = record {
  self = none;
  rs = record { router_count = 0; update_interval = 0; routers = [] };
  update_counter = 0;
  routing_table = [];
  distance_vectors = [];
}

-- The state that each router has once it took in its message.
runs_to :
    (parse_init (host_of 1) (init_message 2 (entries_of 1)) idle ≡ some (line 1))
    × (parse_init (host_of 2) (init_message 2 (entries_of 2)) idle ≡ some (line 2))
    × (parse_init (host_of 3) (init_message 2 (entries_of 3)) idle ≡ some (line 3))
unfolding parse_init parse_routers init_tables init_links init_rows init_row find_self read_routers
    read_router classify ntohui16 toui32 load16 load32 htons ntohs recompute_routing_table
    recompute_as recompute_with recompute_rows recompute_row scan relax improve any_neighbour
    touch_cell set_cell row cell at lookup touch insert
runs_to = (refl, refl, refl)

entries_fit : (a : ℕ) → All FitsInit (entries_of a)
entries_fit a = (fits 1 (omega arith), (fits 2 (omega arith), (fits 3 (omega arith), tt)))
  where
    fits : (d : ℕ) → d < 4 → FitsInit (entry a d)
    fits d small = record {
      id_fits = omega arith;
      port_fits = omega arith;
      data_port_fits = omega arith;
      cost_fits = ground arith;
      ip_fits = omega arith;
    }

apart : (a : ℕ) → Distinct (routers_of (host_of a) 0 (entries_of a))
apart a = (((λ e. omega arith), ((λ e. omega arith), tt)), (((λ e. omega arith), tt), (tt, tt)))

-- The router `a`, which stands at `k` of the list.
started :
    (a k : ℕ)
    → get_elem? (routers_of (host_of a) 0 (entries_of a)) k ≡ some (seen a a)
    → parse_init (host_of a) (init_message 2 (entries_of a)) idle ≡ some (line a)
    → IsStarted a (line a)
started a k listed run = record {
  host = host_of a;
  update_interval = 2;
  entries = entries_of a;
  before = idle;
  own_index = k;
  own = seen a a;
  first_init = refl;
  count_fits = omega arith;
  interval_fits = omega arith;
  entries_fit = entries_fit a;
  apart = apart a;
  own_listed = listed;
  own_type = ground arith;
  run = run;
}

pub line-IsStarted : (a : ℕ) → IsNode a → IsStarted a (line a)
line-IsStarted =
    all_nodes (λ a. IsStarted a (line a)) (started 1 0 refl (runs_to.0))
      (started 2 1 refl (runs_to.1)) (started 3 2 refl (runs_to.2))
