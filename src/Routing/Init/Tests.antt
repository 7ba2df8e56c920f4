-- ===== src/Routing/Init/Tests.antt =====
-- The INIT message of a network of three routers, at the first one.
use distance_vector_routing.Common.{
  ◌≡◌, refl, List, [], ◌∷◌, some, none, ◌==◌, if◌then◌else◌, arith,
}
use distance_vector_routing.Routing.{Router, Routing}
use distance_vector_routing.Routing.Samples.{at_second}
use distance_vector_routing.Routing.Init.{Host, parse_init}
use distance_vector_routing.Routing.Init.Message.{InitEntry, init_message, router_of}
use distance_vector_routing.Routing.Init.Ready.{Initialised, parse_init-Initialised}

abbrev host : Host
host = record {
  primary_ip = "10.0.0.1";
  inet_ntoa = λ ip. if ip == 167772161 then "10.0.0.1" else "10.0.0.9";
  clock = λ i. at_second 100;
  stale = at_second 0;
}

abbrev told : List InitEntry
told =
    record { id = 5; port = 4001; data_port = 5001; cost = 0; ip = 167772161 }
    ∷ record { id = 2; port = 4002; data_port = 5002; cost = 7; ip = 167772162 }
    ∷ record { id = 3; port = 4003; data_port = 5003; cost = 65535; ip = 167772163 }
    ∷ []

abbrev fresh : Routing
fresh = record {
  self = none;
  rs = record { router_count = 0; update_interval = 0; routers = [] };
  update_counter = 0;
  routing_table = [];
  distance_vectors = [];
}

parse_init-Initialised_example :
    (st : Routing) × (me : Router) × (parse_init host (init_message 2 told) fresh ≡ some st)
    × Initialised host 2 told me st
parse_init-Initialised_example =
    parse_init-Initialised host 2 told fresh 0
      (router_of host 0
        (record { id = 5; port = 4001; data_port = 5001; cost = 0; ip = 167772161 }))
      refl (omega arith) (omega arith) (omega arith) (omega arith) refl refl
