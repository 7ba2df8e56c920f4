-- ===== src/Data/Samples.antt =====
-- States of the data plane and of a router with an open port to start from.
use distance_vector_routing.Common.{List, [], ◌∷◌, none, pos}
use distance_vector_routing.Routing.{Routing, Router}
use distance_vector_routing.Routing.Samples.{first, second, third, sample}
use distance_vector_routing.Data.{DataState}

-- Nothing has come or gone.
abbrev pub quiet : DataState
quiet = record {
  data_fds = pos 9 ∷ [];
  stats = [];
  last = none;
  penultimate = none;
  file_data = [];
  send_buffer = [];
  write_fds = [];
  max_fd = pos 9;
}

-- The connection to the third router is open.
abbrev pub hops : List Router
hops = first ∷ second ∷ record third { data_socket_fd = pos 8 } ∷ []

abbrev pub linked : Routing
linked = record sample { rs = record sample.rs { routers = hops } }
