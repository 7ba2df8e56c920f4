-- ===== src/Program/Samples.antt =====
-- A system to run the program on.
use distance_vector_routing.Common.{[], ◌∷◌, none, some, ◌==◌, if◌then◌else◌, pos, true}
use distance_vector_routing.Routing.Init.{Host}
use distance_vector_routing.Routing.Samples.{at_second, network}
use distance_vector_routing.Program.{System}

-- The host of the first router.
abbrev pub host : Host
host = record {
  primary_ip = "10.0.0.1";
  inet_ntoa = λ ip. if ip == 167772161 then "10.0.0.1" else "10.0.0.9";
  clock = λ i. at_second 100;
  stale = at_second 0;
}

-- Every port can be bound; nothing can be read, and no connection comes.
abbrev pub system : System
system = record {
  net = network;
  host = host;
  now = at_second 101;
  peer = λ fd. 167772170;
  read_file = λ name. none;
  passive = λ port. some (record { socket_fd = pos 3; reuse_ok = true; joined = true } ∷ []);
  listens = λ port. true;
  accepted = λ fd. pos 7;
  first_read = λ fd. none;
  second_read = λ fd. none;
}
