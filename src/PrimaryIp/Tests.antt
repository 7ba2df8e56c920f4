-- ===== src/PrimaryIp/Tests.antt =====
-- A first call that finds an address, and a second one that would find none.
use distance_vector_routing.Common.{◌≡◌, refl, pos, true, [], ◌∷◌, none, some}
use distance_vector_routing.Sockets.{connect_to, walk}
use distance_vector_routing.PrimaryIp.{Answers, primary_ip}
use distance_vector_routing.PrimaryIp.Kept.{primary_ip-twice}

abbrev online : Answers
online = record {
  found = some (record { socket_fd = pos 4; reuse_ok = true; joined = true } ∷ []);
  own_address = λ fd. some "10.0.0.1";
}

abbrev offline : Answers
offline = record { found = none; own_address = λ fd. none }

kept_answer : primary_ip offline (primary_ip online "").primary_ip_str ≡ record {
  answer = (primary_ip online "").answer;
  primary_ip_str = (primary_ip online "").answer;
  closed = [];
}
kept_answer = primary_ip-twice online offline "" (unfold primary_ip connect_to walk in refl)
