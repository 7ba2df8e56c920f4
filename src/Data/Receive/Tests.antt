-- ===== src/Data/Receive/Tests.antt =====
-- A packet goes through the line of three routers.
use distance_vector_routing.Common.{◌≡◌, refl, true, [], ◌∷◌, some, pos, arith}
use distance_vector_routing.Sockets.{connect_to}
use distance_vector_routing.Routing.Timeout
use distance_vector_routing.Routing.Network.{Network, deliver_rounds}
use distance_vector_routing.Routing.Network.Line.{line, ip_of, IsNode, line-IsNetwork}
use distance_vector_routing.Routing.Network.LineRounds.{
  round, round-IsRound, nodes, line-IsBounded, line-IsAddressed, link-positive,
}
use distance_vector_routing.Routing.Network.Told.{line-IsStarted}
use distance_vector_routing.Data.Receive.Carried.{Carries, deliver_rounds-Carries}

-- Every data port has one address, which can be connected to.
abbrev answers : Timeout.Network
answers = record {
  resolve = λ ip port. some (record { socket_fd = pos 8; reuse_ok = true; joined = true } ∷ []);
  sends = λ ip port. true;
}

deliver_rounds-Carries_example :
    (node : Network) × (deliver_rounds (round ∷ round ∷ []) line ≡ some node)
    × Carries line IsNode nodes ip_of answers node
unfolding connect_to
deliver_rounds-Carries_example =
    deliver_rounds-Carries line IsNode nodes 7 line-IsNetwork line-IsBounded ip_of line-IsAddressed
      link-positive answers (λ r. (refl, refl)) (round ∷ round ∷ [])
      (round-IsRound, (round-IsRound, tt)) (omega arith) line-IsStarted
