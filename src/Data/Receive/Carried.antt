-- ===== src/Data/Receive/Carried.antt =====
-- From the first INIT to the packets: src/routing.cpp and src/data_routing.cpp together.
use distance_vector_routing.Common.{
  ℕ, suc, ◌≡◌, ◌-◌, ◌<◌, ◌≤◌, ◌++◌, List, none, some, ℤ, arith, All, length,
}
use distance_vector_routing.OrdMap.{lookup}
use distance_vector_routing.Routing.Timeout
use distance_vector_routing.Routing.Forward.Steps.{AnswersAll, FitsAll}
use distance_vector_routing.Routing.Quiet.{Walk, IsLinked, link}
use distance_vector_routing.Routing.Network.{Network, Delivery, deliver_rounds}
use distance_vector_routing.Routing.Network.Known.{IsNetwork, Runs}
use distance_vector_routing.Routing.Network.Rounds.{IsRound}
use distance_vector_routing.Routing.Network.Started.{IsStarted, started-FitsAll}
use distance_vector_routing.Routing.Network.Room.{IsBounded}
use distance_vector_routing.Routing.Network.Ways.{hops}
use distance_vector_routing.Routing.Network.Follow.{IsAddressed}
use distance_vector_routing.Routing.Network.Routed.{IsRouted, deliver_rounds-Runs}
use distance_vector_routing.Data.{PacketHeader, packet_header_bytes, DataState}
use distance_vector_routing.Data.Receive.Transfer.{FitsHeader}
use distance_vector_routing.Data.Receive.Journey.{Arrives, receive-Arrives}

-- Where there is any way from `a` to `d`, a packet for `d` that comes to `a` arrives, if its TTL is
-- above the number of routers and nothing of its transfer was queued before. It arrives on no more
-- routers than there are, each of which took one off the TTL.
pub record Carries (net : Network) (IsNode : ℕ → Type 0) (nodes : List ℕ) (address : ℕ → ℕ)
    (system : Timeout.Network) (node : Network) : Type 0 where
  pub arrives :
      (sock : ℕ → ℤ) (data_of : ℕ → DataState) (a d total : ℕ) (h : PacketHeader) (body : List ℕ)
      → IsNode a
      → IsNode d
      → Walk net d a total
      → FitsHeader h
      → h.dest_ip ≡ address d
      → length nodes < h.ttl
      → ((x : ℕ) → lookup h.transfer_id (data_of x).send_buffer ≡ none)
      → (k : ℕ) × (k ≤ length nodes)
        × Arrives system sock node data_of d
            (record h { ttl = h.ttl - k })
            body
            a
            (packet_header_bytes h ++ body)

module _ (net : Network) (IsNode : ℕ → Type 0) (nodes : List ℕ) (max_link : ℕ)
    (w : IsNetwork net IsNode) (b : IsBounded net IsNode nodes max_link) (address : ℕ → ℕ)
    (known : IsAddressed net IsNode address)
    (positive : (a n : ℕ) → IsNode a → IsLinked net a n → 0 < link net a n)
    (system : Timeout.Network) (answers : AnswersAll system) where
  routed-Carries :
      (node : Network)
      → IsRouted net IsNode nodes address node
      → ((a : ℕ) → IsNode a → FitsAll (net a).rs.routers)
      → ((a : ℕ) → IsNode a → Runs net IsNode a (node a))
      → Carries net IsNode nodes address system node
  routed-Carries node routed fit runs = record {
    arrives = λ sock data_of a d total h body is_a is_d any fits to_d alive fresh.
        let (k, small, c) = routed.finds a d total is_a is_d any in
        (
          suc (hops c.way),
          omega (arith, c.few),
          receive-Arrives net IsNode w address known system answers fit sock node runs data_of d a _
              h body c.way is_a is_d c.follows fits to_d (omega (arith, c.few)) fresh,
        );
  }

  -- From the first INIT of each router to a file's packet: in a network whose links stay as they
  -- are and cost something, whose routers list each other's addresses, and where every data port
  -- can be connected to, with a descriptor in the range of FD_SET, after one round of updates fewer
  -- than there are routers, or more, no delivery has faulted, and a packet that comes to any router
  -- arrives where it is for, if there is any way to there; each router on the way queues it for the
  -- next one, and the last one keeps it, with a TTL that is lower by the number of routers that
  -- took it in; for that its TTL is above the number of routers, its numbers fit their fields, and
  -- nothing of its transfer was queued before; the links are such that one for each router, and one
  -- more, costs less than 65535.
  pub deliver_rounds-Carries :
      (rounds : List (List Delivery))
      → All (IsRound net IsNode) rounds
      → length nodes ≤ suc (length rounds)
      → ((a : ℕ) → IsNode a → IsStarted a (net a))
      → (node : Network) × (deliver_rounds rounds net ≡ some node)
        × Carries net IsNode nodes address system node
  deliver_rounds-Carries rounds full enough started =
      let (node, run, routed, runs) =
        deliver_rounds-Runs net IsNode nodes max_link w b address known positive rounds full enough
          started in
      (
        node,
        run,
        routed-Carries node routed (λ a is_a. started-FitsAll net IsNode w a is_a (started a is_a))
            runs,
      )
