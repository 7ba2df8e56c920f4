-- ===== src/Routing/Network/Routed.antt =====
-- The ways that packets take through a network, from the first INIT on.
use distance_vector_routing.Common.{
  ℕ, zero, suc, ◌≡◌, ◌*◌, ◌<◌, ◌≤◌, List, some, arith, All, length,
}
use distance_vector_routing.Routing.{inf}
use distance_vector_routing.Routing.Quiet.{route_cost, link, IsLinked, Walk, arrived, hop}
use distance_vector_routing.Routing.Network.{Network, Delivery, deliver_rounds}
use distance_vector_routing.Routing.Network.Known.{IsNetwork, Runs, linked-IsNode}
use distance_vector_routing.Routing.Network.Ways.{hops}
use distance_vector_routing.Routing.Network.Rounds.{IsRound}
use distance_vector_routing.Routing.Network.Started.{IsStarted}
use distance_vector_routing.Routing.Network.Loops.{few_hops}
use distance_vector_routing.Routing.Network.Closer.{closer, closer-lt_length}
use distance_vector_routing.Routing.Network.Room.{IsBounded}
use distance_vector_routing.Routing.Network.Exact.{HasShortestRoutes, deliver_rounds-end}
use distance_vector_routing.Routing.Network.Follow.{IsAddressed, Course, course}

-- Where there is any way from `a` to `d`, packets find one, on fewer links than there are routers.
pub record IsRouted (net : Network) (IsNode : ℕ → Type 0) (nodes : List ℕ) (address : ℕ → ℕ)
    (node : Network) : Type 0 where
  pub finds :
      (a d total : ℕ)
      → IsNode a
      → IsNode d
      → Walk net d a total
      → (k : ℕ) × (k < length nodes) × Course net address node k d a

module _ (net : Network) (IsNode : ℕ → Type 0) (nodes : List ℕ) (max_link : ℕ)
    (w : IsNetwork net IsNode) (b : IsBounded net IsNode nodes max_link) (address : ℕ → ℕ)
    (known : IsAddressed net IsNode address)
    (positive : (a n : ℕ) → IsNode a → IsLinked net a n → 0 < link net a n) where
  Walk-le :
      (d k a total : ℕ) (way : Walk net d a total) → IsNode a → hops way ≤ k → total ≤ max_link * k
  unfolding hops
  Walk-le d k a total (arrived _ _ same zero_cost) is_a few = omega arith
  Walk-le d zero a total (hop _ n rest _ l way sum) is_a few = absurd (omega arith)
  Walk-le d (suc k) a total (hop _ n rest _ l way sum) is_a few =
      let is_n = linked-IsNode net IsNode w a n is_a l in
      let bound : rest ≤ max_link * k = Walk-le d k n rest way is_n (omega arith) in
      grind (arith, b.link_le a n is_a l)

  -- A router to which there is a way has a finite route.
  finite :
      (node : Network) (a d total : ℕ)
      → HasShortestRoutes net IsNode node
      → IsNode a
      → IsNode d
      → Walk net d a total
      → route_cost (node a) d < inf
  finite node a d total short is_a is_d any =
      let (cost, way, cheaper, few) =
        few_hops net d IsNode nodes b.has (linked-IsNode net IsNode w) a total is_a any in
      let bound : cost ≤ max_link * length nodes =
        Walk-le d (length nodes) a cost way is_a (omega arith) in
      let least = (short.is_shortest a d is_a is_d).least cost way in
      let fits = b.fits in grind arith

  pub deliver_rounds-Runs :
      (rounds : List (List Delivery))
      → All (IsRound net IsNode) rounds
      → length nodes ≤ suc (length rounds)
      → ((a : ℕ) → IsNode a → IsStarted a (net a))
      → (node : Network) × (deliver_rounds rounds net ≡ some node)
        × IsRouted net IsNode nodes address node
        × ((a : ℕ) → IsNode a → Runs net IsNode a (node a))
  deliver_rounds-Runs rounds full enough started =
      let (node, run, f, short) =
        deliver_rounds-end net IsNode nodes max_link w b rounds full enough started in
      (
        node,
        run,
        record {
          finds = λ a d total is_a is_d any.
              let left = closer (λ x. route_cost (node x) d) (route_cost (node a) d) nodes in
              (
                left,
                closer-lt_length (λ x. route_cost (node x) d) a nodes (b.has a is_a),
                course net IsNode nodes max_link w b address known positive node f short left a d
                    is_a is_d (finite node a d total short is_a is_d any) (omega arith),
              );
        },
        f.runs,
      )

  -- In a network whose routers each took in a first INIT, whose links then stay as they are and cost
  -- something, and whose routers list each other's addresses, the routers hand packets on so that they
  -- arrive. After one round fewer than there are routers, or more, no delivery has faulted; and where
  -- there is any way from `a` to `d`, the hops that `a` and then each router takes from its route for
  -- the address of `d` are a way from `a` to `d` that costs what the route costs and has fewer links
  -- than there are routers. The links are such that one for each router, and one more, costs less than
  -- 65535.
  pub deliver_rounds-IsRouted :
      (rounds : List (List Delivery))
      → All (IsRound net IsNode) rounds
      → length nodes ≤ suc (length rounds)
      → ((a : ℕ) → IsNode a → IsStarted a (net a))
      → (node : Network) × (deliver_rounds rounds net ≡ some node)
        × IsRouted net IsNode nodes address node
  deliver_rounds-IsRouted rounds full enough started =
      let (node, run, routed, runs) = deliver_rounds-Runs rounds full enough started in
      (node, run, routed)
