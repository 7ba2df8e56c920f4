-- ===== src/Routing/Network/Truth.antt =====
-- The costs that routers tell each other, and those of ways.
use distance_vector_routing.Common.{ℕ, ◌≡◌, refl, sym, List, [], ◌∷◌, some, subst, inl, inr, All}
use distance_vector_routing.Routing.Quiet.{route_cost, IsLinked}
use distance_vector_routing.Routing.Network.{Network, Delivery, deliver_all}
use distance_vector_routing.Routing.Network.Known.{IsNetwork, Runs, linked-IsNode}
use distance_vector_routing.Routing.Network.Deliver.{Delivered, Delivered-cell, deliver-Delivered}
use distance_vector_routing.Routing.Network.Ways.{IsTrue, TellsTrue, route_cost-IsTrue}
use distance_vector_routing.Routing.Network.Rounds.{IsAlong}

-- All routers run, and the costs that they were told are true.
pub record IsHonest (net : Network) (IsNode : ℕ → Type 0) (node : Network) : Type 0 where
  pub runs : (a : ℕ) → IsNode a → Runs net IsNode a (node a)
  pub told : (a n : ℕ) → IsNode a → IsLinked net a n → TellsTrue net IsNode n a (node a)

-- The cost of each route is infinite or, modulo 2 ^ 16, that of some way.
pub record HasTrueRoutes (net : Network) (IsNode : ℕ → Type 0) (node : Network) : Type 0 where
  pub is_true : (a d : ℕ) → IsNode a → IsNode d → IsTrue net d a (route_cost (node a) d)

module _ (net : Network) (IsNode : ℕ → Type 0) (w : IsNetwork net IsNode) where
  Delivered-IsHonest :
      (n a : ℕ) (node node' : Network)
      → IsHonest net IsNode node
      → Delivered net IsNode n a node node'
      → IsHonest net IsNode node'
  Delivered-IsHonest n a node node' h d = record {
    runs = d.runs;
    told = λ x m is_x l y is_y. elim (Delivered-cell d x m y is_y) [
      | inl same ↦ subst (IsTrue net y m) (sym same) (h.told x m is_x l y is_y)
      | inr told ↦
          let is_m = linked-IsNode net IsNode w x m is_x l in
          subst (IsTrue net y m) (sym told)
            (route_cost-IsTrue net IsNode m y (node m) (h.runs m is_m) is_y (λ q. h.told m q is_m))
    ];
  }

  deliver_all-IsHonest :
      (ds : List Delivery) (node : Network)
      → All (IsAlong net IsNode) ds
      → IsHonest net IsNode node
      → (node' : Network) × (deliver_all ds node ≡ some node') × IsHonest net IsNode node'
  unfolding deliver_all
  deliver_all-IsHonest [] node along h = (node, refl, h)
  deliver_all-IsHonest (e ∷ ds) node (here, along) h =
      let (node1, run1, d) = deliver-Delivered net IsNode w e node here.0 here.1 h.runs in
      let (node', run, honest) =
        deliver_all-IsHonest ds node1 along
          (Delivered-IsHonest e.sender e.receiver node node1 h d) in
      (node', rw run1 run, honest)

  -- While the routers of a network whose links stay as they are, and that starts with true costs,
  -- are told by their neighbours, in any order and as often as may be, where each datagram is
  -- packed from the sender's table of the moment in which it is taken in, no delivery faults, and
  -- the cost of each route is infinite or, modulo 2 ^ 16, the cost of some way through the network.
  pub deliver_all-HasTrueRoutes :
      (ds : List Delivery)
      → All (IsAlong net IsNode) ds
      → IsHonest net IsNode net
      → (node : Network) × (deliver_all ds net ≡ some node) × HasTrueRoutes net IsNode node
  deliver_all-HasTrueRoutes ds along honest =
      let (node, run, h) = deliver_all-IsHonest ds net along honest in
      (
        node,
        run,
        record {
          is_true = λ a d is_a is_d.
              route_cost-IsTrue net IsNode a d (node a) (h.runs a is_a) is_d (λ n. h.told a n is_a);
        },
      )
