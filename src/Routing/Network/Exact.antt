-- ===== src/Routing/Network/Exact.antt =====
-- Routes and shortest ways, after a number of rounds.
use native.Mathlib.Decide.{ℕ_discrete, dec_lt}
use mathlib.Core.Option.{some-injective}
use distance_vector_routing.Common.{
  ℕ, suc, ◌≡◌, refl, sym, subst, ◌∙◌, ◌+◌, ◌<◌, ◌≤◌, inl, inr, List, [], ◌∷◌, some, arith, All,
  length,
}
use distance_vector_routing.Routing.{inf}
use distance_vector_routing.Routing.Vectors.{cell}
use distance_vector_routing.Routing.Quiet.{route_cost, IsLinked, arrived, IsShortest}
use distance_vector_routing.Routing.Network.{Network, Delivery, deliver_all, deliver_rounds}
use distance_vector_routing.Routing.Network.Known.{
  IsNetwork, Runs, route_cost-le_inf, linked-IsNode,
}
use distance_vector_routing.Routing.Network.Deliver.{Delivered-cell, deliver-Delivered}
use distance_vector_routing.Routing.Network.Rounds.{IsAlong, IsRound, IsNear, deliver_rounds-le}
use distance_vector_routing.Routing.Network.Started.{IsStarted, started-Runs, started-Fresh}
use distance_vector_routing.Routing.Network.Loops.{few_hops}
use distance_vector_routing.Routing.Network.Room.{IsBounded, reach_some}
use distance_vector_routing.Routing.Network.Falling.{
  IsHeard, IsFalling, route_cost-Sum, route_cost-Walk, next-IsFalling,
}

-- Every route has the cost of a shortest way.
pub record HasShortestRoutes (net : Network) (IsNode : ℕ → Type 0) (node : Network) : Type 0 where
  pub is_shortest : (a d : ℕ) → IsNode a → IsNode d → IsShortest net d a (route_cost (node a) d)

module _ (net : Network) (IsNode : ℕ → Type 0) (nodes : List ℕ) (max_link : ℕ)
    (w : IsNetwork net IsNode) (b : IsBounded net IsNode nodes max_link) where
  link_fits : 0 + max_link < inf
  link_fits = let fits = b.fits in grind arith

  module _ (started : (a : ℕ) → IsNode a → IsStarted a (net a)) where
    start-Runs : (a : ℕ) → IsNode a → Runs net IsNode a (net a)
    start-Runs a is_a = started-Runs net IsNode w a is_a (started a is_a)

    start-IsHeard :
        (a n d : ℕ)
        → IsNode a
        → IsNode d
        → IsLinked net a n
        → IsHeard net IsNode nodes max_link net n d (cell (net a).distance_vectors n d)
    start-IsHeard a n d is_a is_d l =
        let is_n = linked-IsNode net IsNode w a n is_a l in
        elim (started-Fresh net IsNode w a is_a (started a is_a) n d l is_d) [
          | inl (id, free) ↦ subst (IsHeard net IsNode nodes max_link net n d) (sym free) (record {
            stale =
                let own : route_cost (net n) d ≡ 0 =
                  subst (λ x. route_cost (net n) x ≡ 0) id (start-Runs n is_n).own in
                omega arith;
            le_inf = omega arith;
            fits = λ finite. omega arith;
            exact = λ finite. arrived n 0 id refl;
          })
          | inr unknown ↦ subst (IsHeard net IsNode nodes max_link net n d) (sym unknown) (record {
            stale = route_cost-le_inf net IsNode n d (net n) (start-Runs n is_n) is_d;
            le_inf = omega arith;
            fits = λ finite. absurd (omega arith);
            exact = λ finite. absurd (omega arith);
          })
        ]

    start_cell :
        (a n d : ℕ)
        → IsNode a
        → IsNode d
        → IsLinked net a n
        → cell (net a).distance_vectors n d < inf
        → cell (net a).distance_vectors n d ≤ 0
    start_cell a n d is_a is_d l finite =
        elim (started-Fresh net IsNode w a is_a (started a is_a) n d l is_d) [
          | inl (id, free) ↦ omega arith
          | inr unknown ↦ absurd (omega arith)
        ]

    start-IsFalling : IsFalling net IsNode nodes max_link net
    start-IsFalling = record {
      runs = start-Runs;
      heard = start-IsHeard;
      fits = λ a d is_a is_d finite. elim (ℕ_discrete a d) [
        | yes same ↦
            let own : route_cost (net a) d ≡ 0 =
              subst (λ x. route_cost (net a) x ≡ 0) same (start-Runs a is_a).own in
            omega arith
        | no other ↦
            let s =
              route_cost-Sum net IsNode nodes max_link w b net 0 a d (start-Runs a is_a)
                (λ n l. ((start-IsHeard a n d is_a is_d l).le_inf, start_cell a n d is_a is_d l))
                is_a is_d other link_fits finite in
            omega (
              arith,
              s.sum,
              start_cell a s.n d is_a is_d s.linked s.finite,
              b.link_le a s.n is_a s.linked,
              reach_some max_link (λ x. route_cost (net x) d) a nodes (b.has a is_a) finite,
            )
      ];
    }

  deliver_all-IsFalling :
      (ds : List Delivery) (node : Network)
      → All (IsAlong net IsNode) ds
      → IsFalling net IsNode nodes max_link node
      → (node' : Network) × (deliver_all ds node ≡ some node')
        × IsFalling net IsNode nodes max_link node'
  unfolding deliver_all
  deliver_all-IsFalling [] node along f = (node, refl, f)
  deliver_all-IsFalling (e ∷ ds) node (here, along) f =
      let (node1, run1, d) = deliver-Delivered net IsNode w e node here.0 here.1 f.runs in
      let (node', run, falling) = deliver_all-IsFalling ds node1 along (
        next-IsFalling net IsNode nodes max_link w b node node1 f d.runs
          (λ x m k is_k. Delivered-cell d x m k is_k)) in
      (node', rw run1 run, falling)

  deliver_rounds-IsFalling :
      (rounds : List (List Delivery)) (node : Network)
      → All (IsRound net IsNode) rounds
      → IsFalling net IsNode nodes max_link node
      → (node' : Network) × (deliver_rounds rounds node ≡ some node')
        × IsFalling net IsNode nodes max_link node'
  unfolding deliver_rounds
  deliver_rounds-IsFalling [] node full f = (node, refl, f)
  deliver_rounds-IsFalling (ds ∷ rounds) node (round, full) f =
      let (node1, run1, f1) = deliver_all-IsFalling ds node round.along f in
      let (node', run, falling) = deliver_rounds-IsFalling rounds node1 full f1 in
      (node', rw run1 run, falling)

  near-HasShortestRoutes :
      (k : ℕ) (node : Network)
      → length nodes ≤ suc k
      → IsNear net IsNode k node
      → IsFalling net IsNode nodes max_link node
      → HasShortestRoutes net IsNode node
  near-HasShortestRoutes k node enough near f = record {
    is_shortest = λ a d is_a is_d. record {
      least = λ total way.
          let (cost, short, cheaper, few) =
            few_hops net d IsNode nodes b.has (linked-IsNode net IsNode w) a total is_a way in
          omega (arith, near.cost_le a d cost is_a is_d short (omega arith));
      reached = elim (dec_lt (route_cost (node a) d) inf) [
        | yes finite ↦
            inr (route_cost-Walk net IsNode nodes max_link w b node a d f is_a is_d finite)
        | no infinite ↦
            inl (omega (arith, route_cost-le_inf net IsNode a d (node a) (f.runs a is_a) is_d))
      ];
    };
  }

  -- The network after the rounds.
  pub deliver_rounds-end :
      (rounds : List (List Delivery))
      → All (IsRound net IsNode) rounds
      → length nodes ≤ suc (length rounds)
      → ((a : ℕ) → IsNode a → IsStarted a (net a))
      → (node : Network) × (deliver_rounds rounds net ≡ some node)
        × IsFalling net IsNode nodes max_link node
        × HasShortestRoutes net IsNode node
  deliver_rounds-end rounds full enough started =
      let (node, run, near) = deliver_rounds-le net IsNode w rounds full (start-Runs started) in
      let (node', run', falling') =
        deliver_rounds-IsFalling rounds net full (start-IsFalling started) in
      let same : node' ≡ node = some-injective _ _ (sym run' ∙ run) in
      let falling = subst (IsFalling net IsNode nodes max_link) same falling' in
      (node, run, falling, near-HasShortestRoutes (length rounds) node enough near falling)

  -- A network whose routers each took in a first INIT, and whose links then stay as they are, finds
  -- the shortest ways. After one round fewer than there are routers, or more, where in a round every
  -- router is told by each of its neighbours, in any order and as often as may be: no delivery has
  -- faulted, no way between two routers costs less than the route, and a finite route costs what some
  -- way costs. The links are such that one for each router, and one more, costs less than 65535.
  pub deliver_rounds-HasShortestRoutes :
      (rounds : List (List Delivery))
      → All (IsRound net IsNode) rounds
      → length nodes ≤ suc (length rounds)
      → ((a : ℕ) → IsNode a → IsStarted a (net a))
      → (node : Network) × (deliver_rounds rounds net ≡ some node)
        × HasShortestRoutes net IsNode node
  deliver_rounds-HasShortestRoutes rounds full enough started =
      let (node, run, falling, shortest) = deliver_rounds-end rounds full enough started in
      (node, run, shortest)
