-- ===== src/Routing/Network/Rounds.antt =====
-- The routers tell each other their routes, in any order.
use distance_vector_routing.Common.{
  ℕ, suc, ◌≡◌, refl, sym, ◌∙◌, ◌+◌, ◌≤◌, List, [], ◌∷◌, some, arith, subst, ◌⊎◌, inl, inr, All, Any,
  length,
}
use distance_vector_routing.Routing.Quiet.{route_cost, IsLinked, Walk}
use distance_vector_routing.Routing.Network.{Network, Delivery, deliver_all, deliver_rounds}
use distance_vector_routing.Routing.Network.Known.{IsNetwork, Runs, linked-IsNode}
use distance_vector_routing.Routing.Network.Deliver.{Delivered, Delivered-cell, deliver-Delivered}
use distance_vector_routing.Routing.Network.Ways.{hops, Told, route_cost-le_Told}

-- From a neighbour.
abbrev pub IsAlong : Network → (ℕ → Type 0) → Delivery → Type 0
IsAlong net IsNode d = IsNode d.receiver × IsLinked net d.receiver d.sender

abbrev pub IsFrom : ℕ → ℕ → Delivery → Type 0
IsFrom n a d = (d.sender ≡ n) × (d.receiver ≡ a)

-- Every router is told by each of its neighbours, at least once, and by no one else.
pub record IsRound (net : Network) (IsNode : ℕ → Type 0) (ds : List Delivery) : Type 0 where
  pub along : All (IsAlong net IsNode) ds
  pub complete : (a n : ℕ) → IsNode a → IsLinked net a n → Any (IsFrom n a) ds

-- All routers run, have been told the costs of ways with fewer than `k` links, and only true ones.
pub record Progress (net : Network) (IsNode : ℕ → Type 0) (k : ℕ) (node : Network) : Type 0 where
  pub runs : (a : ℕ) → IsNode a → Runs net IsNode a (node a)
  pub told : (a n : ℕ) → IsNode a → IsLinked net a n → Told net IsNode k n a (node a)

-- No route costs more than a way of at most `k` links.
pub record IsNear (net : Network) (IsNode : ℕ → Type 0) (k : ℕ) (node : Network) : Type 0 where
  pub cost_le :
      (a d total : ℕ)
      → IsNode a
      → IsNode d
      → (way : Walk net d a total) → hops way ≤ k
      → route_cost (node a) d ≤ total

module _ (net : Network) (IsNode : ℕ → Type 0) (w : IsNetwork net IsNode) where
  -- What a delivery tells is as good as the routes of the sender.
  Delivered-told :
      (k n a : ℕ) (node node' : Network)
      → IsNode n
      → Progress net IsNode k node
      → Delivered net IsNode n a node node'
      → Told net IsNode (suc k) n a (node' a)
  Delivered-told k n a node node' is_n p d x rest is_x way short =
      subst (λ c. c ≤ rest) (sym (d.told x is_x))
        (route_cost-le_Told net IsNode n x (node n) (p.runs n is_n) is_x k rest
          (λ m. p.told n m is_n) way (omega arith))

  -- Another distance stays as it was; the one that is told is told anew.
  Delivered-keeps :
      (k j n a : ℕ) (node node' : Network)
      → j ≤ suc k
      → Progress net IsNode k node
      → Delivered net IsNode n a node node'
      → (x m : ℕ) → IsNode m
      → Told net IsNode j m x (node x)
      → Told net IsNode j m x (node' x)
  Delivered-keeps k j n a node node' small p d x m is_m t y rest is_y way short =
      elim (Delivered-cell d x m y is_y) [
        | inl same ↦ subst (λ c. c ≤ rest) (sym same) (t y rest is_y way short)
        | inr told ↦
            subst (λ c. c ≤ rest) (sym told)
              (route_cost-le_Told net IsNode m y (node m) (p.runs m is_m) is_y k rest
                (λ q. p.told m q is_m) way (omega arith))
      ]

  Delivered-Progress :
      (k n a : ℕ) (node node' : Network)
      → Progress net IsNode k node
      → Delivered net IsNode n a node node'
      → Progress net IsNode k node'
  Delivered-Progress k n a node node' p d = record {
    runs = d.runs;
    told = λ x m is_x l.
        Delivered-keeps k k n a node node' (omega arith) p d x m
          (linked-IsNode net IsNode w x m is_x l) (p.told x m is_x l);
  }

  -- The network after some deliveries: what was told, then or before, is as good as the routes.
  record After (k : ℕ) (ds : List Delivery) (node node' : Network) : Type 0 where
    progress : Progress net IsNode k node'
    renewed :
        (a n : ℕ)
        → IsNode n
        → Told net IsNode (suc k) n a (node a) ⊎ Any (IsFrom n a) ds
        → Told net IsNode (suc k) n a (node' a)

  deliver_all-After :
      (k : ℕ) (ds : List Delivery) (node : Network)
      → All (IsAlong net IsNode) ds
      → Progress net IsNode k node
      → (node' : Network) × (deliver_all ds node ≡ some node') × After k ds node node'
  unfolding deliver_all
  deliver_all-After k [] node along p = (
    node,
    refl,
    record { progress = p; renewed = λ a n is_q. elim [ inl t ↦ t | inr none ↦ absurd none ] },
  )
  deliver_all-After k (e ∷ ds) node (here, along) p =
      let is_n = linked-IsNode net IsNode w e.receiver e.sender here.0 here.1 in
      let (node1, run1, d) = deliver-Delivered net IsNode w e node here.0 here.1 p.runs in
      let p1 = Delivered-Progress k e.sender e.receiver node node1 p d in
      let (node', run, after) = deliver_all-After k ds node1 along p1 in
      (
        node',
        rw run1 run,
        record {
          progress = after.progress;
          renewed = λ a n is_q. elim [
            | inl t ↦ after.renewed a n is_q (
                inl (
                  Delivered-keeps k (suc k) e.sender e.receiver node node1 (omega arith) p d a n
                    is_q t))
            | inr (inl (from, to)) ↦ after.renewed a n is_q (
                inl (
                  subst (λ b. Told net IsNode (suc k) n b (node1 b)) to
                    (subst (λ m. Told net IsNode (suc k) m e.receiver (node1 e.receiver)) from
                      (Delivered-told k e.sender e.receiver node node1 is_n p d))))
            | inr (inr later) ↦ after.renewed a n is_q (inr later)
          ];
        },
      )

  deliver_rounds-Progress :
      (k : ℕ) (rounds : List (List Delivery)) (node : Network)
      → All (IsRound net IsNode) rounds
      → Progress net IsNode k node
      → (node' : Network) × (deliver_rounds rounds node ≡ some node')
        × ((j : ℕ) → j ≡ length rounds + k → Progress net IsNode j node')
  unfolding deliver_rounds
  deliver_rounds-Progress k [] node full p =
      (node, refl, λ j e. subst (λ j. Progress net IsNode j node) (sym (e ∙ omega arith)) p)
  deliver_rounds-Progress k (ds ∷ rounds) node (round, full) p =
      let (node1, run1, after) = deliver_all-After k ds node round.along p in
      let p1 : Progress net IsNode (suc k) node1 = record {
        runs = after.progress.runs;
        told = λ a n is_a l.
            after.renewed a n (linked-IsNode net IsNode w a n is_a l)
              (inr (round.complete a n is_a l));
      } in
      let (node', run, reached) = deliver_rounds-Progress (suc k) rounds node1 full p1 in
      (node', rw run1 run, λ j e. reached j (e ∙ omega arith))

  -- While a network whose links stay as they are runs through any number of rounds, in each of which
  -- every router is told by each of its neighbours, in any order and as often as may be, no delivery
  -- faults; and after `k` rounds no route costs more than any way of at most `k` links.
  pub deliver_rounds-le :
      (rounds : List (List Delivery))
      → All (IsRound net IsNode) rounds
      → ((a : ℕ) → IsNode a → Runs net IsNode a (net a))
      → (node : Network) × (deliver_rounds rounds net ≡ some node)
        × IsNear net IsNode (length rounds) node
  deliver_rounds-le rounds full runs =
      let start : Progress net IsNode 0 net = record {
        runs = runs;
        told = λ a n is_a l d rest is_d way short. absurd (omega arith);
      } in
      let (node, run, reached) = deliver_rounds-Progress 0 rounds net full start in
      let p = reached (length rounds) (omega arith) in
      (
        node,
        run,
        record {
          cost_le = λ a d total is_a is_d way short.
              route_cost-le_Told net IsNode a d (node a) (p.runs a is_a) is_d (length rounds) total
                (λ n. p.told a n is_a) way short;
        },
      )
