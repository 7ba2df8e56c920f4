-- ===== src/Routing/Network/Falling.antt =====
-- How the costs change in a network that starts afresh.
use native.Mathlib.Decide.{ℕ_discrete, dec_lt}
use distance_vector_routing.Common.{
  ℕ, ◌≡◌, ◌≢◌, sym, subst, ◌∙◌, ◌+◌, ◌<◌, ◌≤◌, ◌⊎◌, inl, inr, List, arith,
}
use distance_vector_routing.OrdMap.{at}
use distance_vector_routing.Routing.{inf, no_route}
use distance_vector_routing.Routing.Vectors.{cell}
use distance_vector_routing.Routing.Quiet.{route_cost, link, IsLinked, Walk, arrived, hop}
use distance_vector_routing.Routing.Network.{Network}
use distance_vector_routing.Routing.Network.Known.{
  IsNetwork, Runs, route_cost-le_inf, linked-IsNode,
}
use distance_vector_routing.Routing.Network.Ways.{route_cost-le_link, route_cost-Hop}
use distance_vector_routing.Routing.Network.Room.{
  IsBounded, reach, reach-le, reach_mono, reach_more,
}

module _ (net : Network) (IsNode : ℕ → Type 0) (nodes : List ℕ) (max_link : ℕ) where
  abbrev pub room : Network → ℕ → ℕ
  room node d = reach max_link (λ x. route_cost (node x) d) nodes

  -- What a router was told is no less than what is so now, fits in the room there is, and is the cost
  -- of some way.
  pub record IsHeard (node : Network) (n d cost : ℕ) : Type 0 where
    pub stale : route_cost (node n) d ≤ cost
    pub le_inf : cost ≤ inf
    pub fits : cost < inf → cost ≤ room node d
    pub exact : cost < inf → Walk net d n cost

  pub record IsFalling (node : Network) : Type 0 where
    pub runs : (a : ℕ) → IsNode a → Runs net IsNode a (node a)
    pub heard :
        (a n d : ℕ)
        → IsNode a
        → IsNode d
        → IsLinked net a n
        → IsHeard node n d (cell (node a).distance_vectors n d)
    pub fits :
        (a d : ℕ)
        → IsNode a
        → IsNode d
        → route_cost (node a) d < inf
        → route_cost (node a) d ≤ room node d

  module _ (w : IsNetwork net IsNode) (b : IsBounded net IsNode nodes max_link) where
    -- A finite route is a link and what the neighbour told, without overflow.
    pub record Sum (node : Network) (a d : ℕ) : Type 0 where
      pub n : ℕ
      pub linked : IsLinked net a n
      pub finite : cell (node a).distance_vectors n d < inf
      pub sum : route_cost (node a) d ≡ link net a n + cell (node a).distance_vectors n d
      pub via : (at no_route d (node a).routing_table).next_hop_id ≡ n

    pub route_cost-Sum :
        (node : Network) (bound a d : ℕ)
        → Runs net IsNode a (node a)
        → ((n : ℕ)
            → IsLinked net a n
            → (cell (node a).distance_vectors n d ≤ inf)
              × (cell (node a).distance_vectors n d < inf
                  → cell (node a).distance_vectors n d ≤ bound))
        → IsNode a
        → IsNode d
        → a ≢ d
        → bound + max_link < inf
        → route_cost (node a) d < inf
        → Sum node a d
    route_cost-Sum node bound a d r told is_a is_d other small finite =
        let h = route_cost-Hop net IsNode a d (node a) r is_d other (λ e. omega arith) in
        let (le, fits) = told h.n h.linked in
        let below : cell (node a).distance_vectors h.n d < inf = ground (arith, h.finite) in
        record {
          n = h.n;
          linked = h.linked;
          finite = below;
          sum = h.cost ∙ omega (arith, fits below, b.link_le a h.n is_a h.linked);
          via = h.via;
        }

    pub room_fits : (node : Network) (d : ℕ) → room node d + max_link < inf
    room_fits node d = omega (arith, reach-le max_link (λ x. route_cost (node x) d) nodes, b.fits)

    pub route_cost-Walk :
        (node : Network) (a d : ℕ)
        → IsFalling node
        → IsNode a
        → IsNode d
        → route_cost (node a) d < inf
        → Walk net d a (route_cost (node a) d)
    route_cost-Walk node a d f is_a is_d finite = elim (ℕ_discrete a d) [
      | yes same ↦
          arrived a (route_cost (node a) d) same
            (subst (λ x. route_cost (node a) x ≡ 0) same (f.runs a is_a).own)
      | no other ↦
          let s =
            route_cost-Sum node (room node d) a d (f.runs a is_a)
              (λ n l. let h = f.heard a n d is_a is_d l in (h.le_inf, h.fits)) is_a is_d other
              (room_fits node d) finite in
          hop a s.n (cell (node a).distance_vectors s.n d) (route_cost (node a) d) s.linked
            ((f.heard a s.n d is_a is_d s.linked).exact s.finite) s.sum
    ]

    -- What a router would tell now.
    now-IsHeard :
        (node : Network) (n d : ℕ)
        → IsFalling node
        → IsNode n
        → IsNode d
        → IsHeard node n d (route_cost (node n) d)
    now-IsHeard node n d f is_n is_d = record {
      stale = omega arith;
      le_inf = route_cost-le_inf net IsNode n d (node n) (f.runs n is_n) is_d;
      fits = f.fits n d is_n is_d;
      exact = route_cost-Walk node n d f is_n is_d;
    }

    -- From one state to the next, each distance stays or becomes what the neighbour has.
    module _ (node node' : Network) (f : IsFalling node)
        (runs : (a : ℕ) → IsNode a → Runs net IsNode a (node' a))
        (tells : (x m d : ℕ)
          → IsNode d
          → (cell (node' x).distance_vectors m d ≡ cell (node x).distance_vectors m d)
            ⊎ (cell (node' x).distance_vectors m d ≡ route_cost (node m) d)) where
      next-IsHeard :
          (a n d : ℕ)
          → IsNode a
          → IsNode d
          → IsLinked net a n
          → IsHeard node n d (cell (node' a).distance_vectors n d)
      next-IsHeard a n d is_a is_d l = elim (tells a n d is_d) [
        | inl same ↦ subst (IsHeard node n d) (sym same) (f.heard a n d is_a is_d l)
        | inr told ↦
            subst (IsHeard node n d) (sym told)
              (now-IsHeard node n d f (linked-IsNode net IsNode w a n is_a l) is_d)
      ]

      next_cell-le :
          (a n d : ℕ)
          → IsNode a
          → IsNode d
          → IsLinked net a n
          → cell (node' a).distance_vectors n d ≤ cell (node a).distance_vectors n d
      next_cell-le a n d is_a is_d l =
          omega (arith, (f.heard a n d is_a is_d l).stale, tells_le a n d (tells a n d is_d))
        where
          tells_le :
              (a n d : ℕ)
              → (cell (node' a).distance_vectors n d ≡ cell (node a).distance_vectors n d)
                ⊎ (cell (node' a).distance_vectors n d ≡ route_cost (node n) d)
              → route_cost (node n) d ≤ cell (node a).distance_vectors n d
              → cell (node' a).distance_vectors n d ≤ cell (node a).distance_vectors n d
          tells_le a n d (inl e) h = omega arith
          tells_le a n d (inr e) h = omega arith

      falls : (a d : ℕ) → IsNode a → IsNode d → route_cost (node' a) d ≤ route_cost (node a) d
      falls a d is_a is_d = elim (ℕ_discrete a d) [
        | yes same ↦
            let own : route_cost (node' a) d ≡ 0 =
              subst (λ x. route_cost (node' a) x ≡ 0) same (runs a is_a).own in
            omega arith
        | no other ↦ elim (dec_lt (route_cost (node a) d) inf) [
          | no infinite ↦
              omega (arith, route_cost-le_inf net IsNode a d (node' a) (runs a is_a) is_d)
          | yes finite ↦
              let s =
                route_cost-Sum node (room node d) a d (f.runs a is_a)
                  (λ n l. let h = f.heard a n d is_a is_d l in (h.le_inf, h.fits)) is_a is_d other
                  (room_fits node d) finite in
              omega (
                arith,
                s.sum,
                next_cell-le a s.n d is_a is_d s.linked,
                route_cost-le_link net IsNode a d (node' a) (runs a is_a) is_d s.n other s.linked,
              )
        ]
      ]

      room_grows : (d : ℕ) → IsNode d → room node d ≤ room node' d
      room_grows d is_d =
          reach_mono max_link (λ x. route_cost (node x) d) (λ x. route_cost (node' x) d) IsNode
            (λ x is_x. falls x d is_x is_d) nodes b.inside

      next_fits :
          (a d : ℕ)
          → IsNode a
          → IsNode d
          → route_cost (node' a) d < inf
          → route_cost (node' a) d ≤ room node' d
      next_fits a d is_a is_d finite = elim (dec_lt (route_cost (node a) d) inf) [
        | yes before ↦
            omega (arith, falls a d is_a is_d, f.fits a d is_a is_d before, room_grows d is_d)
        | no new ↦ elim (ℕ_discrete a d) [
          | yes same ↦
              let own : route_cost (node' a) d ≡ 0 =
                subst (λ x. route_cost (node' a) x ≡ 0) same (runs a is_a).own in
              omega arith
          | no other ↦
              let s =
                route_cost-Sum node' (room node d) a d (runs a is_a)
                  (λ n l. let h = next-IsHeard a n d is_a is_d l in (h.le_inf, h.fits)) is_a is_d
                  other (room_fits node d) finite in
              omega (
                arith,
                s.sum,
                (next-IsHeard a s.n d is_a is_d s.linked).fits s.finite,
                b.link_le a s.n is_a s.linked,
                reach_more max_link (λ x. route_cost (node x) d) (λ x. route_cost (node' x) d)
                    IsNode (λ x is_x. falls x d is_x is_d) a nodes b.inside (b.has a is_a)
                    (omega arith) finite,
              )
        ]
      ]

      pub next-IsFalling : IsFalling node'
      next-IsFalling = record {
        runs = runs;
        heard = λ a n d is_a is_d l.
            let h = next-IsHeard a n d is_a is_d l in
            record {
              stale =
                  omega (arith, h.stale, falls n d (linked-IsNode net IsNode w a n is_a l) is_d);
              le_inf = h.le_inf;
              fits = λ finite. omega (arith, h.fits finite, room_grows d is_d);
              exact = h.exact;
            };
        fits = next_fits;
      }
