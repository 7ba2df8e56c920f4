-- ===== src/Routing/Network/Follow.antt =====
-- The hops that packets take in a network that has found the shortest ways.
use native.Mathlib.Decide.{ℕ_discrete}
use distance_vector_routing.Common.{
  ℕ, zero, suc, ◌≡◌, ◌≢◌, refl, subst, ◌∙◌, ◌+◌, ◌<◌, ◌≤◌, List, [], ◌∷◌, some, arith,
}
use distance_vector_routing.Routing.{inf, Router, get_self}
use distance_vector_routing.Routing.Forward.{route_key, next_router}
use distance_vector_routing.Routing.Forward.Steps.{next_router-route}
use distance_vector_routing.Routing.Quiet.{route_cost, link, IsLinked, Walk, arrived, hop}
use distance_vector_routing.Routing.Network.{Network}
use distance_vector_routing.Routing.Network.Alike.{AllAlike, get_elem?-AllAlike}
use distance_vector_routing.Routing.Network.Known.{IsNetwork, linked-IsNode}
use distance_vector_routing.Routing.Network.Ways.{hops}
use distance_vector_routing.Routing.Network.Closer.{closer, closer-lt}
use distance_vector_routing.Routing.Network.Room.{IsBounded}
use distance_vector_routing.Routing.Network.Falling.{
  IsFalling, route_cost-Sum, route_cost-Walk, room, room_fits,
}
use distance_vector_routing.Routing.Network.Exact.{HasShortestRoutes}

route_key-AllAlike :
    (ip : ℕ) (rs ss : List Router) → AllAlike rs ss → route_key ip rs ≡ route_key ip ss
unfolding AllAlike route_key
route_key-AllAlike ip [] [] a = refl
route_key-AllAlike ip [] (s ∷ ss) a = absurd a
route_key-AllAlike ip (r ∷ rs) [] a = absurd a
route_key-AllAlike ip (r ∷ rs) (s ∷ ss) a = rw (a.0.ip, a.0.id, route_key-AllAlike ip rs ss a.1)

-- Under the address of each router, every router finds its id, and the router itself has it.
pub record IsAddressed (net : Network) (IsNode : ℕ → Type 0) (address : ℕ → ℕ) : Type 0 where
  pub found : (a d : ℕ) → IsNode a → IsNode d → route_key (address d) (net a).rs.routers ≡ some d
  pub own : (a : ℕ) (me : Router) → IsNode a → get_self (net a) ≡ some me → me.ip ≡ address a

module _ (net : Network) (address : ℕ → ℕ) (node : Network) where
  -- A way on which each router but the last hands packets to the next one.
  unfoldable pub Follows : {d a total : ℕ} → Walk net d a total → Type 0
  Follows (arrived a _ same zero_cost) = Unit
  Follows {d = d} (hop a n rest _ l way sum) =
      (a ≢ d) × (next_router (address d) (node a) ≡ some n) × Follows way

  -- A way that packets take, which costs what the route costs and has at most `k` links.
  pub record Course (k d a : ℕ) : Type 0 where
    pub way : Walk net d a (route_cost (node a) d)
    pub follows : Follows way
    pub few : hops way ≤ k

module _ (net : Network) (IsNode : ℕ → Type 0) (nodes : List ℕ) (max_link : ℕ)
    (w : IsNetwork net IsNode) (b : IsBounded net IsNode nodes max_link) (address : ℕ → ℕ)
    (known : IsAddressed net IsNode address)
    (positive : (a n : ℕ) → IsNode a → IsLinked net a n → 0 < link net a n) where
  module _ (node : Network) (f : IsFalling net IsNode nodes max_link node)
      (short : HasShortestRoutes net IsNode node) where
    -- A router hands packets to a neighbour, whose route costs the rest.
    record Handed (a d : ℕ) : Type 0 where
      n : ℕ
      linked : IsLinked net a n
      rest : route_cost (node a) d ≡ link net a n + route_cost (node n) d
      next : next_router (address d) (node a) ≡ some n

    handed : (a d : ℕ) → IsNode a → IsNode d → a ≢ d → route_cost (node a) d < inf → Handed a d
    handed a d is_a is_d other finite =
        let s =
          route_cost-Sum net IsNode nodes max_link w b node (room net IsNode nodes max_link node d)
            a d (f.runs a is_a) (λ n l. let h = f.heard a n d is_a is_d l in (h.le_inf, h.fits))
            is_a is_d other (room_fits net IsNode nodes max_link w b node d) finite in
        let is_n = linked-IsNode net IsNode w a s.n is_a s.linked in
        let stale = (f.heard a s.n d is_a is_d s.linked).stale in
        let way =
          route_cost-Walk net IsNode nodes max_link w b node s.n d f is_n is_d (omega arith) in
        let least =
          (short.is_shortest a d is_a is_d).least (link net a s.n + route_cost (node s.n) d)
            (hop a s.n (route_cost (node s.n) d) _ s.linked way refl) in
        let alike = (f.runs a is_a).alike in
        let (r, listed, r_alike) =
          get_elem?-AllAlike s.linked.index (node a).rs.routers (net a).rs.routers s.linked.router
            alike s.linked.listed in
        record {
          n = s.n;
          linked = s.linked;
          rest = omega (arith, s.sum);
          next =
              next_router-route (address d) d s.n (node a) s.linked.index r
                (route_key-AllAlike (address d) (node a).rs.routers (net a).rs.routers alike
                  ∙ known.found a d is_a is_d)
                (λ e. omega arith) s.via listed (r_alike.id ∙ s.linked.id);
        }

    -- The routers whose routes cost less are fewer after a hop.
    Handed-closer :
        (a d : ℕ) (h : Handed a d)
        → IsNode a
        → closer (λ x. route_cost (node x) d) (route_cost (node h.n) d) nodes
          < closer (λ x. route_cost (node x) d) (route_cost (node a) d) nodes
    Handed-closer a d h is_a =
        closer-lt (λ x. route_cost (node x) d) (route_cost (node a) d) h.n nodes
          (b.has h.n (linked-IsNode net IsNode w a h.n is_a h.linked))
          (omega (arith, h.rest, positive a h.n is_a h.linked))

    Course-end : (k a d : ℕ) → IsNode a → a ≡ d → Course net address node k d a
    unfolding Follows hops
    Course-end k a d is_a same = record {
      way =
          arrived a (route_cost (node a) d) same
            (subst (λ x. route_cost (node a) x ≡ 0) same (f.runs a is_a).own);
      follows = tt;
      few = omega arith;
    }

    pub course :
        (k a d : ℕ)
        → IsNode a
        → IsNode d
        → route_cost (node a) d < inf
        → closer (λ x. route_cost (node x) d) (route_cost (node a) d) nodes ≤ k
        → Course net address node k d a
    unfolding Follows hops
    course zero a d is_a is_d finite enough = elim (ℕ_discrete a d) [
      | yes same ↦ Course-end zero a d is_a same
      | no other ↦
          absurd (omega (arith, Handed-closer a d (handed a d is_a is_d other finite) is_a))
    ]
    course (suc k) a d is_a is_d finite enough = elim (ℕ_discrete a d) [
      | yes same ↦ Course-end (suc k) a d is_a same
      | no other ↦
          let h = handed a d is_a is_d other finite in
          let c =
            course k h.n d (linked-IsNode net IsNode w a h.n is_a h.linked) is_d
              (omega (arith, h.rest)) (omega (arith, Handed-closer a d h is_a)) in
          record {
            way = hop a h.n (route_cost (node h.n) d) (route_cost (node a) d) h.linked c.way h.rest;
            follows = (other, h.next, c.follows);
            few = omega (arith, c.few);
          }
    ]
