-- ===== src/Routing/Quiet/Shortest.antt =====
-- Routes and shortest ways in a quiet network.
use Prim.Native.Nat.{min}
use native.Mathlib.Decide.{dec_lt, ℕ_discrete}
use distance_vector_routing.Common.{
  ℕ, zero, suc, ◌≡◌, ◌≢◌, refl, sym, ap, subst, ◌∙◌, ◌+◌, ◌%◌, ◌^◌, ◌<◌, ◌≤◌, inl, inr, true, List,
  [], ◌∷◌, some, arith, ltb, get_elem?, Bool-cases,
}
use distance_vector_routing.OrdMap.{OrdMap, at, lookup}
use distance_vector_routing.Routing.{inf, is_neighbour, Router, Route, Routing, no_route}
use distance_vector_routing.Routing.Vectors.{Vectors, cell}
use distance_vector_routing.Routing.Recompute.Best.{
  candidate_cost, best_cost, best_route, best_cost-le, best_cost-le_candidate,
}
use distance_vector_routing.Routing.Recompute.Shortest.{recompute-Recomputed}
use distance_vector_routing.Routing.Quiet.{
  route_cost, link, IsLinked, Walk, arrived, hop, IsShortest, IsQuiet,
}

-- A finite best cost is that of some way.
pub best_cost-candidate :
    (v : Vectors) (me d : ℕ) (ns : List Router)
    → best_cost v me d ns ≢ inf
    → (j : ℕ) × (n : Router) × (get_elem? ns j ≡ some n)
      × (candidate_cost v me d n ≡ best_cost v me d ns)
unfolding best_cost
best_cost-candidate v me d [] h = absurd (h refl)
best_cost-candidate v me d (n ∷ ns) h =
    elim (Bool-cases (ltb (best_cost v me d ns) (candidate_cost v me d n))) [
      | inr head ↦ (zero, n, refl, ground arith)
      | inl tail ↦
          let least : min (candidate_cost v me d n) (best_cost v me d ns) ≡ best_cost v me d ns =
            ground arith in
          let (j, m, at_j, same) = best_cost-candidate v me d ns (λ e. h (least ∙ e)) in
          (suc j, m, at_j, same ∙ sym least)
    ]

-- A finite candidate is a neighbour by a link that is up, and what it costs.
pub candidate_cost-parts :
    (v : Vectors) (me d : ℕ) (n : Router)
    → candidate_cost v me d n ≢ inf
    → (is_neighbour n.type ≡ true)
      × (cell v me n.router_id ≢ inf)
      × (cell v n.router_id d ≢ inf)
      × (candidate_cost v me d n ≡ (cell v me n.router_id + cell v n.router_id d) % 2 ^ 16)
unfolding candidate_cost
candidate_cost-parts v me d n h = ground arith

pub at-lookup :
    (d : ℕ) (table : OrdMap Route) (r : Route) → lookup d table ≡ some r → at no_route d table ≡ r
unfolding at
at-lookup d table r h = ground (arith, h)

pub route_cost-lookup :
    (st : Routing) (d : ℕ) (r : Route)
    → lookup d st.routing_table ≡ some r
    → route_cost st d ≡ r.cost
route_cost-lookup st d r h = ap (λ e. e.cost) (at-lookup d st.routing_table r h)

module _ (node : ℕ → Routing) (IsNode : ℕ → Type 0) (quiet : IsQuiet node IsNode) where
  -- The Bellman-Ford equation, for the costs that the routers have now.
  route_cost-best :
      (a d : ℕ)
      → IsNode a
      → IsNode d
      → a ≢ d
      → route_cost (node a) d ≡ best_cost (node a).distance_vectors a d (node a).rs.routers
  unfolding best_route
  route_cost-best a d is_a is_d other =
      let (me, is_me, id) = quiet.self a is_a in
      let (st, run, r) = recompute-Recomputed (node a) me is_me in
      sym (quiet.settled a d st is_a is_d run)
      ∙ route_cost-lookup st d
          (best_route (node a).distance_vectors me.router_id (node a).rs.routers d)
          (r.table d ∙ rw (quiet.others a d is_a is_d other))
      ∙ rw id

  -- The way through a neighbour costs what its link and its route cost together.
  candidate_cost-linked :
      (a n d : ℕ)
      → IsNode a
      → IsNode d
      → (l : IsLinked node a n) → link node a n + route_cost (node n) d < inf
      → candidate_cost (node a).distance_vectors a d l.router
        ≡ link node a n + route_cost (node n) d
  unfolding candidate_cost
  candidate_cost-linked a n d is_a is_d l small =
      let told = quiet.told a n d is_a is_d l in
      rw (l.id, l.is_neighbour, told) (ground (arith, l.up))

  own_cost : (a d : ℕ) → IsNode a → a ≡ d → route_cost (node a) d ≡ 0
  own_cost a d is_a same = subst (λ x. route_cost (node a) x ≡ 0) same (quiet.own a is_a)

  route_cost-le_inf : (a d : ℕ) → IsNode a → IsNode d → route_cost (node a) d ≤ inf
  route_cost-le_inf a d is_a is_d = elim (ℕ_discrete a d) [
    | yes same ↦ omega (arith, own_cost a d is_a same)
    | no other ↦ omega (
      arith,
      route_cost-best a d is_a is_d other,
      best_cost-le (node a).distance_vectors a d (node a).rs.routers,
    )
  ]

  -- The route is no dearer than the link to a neighbour and the neighbour's route.
  route_cost-le_hop :
      (a n d : ℕ)
      → IsNode a
      → IsNode d
      → IsLinked node a n
      → route_cost (node a) d ≤ link node a n + route_cost (node n) d
  route_cost-le_hop a n d is_a is_d l = elim (ℕ_discrete a d) [
    | yes same ↦ omega (arith, own_cost a d is_a same)
    | no other ↦ elim (dec_lt (link node a n + route_cost (node n) d) inf) [
      | no large ↦ omega (arith, route_cost-le_inf a d is_a is_d)
      | yes small ↦ omega (
        arith,
        route_cost-best a d is_a is_d other,
        best_cost-le_candidate (node a).distance_vectors a d (node a).rs.routers l.index l.router
            l.listed,
        candidate_cost-linked a n d is_a is_d l small,
      )
    ]
  ]

  -- No way costs less than the route.
  route_cost-le :
      (d : ℕ)
      → IsNode d
      → (a total : ℕ) → IsNode a
      → Walk node d a total
      → route_cost (node a) d ≤ total
  route_cost-le d is_d a total is_a (arrived _ _ same zero_cost) =
      omega (arith, own_cost a d is_a same)
  route_cost-le d is_d a total is_a (hop _ n rest _ l w sum) = omega (
    arith,
    route_cost-le_hop a n d is_a is_d l,
    route_cost-le d is_d n rest (quiet.inside a n is_a l) w,
  )

  -- A finite route goes on by a neighbour, whose route costs less.
  next_hop_cost :
      (a d : ℕ)
      → IsNode a
      → IsNode d
      → a ≢ d
      → route_cost (node a) d ≢ inf
      → (n : ℕ) × IsLinked node a n
        × (route_cost (node n) d ≢ inf)
        × (route_cost (node a) d ≡ link node a n + route_cost (node n) d)
  next_hop_cost a d is_a is_d other finite =
      let v = (node a).distance_vectors in
      let best = route_cost-best a d is_a is_d other in
      let (j, r, at_j, same) =
        best_cost-candidate v a d (node a).rs.routers (λ e. finite (best ∙ e)) in
      let (near, up, known, cost) =
        candidate_cost-parts v a d r (λ e. finite (best ∙ sym same ∙ e)) in
      let l : IsLinked node a r.router_id = record {
        index = j;
        router = r;
        listed = at_j;
        is_neighbour = near;
        id = refl;
        up = up;
      } in
      let told = quiet.told a r.router_id d is_a is_d l in
      let finite_rest : route_cost (node r.router_id) d ≢ inf = λ e. known (told ∙ e) in
      let small = quiet.fits a r.router_id d is_a is_d l finite_rest in
      (r.router_id, l, finite_rest, best ∙ sym same ∙ cost ∙ omega (arith, told, small))

  route_cost-Walk :
      (k a d : ℕ)
      → IsNode a
      → IsNode d
      → route_cost (node a) d < k
      → route_cost (node a) d ≢ inf
      → Walk node d a (route_cost (node a) d)
  route_cost-Walk zero a d is_a is_d small finite = absurd (omega arith)
  route_cost-Walk (suc k) a d is_a is_d small finite = elim (ℕ_discrete a d) [
    | yes same ↦ arrived a (route_cost (node a) d) same (own_cost a d is_a same)
    | no other ↦
        let (n, l, finite_rest, sum) = next_hop_cost a d is_a is_d other finite in
        hop a n (route_cost (node n) d) (route_cost (node a) d) l
          (route_cost-Walk k n d (quiet.inside a n is_a l) is_d
            (omega (arith, quiet.positive a n is_a l)) finite_rest)
          sum
  ]

  -- In a network whose routers know themselves at cost 0 and list each other, in which every router
  -- was told its neighbours' costs and no recomputation would change a cost, where every link costs
  -- more than 0, and a link and a finite route that its neighbour tells cost less than 2 ^ 16
  -- together: each route has the cost of a shortest way, so no way through the network costs less,
  -- and a route of finite cost is the cost of some way.
  pub route_cost-IsShortest :
      (a d : ℕ) → IsNode a → IsNode d → IsShortest node d a (route_cost (node a) d)
  route_cost-IsShortest a d is_a is_d = record {
    least = λ total w. route_cost-le d is_d a total is_a w;
    reached = elim (ℕ_discrete (route_cost (node a) d) inf) [
      | yes infinite ↦ inl infinite
      | no finite ↦
          inr (route_cost-Walk (suc (route_cost (node a) d)) a d is_a is_d (omega arith) finite)
    ];
  }
