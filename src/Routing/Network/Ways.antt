-- ===== src/Routing/Network/Ways.antt =====
-- What the distances and the routes of a network say of the ways through it.
use native.Mathlib.Decide.{ℕ_discrete}
use distance_vector_routing.Common.{
  ap, ℕ, suc, ◌≡◌, ◌≢◌, refl, sym, ◌∙◌, ◌+◌, ◌%◌, ◌^◌, ◌<◌, ◌≤◌, true, arith, subst,
}
use distance_vector_routing.OrdMap.{at}
use distance_vector_routing.Routing.{inf, is_neighbour, Router, Routing, no_route}
use distance_vector_routing.Routing.Vectors.{Vectors, cell}
use distance_vector_routing.Routing.Recompute.Best.{
  candidate_cost, best_cost, best_route, best_cost-le_candidate, first_hop-candidate,
}
use distance_vector_routing.Routing.Quiet.{route_cost, link, IsLinked, Walk, arrived, hop}
use distance_vector_routing.Routing.Quiet.Shortest.{best_cost-candidate, candidate_cost-parts}
use distance_vector_routing.Routing.Network.{Network}
use distance_vector_routing.Routing.Network.Known.{Runs, Runs-settled}

-- The number of links of a way.
unfoldable pub hops : {node : ℕ → Routing} {d a total : ℕ} → Walk node d a total → ℕ
hops (arrived _ _ same zero_cost) = 0
hops (hop _ n rest _ l way sum) = suc (hops way)

-- What `a` was told by `n` is no more than the cost of any way from there with fewer than `k` links.
abbrev pub Told : Network → (ℕ → Type 0) → ℕ → ℕ → ℕ → Routing → Type 0
Told net IsNode k n a st =
    (d rest : ℕ)
    → IsNode d
    → (way : Walk net d n rest) → hops way < k
    → cell st.distance_vectors n d ≤ rest

-- A cost that is infinite, or, modulo 2 ^ 16, the cost of some way.
abbrev pub IsTrue : Network → ℕ → ℕ → ℕ → Type 0
IsTrue net d a cost = cost ≢ inf → (total : ℕ) × Walk net d a total × (cost ≡ total % 2 ^ 16)

abbrev pub TellsTrue : Network → (ℕ → Type 0) → ℕ → ℕ → Routing → Type 0
TellsTrue net IsNode n a st = (d : ℕ) → IsNode d → IsTrue net d n (cell st.distance_vectors n d)

candidate_cost-le :
    (v : Vectors) (a d : ℕ) (r : Router) (rest : ℕ)
    → cell v r.router_id d ≤ rest
    → is_neighbour r.type ≡ true
    → cell v a r.router_id ≢ inf
    → candidate_cost v a d r ≤ cell v a r.router_id + rest
unfolding candidate_cost
candidate_cost-le v a d r rest h near up = ground (arith, near, up)

module _ (net : Network) (IsNode : ℕ → Type 0) (a d : ℕ) (st : Routing) (r : Runs net IsNode a st)
    (is_d : IsNode d) where
  -- A route costs no more than a link and what the neighbour told.
  pub route_cost-le_link :
      (n : ℕ)
      → a ≢ d
      → IsLinked net a n
      → route_cost st d ≤ link net a n + cell st.distance_vectors n d
  route_cost-le_link n other l =
      let v = st.distance_vectors in
      let same : cell v a l.router.router_id ≡ link net a n = rw (l.id) (r.links n) in
      let told : cell v l.router.router_id d ≡ cell v n d = rw (l.id) in
      omega (
        arith,
        Runs-settled r d is_d other,
        best_cost-le_candidate v a d (net a).rs.routers l.index l.router l.listed,
        candidate_cost-le v a d l.router (cell v l.router.router_id d) (omega arith) l.is_neighbour
            (λ e. l.up (sym same ∙ e)),
        same,
        told,
      )

  -- Where every neighbour told costs that are no more than those of ways with fewer than `k` links, the
  -- routes cost no more than ways with up to `k` links.
  pub route_cost-le_Told :
      (k total : ℕ)
      → ((n : ℕ) → IsLinked net a n → Told net IsNode k n a st)
      → (way : Walk net d a total) → hops way ≤ k
      → route_cost st d ≤ total
  unfolding hops
  route_cost-le_Told k total told (arrived _ _ same zero_cost) short =
      let own : route_cost st d ≡ 0 = subst (λ x. route_cost st x ≡ 0) same r.own in omega arith
  route_cost-le_Told k total told (hop _ n rest _ l way sum) short = elim (ℕ_discrete a d) [
    | yes same ↦
        let own : route_cost st d ≡ 0 = subst (λ x. route_cost st x ≡ 0) same r.own in omega arith
    | no other ↦ omega (arith, route_cost-le_link n other l, told n l d rest is_d way (omega arith))
  ]

  -- A finite route goes on by a neighbour that told a finite cost, its next hop.
  pub record Hop : Type 0 where
    pub n : ℕ
    pub linked : IsLinked net a n
    pub finite : cell st.distance_vectors n d ≢ inf
    pub cost : route_cost st d ≡ (link net a n + cell st.distance_vectors n d) % 2 ^ 16
    pub via : (at no_route d st.routing_table).next_hop_id ≡ n

  pub route_cost-Hop : a ≢ d → route_cost st d ≢ inf → Hop
  unfolding best_route
  route_cost-Hop other finite =
      let v = st.distance_vectors in
      let best = Runs-settled r d is_d other in
      let (i, p, at_i, cheapest) =
        best_cost-candidate v a d (net a).rs.routers (λ e. finite (best ∙ e)) in
      let (j, q, at_j, same, first) =
        first_hop-candidate v a d (best_cost v a d (net a).rs.routers) (net a).rs.routers i p at_i
          cheapest in
      let (near, up, known, cost) =
        candidate_cost-parts v a d q (λ e. finite (best ∙ sym same ∙ e)) in
      record {
        n = q.router_id;
        linked = record {
          index = j;
          router = q;
          listed = at_j;
          is_neighbour = near;
          id = refl;
          up = λ e. up (r.links q.router_id ∙ e);
        };
        finite = known;
        cost = best ∙ sym same ∙ cost ∙ rw (r.links q.router_id);
        via =
            ap (λ e. e.next_hop_id) (r.solved d is_d other)
            ∙ ground
                (arith, first, λ (e : best_cost v a d (net a).rs.routers ≡ inf). finite (best ∙ e));
      }

  -- Where every neighbour told true costs, the route's cost is true.
  pub route_cost-IsTrue :
      ((n : ℕ) → IsLinked net a n → TellsTrue net IsNode n a st) → IsTrue net d a (route_cost st d)
  route_cost-IsTrue true_costs finite = elim (ℕ_discrete a d) [
    | yes same ↦
        let own : route_cost st d ≡ 0 = subst (λ x. route_cost st x ≡ 0) same r.own in
        (0, arrived a 0 same refl, own)
    | no other ↦
        let h = route_cost-Hop other finite in
        let (rest, way, e) = true_costs h.n h.linked d is_d h.finite in
        (
          link net a h.n + rest,
          hop a h.n rest (link net a h.n + rest) h.linked way refl,
          h.cost ∙ omega (arith, e),
        )
  ]
