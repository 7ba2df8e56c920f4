-- ===== src/Routing/Network/Known.antt =====
-- What a network of routers rests on, and what stays so while they tell each other their routes.
use distance_vector_routing.Common.{
  ℕ, ◌≡◌, ◌≢◌, ◌<◌, ◌≤◌, ◌^◌, ◌==◌, not, false, List, [], ◌∷◌, some, arith, length, get_elem?, All,
  All-get_elem?, subst, ap,
}
use native.Mathlib.Decide.{ℕ_discrete}
use distance_vector_routing.OrdMap.{OrdMap, at}
use distance_vector_routing.Routing.{inf, is_inactive, Router, Route, no_route, Routing, get_self}
use distance_vector_routing.Routing.Vectors.{cell}
use distance_vector_routing.Routing.Recompute.Best.{
  best_cost, best_route, best_cost-le, is_destination,
}
use distance_vector_routing.Routing.Update.{find_by_port_ip}
use distance_vector_routing.Routing.Payload.RoundTrip.{FitsRouter}
use distance_vector_routing.Routing.Quiet.{route_cost, link, IsLinked}
use distance_vector_routing.Routing.Network.{Network}
use distance_vector_routing.Routing.Network.Alike.{AllAlike}

pub record FitsFields (r : Router) : Type 0 where
  pub ip_fits : r.ip < 2 ^ 32
  pub port_fits : r.router_port < 2 ^ 16
  pub id_fits : r.router_id < 2 ^ 16

-- Every router lists all routers of the network, itself as such, and no others; it finds each
-- neighbour by what the neighbour says of itself, and none has timed out.
pub record IsNetwork (net : Network) (IsNode : ℕ → Type 0) : Type 0 where
  pub itself :
      (a : ℕ)
      → IsNode a
      → (me : Router) × (get_self (net a) ≡ some me) × (me.router_id ≡ a) × FitsFields me
  pub counted : (a : ℕ) → IsNode a → length (net a).rs.routers ≡ (net a).rs.router_count
  pub some_router : (a : ℕ) → IsNode a → 0 < (net a).rs.router_count
  pub count_fits : (a : ℕ) → IsNode a → (net a).rs.router_count < 2 ^ 16
  pub fields : (a : ℕ) → IsNode a → All (λ r. FitsFields r × IsNode r.router_id) (net a).rs.routers
  pub listed :
      (a d : ℕ)
      → IsNode a
      → IsNode d
      → (i : ℕ) × (r : Router) × (get_elem? (net a).rs.routers i ≡ some r) × (r.router_id ≡ d)
  pub others : (a d : ℕ) → IsNode a → IsNode d → is_destination d (net a).rs.routers ≡ not (a == d)
  pub apart : (a n : ℕ) → IsNode a → IsLinked net a n → a ≢ n
  pub heard :
      (a n : ℕ) (me : Router)
      → IsNode a
      → IsLinked net a n
      → get_self (net n) ≡ some me
      → (i : ℕ) × (src : Router) × (find_by_port_ip me.router_port me.ip (net a).rs.routers
          ≡ some (i, src))
        × (src.router_id ≡ n)
        × (is_inactive src.status ≡ false)

-- The state of the router `a` later on: the same routers, the same links, and the routes that the
-- Bellman-Ford equation gives over the distances it has.
pub record Runs (net : Network) (IsNode : ℕ → Type 0) (a : ℕ) (st : Routing) : Type 0 where
  pub alike : AllAlike st.rs.routers (net a).rs.routers
  pub self : st.self ≡ (net a).self
  pub count : st.rs.router_count ≡ (net a).rs.router_count
  pub links : (n : ℕ) → cell st.distance_vectors a n ≡ link net a n
  pub own : route_cost st a ≡ 0
  pub solved :
      (d : ℕ)
      → IsNode d
      → a ≢ d
      → at no_route d st.routing_table ≡ best_route st.distance_vectors a (net a).rs.routers d

pub Runs-settled :
    {net : Network} {IsNode : ℕ → Type 0} {a : ℕ} {st : Routing}
    → Runs net IsNode a st
    → (d : ℕ) → IsNode d
    → a ≢ d
    → route_cost st d ≡ best_cost st.distance_vectors a d (net a).rs.routers
unfolding best_route
Runs-settled r d is_d other = ap (λ e. e.cost) (r.solved d is_d other)

pub route_cost-le_inf :
    (net : Network) (IsNode : ℕ → Type 0) (a d : ℕ) (st : Routing)
    → Runs net IsNode a st
    → IsNode d
    → route_cost st d ≤ inf
route_cost-le_inf net IsNode a d st r is_d = elim (ℕ_discrete a d) [
  | yes same ↦
      let own : route_cost st d ≡ 0 = subst (λ x. route_cost st x ≡ 0) same r.own in
      omega (arith, own)
  | no other ↦
      omega (
        arith,
        Runs-settled r d is_d other,
        best_cost-le st.distance_vectors a d (net a).rs.routers,
      )
]

pub FitsRouter-AllAlike :
    (IsNode : ℕ → Type 0) (table : OrdMap Route) (rs ss : List Router)
    → AllAlike rs ss
    → ((d : ℕ) → IsNode d → (at no_route d table).cost ≤ inf)
    → All (λ r. FitsFields r × IsNode r.router_id) ss
    → All (FitsRouter table) rs
unfolding AllAlike
FitsRouter-AllAlike IsNode table [] [] a costs h = tt
FitsRouter-AllAlike IsNode table [] (s ∷ ss) a costs h = absurd a
FitsRouter-AllAlike IsNode table (r ∷ rs) [] a costs h = absurd a
FitsRouter-AllAlike IsNode table (r ∷ rs) (s ∷ ss) a costs h =
    let small = costs s.router_id h.0.1 in
    (
      record {
        ip_fits = rw (a.0.ip) (h.0.0.ip_fits);
        port_fits = rw (a.0.port) (h.0.0.port_fits);
        id_fits = rw (a.0.id) (h.0.0.id_fits);
        cost_fits = rw (a.0.id) (omega (arith, small));
      },
      FitsRouter-AllAlike IsNode table rs ss a.1 costs h.1,
    )

pub linked-IsNode :
    (net : Network) (IsNode : ℕ → Type 0)
    → IsNetwork net IsNode
    → (a n : ℕ) → IsNode a
    → IsLinked net a n
    → IsNode n
linked-IsNode net IsNode w a n is_a l =
    subst IsNode l.id
      (All-get_elem? (λ r. FitsFields r × IsNode r.router_id) (net a).rs.routers l.index l.router
        (w.fields a is_a) l.listed).1
