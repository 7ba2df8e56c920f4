-- ===== src/Routing/Network/Started.antt =====
-- A network whose routers were just told by INIT of each other.
use native.Mathlib.Decide.{ℕ_discrete}
use mathlib.Core.Option.{some-injective}
use distance_vector_routing.Common.{
  ◌⊎◌, inl, inr, ℕ, ◌≡◌, ◌≢◌, refl, sym, subst, ◌∙◌, ◌==◌, true, List, [], ◌∷◌, ◌+◌, some, length,
  ◌<◌, ◌^◌, All, arith, if◌then◌else◌, get_elem?,
}
use distance_vector_routing.OrdMap.{at}
use distance_vector_routing.Routing.{inf, is_self, Router, Routing, no_route}
use distance_vector_routing.Routing.Vectors.{cell}
use distance_vector_routing.Routing.Recompute.Best.{best_route, is_destination}
use distance_vector_routing.Routing.Init.{Host, parse_init}
use distance_vector_routing.Routing.Init.Message.{InitEntry, FitsInit, init_message, routers_of}
use distance_vector_routing.Routing.Init.Tables.{Distinct}
use distance_vector_routing.Routing.Init.Ready.{Initialised, parse_init-Initialised}
use distance_vector_routing.Routing.Quiet.{IsLinked, arrived}
use distance_vector_routing.Routing.Quiet.Shortest.{at-lookup, route_cost-lookup}
use distance_vector_routing.Routing.Forward.Steps.{FitsAll}
use distance_vector_routing.Routing.Network.{Network}
use distance_vector_routing.Routing.Network.Alike.{AllAlike-refl}
use distance_vector_routing.Routing.Network.Known.{IsNetwork, Runs}
use distance_vector_routing.Routing.Network.Ways.{TellsTrue}
use distance_vector_routing.Routing.Network.Truth.{IsHonest}

-- The router `a` has done nothing but take in its first INIT, which names different routers, itself
-- among them.
pub record IsStarted (a : ℕ) (st : Routing) : Type 0 where
  pub host : Host
  pub update_interval : ℕ
  pub entries : List InitEntry
  pub before : Routing
  pub own_index : ℕ
  pub own : Router
  pub first_init : before.rs.routers ≡ []
  pub count_fits : length entries < 2 ^ 16
  pub interval_fits : update_interval < 2 ^ 16
  pub entries_fit : All FitsInit entries
  pub apart : Distinct (routers_of host 0 entries)
  pub own_listed : get_elem? (routers_of host 0 entries) own_index ≡ some own
  pub own_type : is_self own.type ≡ true
  pub run : parse_init host (init_message update_interval entries) before ≡ some st

module _ (net : Network) (IsNode : ℕ → Type 0) (w : IsNetwork net IsNode) (a : ℕ) (is_a : IsNode a)
    (s : IsStarted a (net a)) where
  record Told : Type 0 where
    me : Router
    id : me.router_id ≡ a
    initialised : Initialised s.host s.update_interval s.entries me (net a)

  told : Told
  told =
      let (st, me, run, i) =
        parse_init-Initialised s.host s.update_interval s.entries s.before s.own_index s.own
          s.first_init s.count_fits s.interval_fits s.entries_fit s.apart s.own_listed s.own_type in
      let same : st ≡ net a = some-injective _ _ (sym run ∙ s.run) in
      let (me', is_me, id, fits) = w.itself a is_a in
      let is_told = subst (Initialised s.host s.update_interval s.entries me) same i in
      let same_me : me ≡ me' = some-injective _ _ (sym is_told.is_me ∙ is_me) in
      record { me = me; id = rw same_me id; initialised = is_told }

  started-solved :
      (d : ℕ)
      → IsNode d
      → a ≢ d
      → at no_route d (net a).routing_table
        ≡ best_route (net a).distance_vectors a (net a).rs.routers d
  started-solved d is_d other =
      let known : is_destination d (net a).rs.routers ≡ true =
        w.others a d is_a is_d ∙ ground (arith, other) in
      at-lookup d (net a).routing_table
        (best_route (net a).distance_vectors told.me.router_id (net a).rs.routers d)
        (told.initialised.solved d known)
      ∙ rw (told.id)

  -- INIT leaves every data port shut.
  pub started-FitsAll : FitsAll (net a).rs.routers
  started-FitsAll = rw (told.initialised.rs) (shut 0 s.entries)
    where
      shut : (i : ℕ) (es : List InitEntry) → FitsAll (routers_of s.host i es)
      shut i [] = tt
      shut i (e ∷ es) = (refl, shut (i + 1) es)

  pub started-Runs : Runs net IsNode a (net a)
  started-Runs = record {
    alike = AllAlike-refl (net a).rs.routers;
    self = refl;
    count = refl;
    links = λ n. refl;
    own = rw (told.id) at (
        route_cost-lookup (net a) told.me.router_id
          (record { cost = 0; next_hop_id = told.me.router_id }) (told.initialised.routes.own));
    solved = started-solved;
  }

  -- A neighbour is known to reach itself, and nothing else.
  pub started-Fresh :
      (n d : ℕ)
      → IsLinked net a n
      → IsNode d
      → ((n ≡ d) × (cell (net a).distance_vectors n d ≡ 0))
        ⊎ (cell (net a).distance_vectors n d ≡ inf)
  started-Fresh n d l is_d =
      let i = told.initialised in
      let routers = routers_of s.host 0 s.entries in
      let same_list : (net a).rs.routers ≡ routers = rw (i.rs) in
      let (m, q, at_m, q_id) = w.listed a d is_a is_d in
      let row : cell (net a).distance_vectors n d ≡ (if l.index == m then 0 else inf) =
        rw (l.id, q_id) at
          (i.distances.other_rows l.index m l.router q (rw same_list at l.listed)
            (rw same_list at at_m) (λ e. w.apart a n is_a l (sym told.id ∙ e ∙ l.id))) in
      elim (ℕ_discrete l.index m) [
        | no other ↦ inr (row ∙ ground (arith, other))
        | yes same ↦
            let router_same : l.router ≡ q = ground (arith, l.listed, at_m, same) in
            inl (sym l.id ∙ rw router_same q_id, row ∙ ground (arith, same))
      ]

  started-TellsTrue : (n : ℕ) → IsLinked net a n → TellsTrue net IsNode n a (net a)
  started-TellsTrue n l d is_d finite = elim (started-Fresh n d l is_d) [
    | inl (id, free) ↦ (0, arrived n 0 id refl, free)
    | inr unknown ↦ absurd (finite unknown)
  ]

-- A network whose routers each took in an INIT, so that they agree on each other, starts as
-- `deliver_rounds-le` and `deliver_all-HasTrueRoutes` ask: every router's routes solve the Bellman-Ford
-- equation, and the costs that it has of its neighbours are true.
pub parse_init-IsHonest :
    (net : Network) (IsNode : ℕ → Type 0)
    → IsNetwork net IsNode
    → ((a : ℕ) → IsNode a → IsStarted a (net a))
    → IsHonest net IsNode net
parse_init-IsHonest net IsNode w started = record {
  runs = λ a is_a. started-Runs net IsNode w a is_a (started a is_a);
  told = λ a n is_a l. started-TellsTrue net IsNode w a is_a (started a is_a) n l;
}
