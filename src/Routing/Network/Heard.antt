-- ===== src/Routing/Network/Heard.antt =====
-- What a router knows once it has taken in what a neighbour told it.
use distance_vector_routing.Common.{
  ℕ, zero, suc, ◌≡◌, ◌≢◌, sym, ◌∙◌, ◌==◌, true, false, List, [], ◌∷◌, map, some, arith, get_elem?,
  if◌then◌else◌,
}
use distance_vector_routing.OrdMap.{OrdMap, at, lookup}
use distance_vector_routing.Routing.{active, is_inactive, Timeval, Router, Route, no_route, Routing}
use distance_vector_routing.Routing.Vectors.{cell}
use distance_vector_routing.Routing.Recompute.Best.{best_route, is_destination}
use distance_vector_routing.Routing.Update.{UpdateEntry}
use distance_vector_routing.Routing.Update.Process.{last_cost, Accepted}
use distance_vector_routing.Routing.Payload.RoundTrip.{told_entry}
use distance_vector_routing.Routing.Quiet.{route_cost}
use distance_vector_routing.Routing.Quiet.Shortest.{at-lookup}
use distance_vector_routing.Routing.Network.{Network}
use distance_vector_routing.Routing.Network.Alike.{
  Alike, set-AllAlike, best_route-AllAlike, is_destination-AllAlike,
}
use distance_vector_routing.Routing.Network.Known.{IsNetwork, Runs}

-- All entries for a router tell the same cost.
last_cost-told :
    (t : OrdMap Route) (d x : ℕ) (rs : List Router)
    → x ≡ (at no_route d t).cost
    → last_cost d (map (told_entry t) rs) x ≡ (at no_route d t).cost
unfolding last_cost
last_cost-told t d x [] h = h
last_cost-told t d x (r ∷ rs) h =
    last_cost-told t d (if r.router_id == d then (at no_route r.router_id t).cost else x) rs
      (ground (arith, h))

pub last_cost-listed :
    (t : OrdMap Route) (d x : ℕ) (rs : List Router) (i : ℕ) (r : Router)
    → get_elem? rs i ≡ some r
    → r.router_id ≡ d
    → last_cost d (map (told_entry t) rs) x ≡ (at no_route d t).cost
unfolding last_cost
last_cost-listed t d x [] i r h e = cc
last_cost-listed t d x (s ∷ rs) zero r h e =
    last_cost-told t d (if s.router_id == d then (at no_route s.router_id t).cost else x) rs
      (ground (arith, h, e))
last_cost-listed t d x (s ∷ rs) (suc i) r h e =
    last_cost-listed t d (if s.router_id == d then (at no_route s.router_id t).cost else x) rs i r h
      e

heard-Alike :
    (now : Timeval) (src s : Router)
    → is_inactive src.status ≡ false
    → Alike src s
    → Alike (record src { status = active; last_update = now }) s
heard-Alike now src s live a = record {
  id = a.id;
  port = a.port;
  ip = a.ip;
  type = a.type;
  fd = a.fd;
  gone = sym live ∙ a.gone;
}

route_cost-same :
    (st st' : Routing) (d : ℕ)
    → lookup d st'.routing_table ≡ lookup d st.routing_table
    → route_cost st' d ≡ route_cost st d
unfolding at
route_cost-same st st' d h = rw (route_cost, h)

module _ (net : Network) (IsNode : ℕ → Type 0) (w : IsNetwork net IsNode) (now : Timeval)
    (a n i : ℕ) (src me : Router) (us : List UpdateEntry) (st st' : Routing) (is_a : IsNode a)
    (apart : a ≢ n) (src_id : src.router_id ≡ n) (me_id : me.router_id ≡ a)
    (at_i : get_elem? st.rs.routers i ≡ some src) (r : Runs net IsNode a st)
    (heard : Accepted now i src me us st st') where
  -- The other rows stay.
  pub Accepted-kept :
      (m d : ℕ) → n ≢ m → cell st'.distance_vectors m d ≡ cell st.distance_vectors m d
  Accepted-kept m d other = heard.cells m d ∙ rw src_id (ground (arith, other))

  pub Accepted-told : (d : ℕ) → cell st'.distance_vectors n d ≡ last_cost d us 0
  Accepted-told d = heard.cells n d ∙ rw src_id (ground arith)

  Accepted-solved :
      (d : ℕ)
      → IsNode d
      → a ≢ d
      → at no_route d st'.routing_table ≡ best_route st'.distance_vectors a (net a).rs.routers d
  Accepted-solved d is_d other =
      let known : is_destination d st.rs.routers ≡ true =
        is_destination-AllAlike d st.rs.routers (net a).rs.routers r.alike
        ∙ w.others a d is_a is_d
        ∙ ground (arith, other) in
      at-lookup d st'.routing_table (best_route st'.distance_vectors me.router_id st.rs.routers d)
        (heard.table d ∙ rw known)
      ∙ rw me_id
          (best_route-AllAlike st'.distance_vectors a d st.rs.routers (net a).rs.routers r.alike)

  Accepted-own : route_cost st' a ≡ 0
  Accepted-own =
      let known : is_destination a st.rs.routers ≡ false =
        is_destination-AllAlike a st.rs.routers (net a).rs.routers r.alike
        ∙ w.others a a is_a is_a
        ∙ ground arith in
      route_cost-same st st' a (heard.table a ∙ rw known) ∙ r.own

  pub Accepted-Runs : Runs net IsNode a st'
  Accepted-Runs = record {
    alike = rw (heard.routers) (
        set-AllAlike i st.rs.routers (net a).rs.routers src
          (record src { status = active; last_update = now }) r.alike at_i
          (λ s. heard-Alike now src s heard.live));
    self = heard.self ∙ r.self;
    count = rw (heard.routers) (r.count);
    links = λ m. Accepted-kept a m (λ e. apart (sym e)) ∙ r.links m;
    own = Accepted-own;
    solved = Accepted-solved;
  }
