-- ===== src/Routing/Forward/Steps.antt =====
-- The next hop of a route, and its port (`route_for_destination` and `find_by_id` of
-- src/routing.cpp).
use native.Mathlib.Decide.{ℕ_discrete}
use distance_vector_routing.Common.{
  ℕ, ℤ, zero, suc, ◌≡◌, ◌≢◌, refl, ◌∙◌, arith, true, inl, inr, List, [], ◌∷◌, Option, none, some,
  get_elem?, get_elem?-set, is_zero, set, Bool-cases, All, All-get_elem?,
}
use distance_vector_routing.OrdMap.{at}
use distance_vector_routing.Sockets.{connect_to}
use distance_vector_routing.Routing.{inf, Router, Route, no_route, Routing}
use distance_vector_routing.Routing.Update.{RouterPointer, find_by_id, with_routers}
use distance_vector_routing.Routing.Timeout.{Network}
use distance_vector_routing.Data.Fds.{fits_set}
use distance_vector_routing.Routing.Forward.{
  NextHop, route_key, read_route, route_for_destination, hop_of, id_of, open_port, next_router,
  next_hop_for,
}

find_by_id-listed :
    (id : ℕ) (rs : List Router) (j : ℕ) (r : Router)
    → get_elem? rs j ≡ some r
    → r.router_id ≡ id
    → (i : ℕ) × (q : Router) × (find_by_id id rs ≡ some (i, q)) × (q.router_id ≡ id)
unfolding find_by_id
find_by_id-listed id [] j r h e = cc
find_by_id-listed id (s ∷ rs) zero r h e =
    let same : s ≡ r = ground arith in (zero, s, rw (same, e) (ground arith), rw (same, e) refl)
find_by_id-listed id (s ∷ rs) (suc j) r h e = elim (ℕ_discrete s.router_id id) [
  | yes here ↦ (zero, s, ground (arith, here), here)
  | no other ↦
      let (i, q, found, same) = find_by_id-listed id rs j r h e in
      (suc i, q, ground (arith, other, found), same)
]

-- A finite route whose next hop is listed is followed to that hop.
pub next_router-route :
    (ip d n : ℕ) (st : Routing) (j : ℕ) (r : Router)
    → route_key ip st.rs.routers ≡ some d
    → (at no_route d st.routing_table).cost ≢ inf
    → (at no_route d st.routing_table).next_hop_id ≡ n
    → get_elem? st.rs.routers j ≡ some r
    → r.router_id ≡ n
    → next_router ip st ≡ some n
unfolding next_router
next_router-route ip d n st j r key finite via listed id =
    let (i, q, found, same) = find_by_id-listed n st.rs.routers j r listed id in
    rw (key, via, found) (ground (arith, finite, same))

find_by_id-some :
    (id : ℕ) (rs : List Router) (i : ℕ) (q : Router)
    → find_by_id id rs ≡ some (i, q)
    → get_elem? rs i ≡ some q
unfolding find_by_id
find_by_id-some id [] i q h = cc
find_by_id-some id (r ∷ rs) zero q h = ground arith
find_by_id-some id (r ∷ rs) (suc i) q h = ground (arith, find_by_id-some id rs i q)

pub hop_of-listed :
    (r : Option Route) (rs : List Router) (i : ℕ) (q : Router)
    → hop_of r rs ≡ some (i, q)
    → get_elem? rs i ≡ some q
hop_of-listed none rs i q h = cc
hop_of-listed (some r) rs i q h = find_by_id-some r.next_hop_id rs i q (ground (arith, h))

-- The way to the router `n` is open: its place in the list, and a descriptor.
pub record OpenHop (n : ℕ) (hop : NextHop) : Type 0 where
  pub index : ℕ
  pub fd : ℤ
  pub after : Routing
  pub router : Router
  pub opened : hop ≡ (some (index, fd), after)
  pub listed : get_elem? after.rs.routers index ≡ some router
  pub id : router.router_id ≡ n
  pub in_range : fits_set fd ≡ true

-- Every data port can be connected to, with a descriptor in the range of FD_SET.
abbrev pub AnswersAll : Network → Type 0
AnswersAll net =
    (r : Router)
    → let o = connect_to (net.resolve r.ip_str r.data_port) r.data_socket_fd in
      (o.success ≡ true) × (fits_set o.sock_fd ≡ true)

-- The descriptors that are kept are in that range.
abbrev pub FitsAll : List Router → Type 0
FitsAll rs = All (λ r. fits_set r.data_socket_fd ≡ true) rs

open_port-OpenHop :
    (net : Network) (n : ℕ) (p : RouterPointer) (st : Routing)
    → AnswersAll net
    → FitsAll st.rs.routers
    → id_of p ≡ some n
    → ((i : ℕ) (q : Router) → p ≡ some (i, q) → get_elem? st.rs.routers i ≡ some q)
    → OpenHop n (open_port net p st)
open_port-OpenHop net n none st answers fit h listed = cc
open_port-OpenHop net n (some (i, q)) st answers fit h listed =
    elim (Bool-cases (is_zero q.data_socket_fd)) [
      | inr reached ↦ record {
        index = i;
        fd = q.data_socket_fd;
        after = st;
        router = q;
        opened = rw reached refl;
        listed = listed i q refl;
        id = ground (arith, h);
        in_range =
            All-get_elem? (λ r. fits_set r.data_socket_fd ≡ true) st.rs.routers i q fit
              (listed i q refl);
      }
      | inl shut ↦
          let o = connect_to (net.resolve q.ip_str q.data_port) q.data_socket_fd in
          let q' : Router = record q { data_socket_fd = o.sock_fd } in
          record {
            index = i;
            fd = o.sock_fd;
            after = with_routers st (set st.rs.routers i q');
            router = q';
            opened = rw (shut, (answers q).0) refl;
            listed = get_elem?-set st.rs.routers i i q q' (listed i q refl) ∙ ground arith;
            id = ground (arith, h);
            in_range = (answers q).1;
          }
    ]

route_for_destination-routers :
    (ip : ℕ) (st : Routing) → (route_for_destination ip st).1.rs.routers ≡ st.rs.routers
unfolding route_for_destination
route_for_destination-routers ip st = go (route_key ip st.rs.routers)
  where
    go : (k : Option ℕ) → (read_route k st).1.rs.routers ≡ st.rs.routers
    go none = refl
    go (some k) = refl

-- Where every data port can be connected to, the hop of the route is reached.
pub next_router-OpenHop :
    (net : Network) (ip n : ℕ) (st : Routing)
    → AnswersAll net
    → FitsAll st.rs.routers
    → next_router ip st ≡ some n
    → OpenHop n (next_hop_for net ip st)
unfolding next_router next_hop_for
next_router-OpenHop net ip n st answers fit h =
    let (r, st') = route_for_destination ip st in
    let fit' : FitsAll st'.rs.routers = rw (route_for_destination-routers ip st) fit in
    open_port-OpenHop net n (hop_of r st'.rs.routers) st' answers fit' h
      (λ i q e. hop_of-listed r st'.rs.routers i q e)
