-- ===== src/Routing/Events/Hops.antt =====
-- The data plane's part in the routing state: `route_for_destination` of src/routing.cpp, and the
-- descriptors that `sendfile` and `receive` of src/data_routing.cpp keep there.
use mathlib.Core.Option.{some-injective}
use distance_vector_routing.Common.{
  ℕ, ℤ, ◌≡◌, refl, sym, ◌∙◌, ap, subst, inl, inr, List, Option, none, some, arith, ◌==◌, drop, set,
  Bool-cases, Option-cases, >>=-eq-some, get_elem?, get_elem?-set, length-set, is_zero,
}
use distance_vector_routing.Sockets.{Opened, connect_to}
use distance_vector_routing.Routing.{Router, Routing, get_self}
use distance_vector_routing.Routing.Shape.{self_at-set}
use distance_vector_routing.Routing.Update.{RouterPointer, with_routers}
use distance_vector_routing.Routing.Timeout.{Network}
use distance_vector_routing.Routing.Timeout.Interval.{IsReady}
use distance_vector_routing.Routing.Forward.{
  route_key, read_route, route_for_destination, hop_of, keep_open, open_port, next_hop_for,
}
use distance_vector_routing.Routing.Forward.Steps.{hop_of-listed}
use distance_vector_routing.Data.{load_packet_header, DataState}
use distance_vector_routing.Data.Sendfile.{
  sendfile_header_size, load_sendfile_header, queue_file, sendfile,
}
use distance_vector_routing.Data.Receive.{Received, decrement, forward_packet, receive}
use distance_vector_routing.Routing.Events.Keeps.{Keeps, Keeps-same}

read_route-Keeps : (k : Option ℕ) (st : Routing) → IsReady st → Keeps st (read_route k st).1
read_route-Keeps none st ready = Keeps-same ready refl
read_route-Keeps (some k) st ready = record {
  ready = record { self = ready.self; counted = ready.counted; fits = ready.fits };
  gone = λ j r h e. (r, h, e);
}

-- A descriptor that is kept.
set_fd-Keeps :
    (i : ℕ) (r : Router) (fd : ℤ) (st : Routing)
    → IsReady st
    → get_elem? st.rs.routers i ≡ some r
    → Keeps st (with_routers st (set st.rs.routers i (record r { data_socket_fd = fd })))
set_fd-Keeps i r fd st ready at_i =
    let r' : Router = record r { data_socket_fd = fd } in
    let (m, is_m, same) =
      self_at-set st.rs.routers st.self i r r' ready.self.0 at_i refl ready.self.1 in
    record {
      ready = record {
        self = (m, is_m);
        counted = length-set st.rs.routers i r' ∙ ready.counted;
        fits = ready.fits;
      };
      gone = λ j q at_j inactive. elim (Bool-cases (i == j)) [
        | inl hit ↦ (
          r',
          get_elem?-set st.rs.routers i j r r' at_i ∙ rw hit refl,
          ground (arith, at_i, at_j, hit, inactive),
        )
        | inr miss ↦ (q, get_elem?-set st.rs.routers i j r r' at_i ∙ rw miss at_j, inactive)
      ];
    }

keep_open-Keeps :
    (i : ℕ) (r : Router) (o : Opened) (st : Routing)
    → IsReady st
    → get_elem? st.rs.routers i ≡ some r
    → Keeps st (keep_open i r o st).1
keep_open-Keeps i r o st ready at_i = elim (Bool-cases o.success) [
  | inl opened ↦ rw opened (set_fd-Keeps i r o.sock_fd st ready at_i)
  | inr failed ↦ rw failed (Keeps-same ready refl)
]

open_port-Keeps :
    (net : Network) (p : RouterPointer) (st : Routing)
    → IsReady st
    → ((i : ℕ) (q : Router) → p ≡ some (i, q) → get_elem? st.rs.routers i ≡ some q)
    → Keeps st (open_port net p st).1
open_port-Keeps net none st ready listed = Keeps-same ready refl
open_port-Keeps net (some (i, q)) st ready listed = elim (Bool-cases (is_zero q.data_socket_fd)) [
  | inr reached ↦ rw reached (Keeps-same ready refl)
  | inl shut ↦ rw shut (
      keep_open-Keeps i q (connect_to (net.resolve q.ip_str q.data_port) q.data_socket_fd) st ready
        (listed i q refl))
]

Keeps-trans : {st mid st' : Routing} → Keeps st mid → Keeps mid st' → Keeps st st'
Keeps-trans k l = record {
  ready = l.ready;
  gone = λ j r h e. let (r', h', e') = k.gone j r h e in l.gone j r' h' e';
}

next_hop_for-Keeps :
    (net : Network) (ip : ℕ) (st : Routing) → IsReady st → Keeps st (next_hop_for net ip st).1
unfolding next_hop_for route_for_destination
next_hop_for-Keeps net ip st ready =
    let (r, mid) = route_for_destination ip st in
    let read = read_route-Keeps (route_key ip st.rs.routers) st ready in
    Keeps-trans read (
      open_port-Keeps net (hop_of r mid.rs.routers) mid read.ready
        (λ i q e. hop_of-listed r mid.rs.routers i q e))

pub sendfile-Keeps :
    (read_file : List ℕ → Option (List ℕ)) (net : Network) (controller : ℤ) (payload : List ℕ)
    (st st' : Routing) (d d' : DataState)
    → IsReady st
    → sendfile read_file net controller payload (st, d) ≡ some (st', d')
    → Keeps st st'
unfolding sendfile
sendfile-Keeps read_file net controller payload st st' d d' ready e =
    let (h, read, e1) = >>=-eq-some (load_sendfile_header payload) _ e in
    let (hop, later) = next_hop_for net h.dest_ip st in
    let (d'', queued, e2) =
      >>=-eq-some (queue_file controller h hop (read_file (drop sendfile_header_size payload)) d)
        (λ d'. some (later, d')) e1 in
    subst (Keeps st) (ap (λ x. x.0) (some-injective _ _ e2))
      (next_hop_for-Keeps net h.dest_ip st ready)

pub receive-Keeps :
    (net : Network) (fd : ℤ) (header payload : Option (List ℕ)) (st : Routing) (d : DataState)
    (r : Received)
    → IsReady st
    → receive net fd header payload st d ≡ some r
    → Keeps st r.routing
unfolding receive
receive-Keeps net fd none payload st d r ready e =
    Keeps-same ready (ap (λ x. x.routing) (sym (some-injective _ _ e)))
receive-Keeps net fd (some header) none st d r ready e =
    let (h, read, e1) = >>=-eq-some (load_packet_header header) _ e in
    Keeps-same ready (ap (λ x. x.routing) (sym (some-injective _ _ e1)))
receive-Keeps net fd (some header) (some payload) st d r ready e =
    let (h, read, e1) = >>=-eq-some (load_packet_header header) _ e in
    elim (Bool-cases ((decrement h).ttl == 0)) [
      | inl dead ↦ Keeps-same ready (ap (λ x. x.routing) (sym (some-injective _ _ (rw dead at e1))))
      | inr live ↦ elim (Option-cases (get_self st)) [
        | inl lost ↦ cc (rw (live, lost) at e1)
        | inr (me, is_me) ↦ elim (Bool-cases (me.ip == h.dest_ip)) [
          | inl mine ↦
              Keeps-same ready
                (ap (λ x. x.routing) (sym (some-injective _ _ (rw (live, is_me, mine) at e1))))
          | inr there ↦
              let (d', queued, e2) =
                >>=-eq-some (forward_packet (decrement h) payload _ d) _
                  (rw (live, is_me, there) at e1) in
              subst (Keeps st) (ap (λ x. x.routing) (some-injective _ _ e2))
                (next_hop_for-Keeps net h.dest_ip st ready)
        ]
      ]
    ]
