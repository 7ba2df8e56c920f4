-- ===== src/Routing/Events/Kept.antt =====
-- What the events of the routing part leave as it was.
use mathlib.Core.Option.{some-injective}
use distance_vector_routing.Common.{
  ℕ, ◌≡◌, refl, sym, ◌∙◌, ap, ◌⊎◌, inl, inr, true, false, List, Option, none, some, arith, ◌==◌,
  ltb, Bool-cases, Option-cases, >>=-eq-some, get_elem?, get_elem?-set, length-set, get_elem?-map,
}
use distance_vector_routing.Routing.{is_inactive, active, Timeval, Router, Routing}
use distance_vector_routing.Routing.Shape.{self_at-set}
use distance_vector_routing.Routing.Update.{
  UpdateHeader, UpdateEntry, find_by_port_ip, process_update,
}
use distance_vector_routing.Routing.Update.Process.{
  find_by_port_ip-some, process_update-Accepted, process_update-ignored,
}
use distance_vector_routing.Routing.Payload.{load_header, load_entries, receive_update}
use distance_vector_routing.Routing.Timeout.{Network, Datagram, timeout_handler}
use distance_vector_routing.Routing.Timeout.Interval.{IsReady}
use distance_vector_routing.Routing.Timeout.Steady.{timeout_handler-Result}
use distance_vector_routing.Routing.Control.{update_cost}
use distance_vector_routing.Routing.Control.Cost.{Costed, update_cost-Costed, update_cost-parsed}
use distance_vector_routing.Routing.Events.{
  Step, hears, ticks, costs, sends_file, takes_in, Reach, here, next,
}
use distance_vector_routing.Routing.Events.Keeps.{Keeps, Keeps-same}
use distance_vector_routing.Routing.Events.Hops.{sendfile-Keeps, receive-Keeps}

receive_update-cases :
    (now : Timeval) (peeked received : Option (List ℕ)) (st st' : Routing)
    → receive_update now peeked received st ≡ some st'
    → (st' ≡ st)
      ⊎ ((h : UpdateHeader) × (us : List UpdateEntry) × (process_update now h us st ≡ some st'))
unfolding receive_update
receive_update-cases now none received st st' e = inl (ground arith)
receive_update-cases now (some p) none st st' e = elim (Option-cases (load_header p)) [
  | inl bad ↦ ground (arith, bad)
  | inr (h, good) ↦ inl (ground (arith, good))
]
receive_update-cases now (some p) (some q) st st' e = elim (Bool-cases (ltb 0 st.rs.router_count)) [
  | inr off ↦ inl (ground (arith, off))
  | inl on ↦
      let (h, good, e1) = >>=-eq-some (load_header p) _ (rw on at e) in
      elim (Bool-cases (h.update_size == 0)) [
        | inl none_left ↦ inl (ground (arith, none_left))
        | inr more ↦
            let (us, read, e2) = >>=-eq-some (load_entries q h.update_size 0) _ (rw more at e1) in
            inr (h, us, e2)
      ]
]

-- Once `self` is set, an update from a router that is not inactive keeps the state set up, and
-- changes no inactive router.
accepted-Keeps :
    (now : Timeval) (h : UpdateHeader) (us : List UpdateEntry) (st st' : Routing)
    → (i : ℕ) (src : Router) → IsReady st
    → find_by_port_ip h.src_port h.src_ip_addr st.rs.routers ≡ some (i, src)
    → is_inactive src.status ≡ false
    → process_update now h us st ≡ some st'
    → Keeps st st'
accepted-Keeps now h us st st' i src ready found live e =
    let (me, is_me) = ready.self in
    let (st1, run, a) = process_update-Accepted now h us st i src me found live is_me in
    let same : st1 ≡ st' = some-injective _ _ (sym run ∙ e) in
    let heard = record src { status = active; last_update = now } in
    let at_i = (find_by_port_ip-some h.src_port h.src_ip_addr st.rs.routers i src found).0 in
    let (m, is_m, id) = self_at-set st.rs.routers st.self i src heard me at_i refl is_me in
    rw (← same) (record {
      ready = record {
        self = (m, rw (a.self, a.routers) is_m);
        counted = rw (a.routers) (length-set st.rs.routers i heard ∙ ready.counted);
        fits = rw (a.routers) (ready.fits);
      };
      gone = λ j r at_j inactive.
          let other : (i == j) ≡ false = ground (arith, at_i, at_j) in
          (
            r,
            rw (a.routers) (get_elem?-set st.rs.routers i j src heard at_i ∙ rw other at_j),
            inactive,
          );
    })

process_update-Keeps :
    (now : Timeval) (h : UpdateHeader) (us : List UpdateEntry) (st st' : Routing)
    → IsReady st
    → process_update now h us st ≡ some st'
    → Keeps st st'
process_update-Keeps now h us st st' ready e =
    elim (Option-cases (find_by_port_ip h.src_port h.src_ip_addr st.rs.routers)) [
      | inl missing ↦
          Keeps-same ready
            (some-injective _ _ (sym e ∙ process_update-ignored now h us st (inl missing)))
      | inr ((i, src), found) ↦ elim (Bool-cases (is_inactive src.status)) [
        | inl dead ↦ Keeps-same ready (
            some-injective _ _
              (sym e ∙ process_update-ignored now h us st (inr (i, src, found, dead))))
        | inr live ↦ accepted-Keeps now h us st st' i src ready found live e
      ]
    ]

timeout_handler-Keeps :
    (now : Timeval) (net : Network) (st st' : Routing) (sent : List Datagram)
    → IsReady st
    → timeout_handler now net st ≡ some (st', sent)
    → Keeps st st'
timeout_handler-Keeps now net st st' sent ready e =
    let (f, ready', routers, steady) = timeout_handler-Result now net st st' sent ready e in
    record {
      ready = ready';
      gone = λ j r h inactive.
          (f r, rw routers (get_elem?-map f st.rs.routers j r h), steady.stays r inactive);
    }

Costed-Keeps :
    (me id c : ℕ) (r : Router) (st st' : Routing)
    → IsReady st
    → get_elem? st.rs.routers id ≡ some r
    → Costed me id c r st st'
    → Keeps st st'
Costed-Keeps me id c r st st' ready at_id costed =
    let (m, is_m, same) =
      self_at-set st.rs.routers st.self id r (record r { cost = c }) ready.self.0 at_id refl
        ready.self.1 in
    record {
      ready = record {
        self = (m, rw (costed.self, costed.rs) is_m);
        counted =
            rw (costed.rs) (length-set st.rs.routers id (record r { cost = c }) ∙ ready.counted);
        fits = rw (costed.rs) (ready.fits);
      };
      gone = λ j q at_j inactive. elim (Bool-cases (id == j)) [
        | inl hit ↦ (
          record r { cost = c },
          rw (costed.rs)
              (get_elem?-set st.rs.routers id j r (record r { cost = c }) at_id ∙ rw hit),
          ground (arith, at_id, at_j),
        )
        | inr miss ↦ (
          q,
          rw (costed.rs)
              (get_elem?-set st.rs.routers id j r (record r { cost = c }) at_id ∙ rw miss at_j),
          inactive,
        )
      ];
    }

update_cost-Keeps :
    (peer : ℕ) (payload reply : List ℕ) (st st' : Routing)
    → IsReady st
    → update_cost peer payload st ≡ some (st', reply)
    → Keeps st st'
update_cost-Keeps peer payload reply st st' ready e =
    let ((id, o1, c, o2, r), e1, e2, at_id) = update_cost-parsed peer payload reply st st' e in
    let (st1, run, costed) =
      update_cost-Costed peer payload st id o1 c o2 r ready.self.0 e1 e2 at_id ready.self.1 in
    let same : st1 ≡ st' = ap (λ x. x.0) (some-injective _ _ (sym run ∙ e)) in
    Costed-Keeps ready.self.0.router_id id c r st st' ready at_id (rw same at costed)

Step-Keeps : {st st' : Routing} → IsReady st → Step st st' → Keeps st st'
Step-Keeps {st} {st'} ready (hears now peeked received e) =
    elim (receive_update-cases now peeked received st st' e) [
      | inl same ↦ Keeps-same ready same
      | inr (h, us, run) ↦ process_update-Keeps now h us st st' ready run
    ]
Step-Keeps {st} {st'} ready (ticks now net sent e) =
    timeout_handler-Keeps now net st st' sent ready e
Step-Keeps {st} {st'} ready (costs peer payload reply e) =
    update_cost-Keeps peer payload reply st st' ready e
Step-Keeps {st} {st'} ready (sends_file read_file net controller payload d d' e) =
    sendfile-Keeps read_file net controller payload st st' d d' ready e
Step-Keeps {st} {st'} ready (takes_in net fd header payload d r e same) =
    rw (← same) (receive-Keeps net fd header payload st d r ready e)

Reach-Keeps : {st st' : Routing} → IsReady st → Reach st st' → Keeps st st'
Reach-Keeps ready here = Keeps-same ready refl
Reach-Keeps ready (next r s) =
    let first = Reach-Keeps ready r in
    let then_ = Step-Keeps first.ready s in
    record {
      ready = then_.ready;
      gone = λ j q h inactive.
          let (q', h', inactive') = first.gone j q h inactive in then_.gone j q' h' inactive';
    }

-- Through these events, in any order, a router that is set up stays so: it knows itself, counts every
-- router, and has an interval of at most 2147 seconds.
pub Reach-IsReady : (st st' : Routing) → IsReady st → Reach st st' → IsReady st'
Reach-IsReady st st' ready r = (Reach-Keeps ready r).ready

-- A router that has timed out is never taken back: at a router that is set up (it knows itself,
-- counts every router, and has an interval of at most 2147 seconds), if the router at a place of
-- the list is inactive, so is the router there after any datagrams, ticks, cost updates, file
-- requests and packets, in any order.
pub Reach-inactive :
    (st st' : Routing) (j : ℕ) (r : Router)
    → IsReady st
    → get_elem? st.rs.routers j ≡ some r
    → is_inactive r.status ≡ true
    → Reach st st'
    → (r' : Router) × (get_elem? st'.rs.routers j ≡ some r') × (is_inactive r'.status ≡ true)
Reach-inactive st st' j r ready h inactive reach = (Reach-Keeps ready reach).gone j r h inactive
