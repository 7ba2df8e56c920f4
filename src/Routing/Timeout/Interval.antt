-- ===== src/Routing/Timeout/Interval.antt =====
-- A router that is set up, and the end of its interval (`timeout_handler` of src/routing.cpp).
use distance_vector_routing.Common.{
  ◌&&◌, if◌then◌else◌, ℕ, ◌+◌, ◌*◌, ◌%◌, ◌≤◌, ◌<◌, ◌≡◌, refl, ◌∙◌, ap, ◌⊎◌, inl, inr, List, [], ◌∷◌,
  map, some, arith, ltb, Bool-cases, length, length-map,
}
use distance_vector_routing.Routing.{is_neighbour, Timeval, Router, Routing, get_self}
use distance_vector_routing.Routing.Shape.{self_at-map}
use distance_vector_routing.Routing.Payload.{routing_payload}
use distance_vector_routing.Routing.Payload.RoundTrip.{routing_payload-Packed}
use distance_vector_routing.Routing.Timeout.{
  clock_tick, Network, Datagram, send_to, send_routing_updates, connect_router, connect_data_ports,
  interval_micros, mark_inactive, end_interval,
}
use distance_vector_routing.Routing.Timeout.Round.{marked}

-- A router that is set up: it knows itself, it counts every router, and its interval in microseconds
-- fits an `int`.
pub record IsReady (st : Routing) : Type 0 where
  pub self : (me : Router) × (get_self st ≡ some me)
  pub counted : length st.rs.routers ≡ st.rs.router_count
  pub fits : st.rs.update_interval ≤ 2147

-- The datagrams that carry a payload to the neighbours that can be reached, one to each.
abbrev pub reached : Network → List Router → List Router
reached net [] = []
reached net (r ∷ rs) =
    if is_neighbour r.type && net.sends r.ip_str r.router_port
    then r ∷ reached net rs
    else reached net rs

abbrev pub updates_to : Network → List ℕ → List Router → List Datagram
updates_to net p rs =
    map (λ r. record { ip_str = r.ip_str; port = r.router_port; payload = p }) (reached net rs)

send_to-updates_to :
    (net : Network) (p : List ℕ) (rs : List Router) → send_to net p rs ≡ updates_to net p rs
unfolding send_to
send_to-updates_to net p [] = refl
send_to-updates_to net p (r ∷ rs) =
    elim (Bool-cases (is_neighbour r.type && net.sends r.ip_str r.router_port)) [
      | inl yes_sent ↦ rw (yes_sent, send_to-updates_to net p rs)
      | inr not_sent ↦ rw (not_sent, send_to-updates_to net p rs)
    ]

-- The packed table goes to each neighbour that can be reached.
pub record Sends (net : Network) (st st' : Routing) (sent : List Datagram) : Type 0 where
  pub packed :
      (p : List ℕ) × (packed_st : Routing) × (routing_payload st ≡ some (p, packed_st))
      × (sent ≡ send_to net p st.rs.routers)
  pub rs : st'.rs ≡ st.rs
  pub self : st'.self ≡ st.self

send_to-none :
    (net : Network) (p : List ℕ) (rs : List Router) → length rs ≡ 0 → [] ≡ send_to net p rs
unfolding send_to
send_to-none net p [] h = refl
send_to-none net p (r ∷ rs) h = absurd (omega arith)

send_routing_updates-Sends :
    (net : Network) (st : Routing)
    → IsReady st
    → (r : Routing × List Datagram) × (send_routing_updates net st ≡ some r) × Sends net st r.0 r.1
unfolding send_routing_updates
send_routing_updates-Sends net st ready =
    let (p, run, packed) = routing_payload-Packed st ready.self.0 ready.self.1 ready.counted in
    elim (Bool-cases (ltb 0 st.rs.router_count)) [
      | inl some_router ↦ (
        (p.1, send_to net p.0 st.rs.routers),
        rw (some_router, run),
        record {
          packed = (p.0, p.1, run, refl);
          rs = ap (λ x. x.rs) packed.others;
          self = ap (λ x. x.self) packed.others;
        },
      )
      | inr empty ↦
          let none_left : length st.rs.routers ≡ 0 = ground (arith, ready.counted) in
          (
            (st, []),
            rw empty,
            record {
              packed = (p.0, p.1, run, send_to-none net p.0 st.rs.routers none_left);
              rs = refl;
              self = refl;
            },
          )
    ]

-- What the tick after `k` others of an interval does: it moves the counter on, modulo the interval,
-- and sends something only if it completes the interval: what `routing_payload` packs of the state
-- that `mark_inactive` leaves, with the counter moved on, to the neighbours in its list.
pub record Ticked (now : Timeval) (net : Network) (k : ℕ) (st st' : Routing) (sent : List Datagram)
    : Type 0 where
  pub ready : IsReady st'
  pub interval : st'.rs.update_interval ≡ st.rs.update_interval
  pub counter : st'.update_counter ≡ (k + 1) % (st.rs.update_interval * 100) * clock_tick
  pub sends :
      ((k + 1 < st.rs.update_interval * 100) × (sent ≡ []))
      ⊎ ((k + 1 ≡ st.rs.update_interval * 100)
          × (mid : Routing) × (p : List ℕ) × (packed : Routing) × (mark_inactive now st ≡ some mid)
          × (routing_payload (record mid { update_counter = st.update_counter + clock_tick })
              ≡ some (p, packed))
          × (sent ≡ updates_to net p (map (marked now st.rs.update_interval) st.rs.routers)))

connect_data_ports-IsReady :
    (net : Network) (st : Routing) → IsReady st → IsReady (connect_data_ports net st)
unfolding connect_data_ports
connect_data_ports-IsReady net st ready = record {
  self = (
    connect_router net ready.self.0,
    self_at-map (connect_router net) st.rs.routers st.self ready.self.0 ready.self.1,
  );
  counted = length-map (connect_router net) st.rs.routers ∙ ready.counted;
  fits = ready.fits;
}

pub interval_micros-fits : (n : ℕ) → n ≤ 2147 → interval_micros n ≡ some (n * 1000000)
unfolding interval_micros
interval_micros-fits n h = ground arith

pub end_interval-Sends :
    (net : Network) (st : Routing)
    → IsReady st
    → (r : Routing × List Datagram) × (end_interval net st ≡ some r)
      × IsReady r.0
      × (r.0.rs.update_interval ≡ st.rs.update_interval)
      × (r.0.update_counter ≡ 0)
      × (r.0.rs.routers ≡ map (connect_router net) st.rs.routers)
      × (p : List ℕ) × (packed : Routing) × (routing_payload st ≡ some (p, packed))
      × (r.1 ≡ updates_to net p st.rs.routers)
unfolding end_interval
end_interval-Sends net st ready =
    let ((st1, sent), run, s) = send_routing_updates-Sends net st ready in
    let ready1 : IsReady st1 = record {
      self = (ready.self.0, rw (s.self, s.rs) (ready.self.1));
      counted = rw (s.rs) (ready.counted);
      fits = rw (s.rs) (ready.fits);
    } in
    let connected = connect_data_ports-IsReady net st1 ready1 in
    let fields : (connect_data_ports net st1).rs.update_interval ≡ st.rs.update_interval =
      unfold connect_data_ports in ap (λ x. x.update_interval) s.rs in
    (
      (record (connect_data_ports net st1) { update_counter = 0 }, sent),
      rw run,
      record { self = connected.self; counted = connected.counted; fits = connected.fits },
      fields,
      refl,
      unfold connect_data_ports in ap (λ x. map (connect_router net) x.routers) s.rs,
      s.packed.0,
      s.packed.1,
      s.packed.2,
      s.packed.3 ∙ send_to-updates_to net s.packed.0 st.rs.routers,
    )
