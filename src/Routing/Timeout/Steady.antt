-- ===== src/Routing/Timeout/Steady.antt =====
-- What every tick keeps, wherever the counter stands.
use mathlib.Core.List.{map-map}
use mathlib.Core.Option.{some-injective}
use distance_vector_routing.Common.{
  ℕ, ◌+◌, ◌*◌, ◌≡◌, refl, sym, ◌∙◌, ap, inl, inr, true, List, [], ◌∷◌, map, some, arith, ◌==◌,
  Bool-cases, length-map,
}
use distance_vector_routing.Routing.{is_inactive, Timeval, Router, Routing}
use distance_vector_routing.Routing.Timeout.{
  clock_tick, Network, Datagram, connect_router, tick, timeout_handler,
}
use distance_vector_routing.Routing.Timeout.Expiry.{mark_inactive-Marks}
use distance_vector_routing.Routing.Timeout.Round.{marked}
use distance_vector_routing.Routing.Timeout.Interval.{
  IsReady, interval_micros-fits, end_interval-Sends,
}

-- A change to each router that leaves an inactive one inactive.
pub record Steady (f : Router → Router) : Type 0 where
  pub stays : (r : Router) → is_inactive r.status ≡ true → is_inactive (f r).status ≡ true

marked-stays :
    (now : Timeval) (n : ℕ) (r : Router)
    → is_inactive r.status ≡ true
    → is_inactive (marked now n r).status ≡ true
unfolding marked
marked-stays now n r h = ground arith

connect_router-stays :
    (net : Network) (r : Router)
    → is_inactive r.status ≡ true
    → is_inactive (connect_router net r).status ≡ true
unfolding connect_router
connect_router-stays net r h = ground arith

abbrev pub Result : Routing → Routing → Type 0
Result st st' =
    (f : Router → Router) × IsReady st' × (st'.rs.routers ≡ map f st.rs.routers) × Steady f

map_same : {A : Type 0} (xs : List A) → xs ≡ map (λ x. x) xs
map_same [] = refl
map_same (x ∷ xs) = ap (λ l. x ∷ l) (map_same xs)

-- After `mark_inactive` and the addition to the counter.
tick-Result :
    (net : Network) (st st' : Routing) (sent : List Datagram)
    → IsReady st
    → tick net st ≡ some (st', sent)
    → Result st st'
unfolding tick
tick-Result net st st' sent ready e =
    let e1 = rw (interval_micros-fits st.rs.update_interval ready.fits) at e in
    elim (Bool-cases (st.update_counter == st.rs.update_interval * 1000000)) [
      | inl due ↦
          let (r, run, ready', interval, zeroed, connected, p, packed, packing, s) =
            end_interval-Sends net st ready in
          let same : r.0 ≡ st' = ap (λ x. x.0) (some-injective _ _ (sym run ∙ rw due at e1)) in
          (
            connect_router net,
            rw (← same) ready',
            rw (← same) connected,
            record { stays = connect_router-stays net },
          )
      | inr early ↦
          let same : st ≡ st' = ap (λ x. x.0) (some-injective _ _ (rw early at e1)) in
          (
            (λ x. x),
            rw (← same) ready,
            rw (← same) (map_same st.rs.routers),
            record { stays = λ r h. h },
          )
    ]

pub timeout_handler-Result :
    (now : Timeval) (net : Network) (st st' : Routing) (sent : List Datagram)
    → IsReady st
    → timeout_handler now net st ≡ some (st', sent)
    → Result st st'
unfolding timeout_handler
timeout_handler-Result now net st st' sent ready e =
    elim (Bool-cases (st.rs.update_interval == 0)) [
      | inl off ↦
          let same : st ≡ st' = ap (λ x. x.0) (some-injective _ _ (rw off at e)) in
          (
            (λ x. x),
            rw (← same) ready,
            rw (← same) (map_same st.rs.routers),
            record { stays = λ r h. h },
          )
      | inr on ↦
          let (mid, run, marks, routers) = mark_inactive-Marks now st ready.self.0 ready.self.1 in
          let m = marked now st.rs.update_interval in
          let next = record mid { update_counter = mid.update_counter + clock_tick } in
          let ready' : IsReady next = record {
            self = (marks.self.0, marks.self.1);
            counted = rw (marks.count, routers) (length-map m st.rs.routers ∙ ready.counted);
            fits = rw (marks.interval) (ready.fits);
          } in
          let (f, ready'', routers', steady) =
            tick-Result net next st' sent ready' (rw (on, run) at e) in
          (
            (λ r. f (m r)),
            ready'',
            routers' ∙ ap (map f) routers ∙ map-map f m st.rs.routers,
            record { stays = λ r h. steady.stays (m r) (marked-stays now _ r h) },
          )
    ]
