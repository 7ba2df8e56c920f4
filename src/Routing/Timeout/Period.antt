-- ===== src/Routing/Timeout/Period.antt =====
-- `timeout_handler` of src/routing.cpp over time.
use native.Mathlib.Nat.{mod-eq_of_lt, mod_self, mod-lt, mod-add-mod}
use native.Mathlib.Decide.{ℕ_discrete}
use distance_vector_routing.Common.{
  ℕ, suc, ◌+◌, ◌*◌, ◌%◌, ◌<◌, ◌≡◌, refl, ◌∙◌, ap, inl, inr, true, false, List, [], ◌∷◌, map, Option,
  some, ◌>>=◌, arith, ◌==◌, length, length-map,
}
use distance_vector_routing.Routing.{Timeval, Routing}
use distance_vector_routing.Routing.Timeout.{
  clock_tick, Network, Datagram, mark_inactive, tick, timeout_handler,
}
use distance_vector_routing.Routing.Timeout.Expiry.{mark_inactive-Marks}
use distance_vector_routing.Routing.Timeout.Round.{marked}
use distance_vector_routing.Routing.Timeout.Interval.{
  updates_to, IsReady, Ticked, interval_micros-fits, end_interval-Sends,
}

-- After `mark_inactive` and the addition to the counter.
module _ (now : Timeval) (net : Network) (k : ℕ) (st mid : Routing) (ready : IsReady mid)
    (interval : mid.rs.update_interval ≡ st.rs.update_interval)
    (routers : mid.rs.routers ≡ map (marked now st.rs.update_interval) st.rs.routers)
    (counter : mid.update_counter ≡ (k + 1) * clock_tick) (lost : Routing)
    (marking : mark_inactive now st ≡ some lost)
    (moved : mid ≡ record lost { update_counter = st.update_counter + clock_tick }) where
  tick_ends :
      k + 1 ≡ st.rs.update_interval * 100
      → (r : Routing × List Datagram) × (tick net mid ≡ some r) × Ticked now net k st r.0 r.1
  unfolding tick
  tick_ends last =
      let (r, run, ready', interval', zeroed, connected, p, packed, packing, sent) =
        end_interval-Sends net mid ready in
      let due : (mid.update_counter == mid.rs.update_interval * 1000000) ≡ true = ground arith in
      (
        r,
        rw (interval_micros-fits _ ready.fits, due) run,
        record {
          ready = ready';
          interval = interval' ∙ interval;
          counter = zeroed ∙ rw last (rw (mod_self (st.rs.update_interval * 100)));
          sends = inr (
            last,
            lost,
            p,
            packed,
            marking,
            rw (← moved) packing,
            sent ∙ ap (updates_to net p) routers,
          );
        },
      )

  tick_waits :
      k + 1 < st.rs.update_interval * 100
      → (r : Routing × List Datagram) × (tick net mid ≡ some r) × Ticked now net k st r.0 r.1
  unfolding tick
  tick_waits more =
      let early : (mid.update_counter == mid.rs.update_interval * 1000000) ≡ false = ground arith in
      (
        (mid, []),
        rw (interval_micros-fits _ ready.fits, early),
        record {
          ready = ready;
          interval = interval;
          counter = counter ∙ rw (mod-eq_of_lt more);
          sends = inl (more, refl);
        },
      )

  tick_lem :
      k < st.rs.update_interval * 100
      → (r : Routing × List Datagram) × (tick net mid ≡ some r) × Ticked now net k st r.0 r.1
  tick_lem below = elim (ℕ_discrete (k + 1) (st.rs.update_interval * 100)) [
    | yes last ↦ tick_ends last
    | no more ↦ tick_waits (omega arith)
  ]

-- A router that knows itself and counts every router in its list, with an interval of at most 2147
-- seconds, `k` ticks into its interval: a tick does not fault, the counter goes on to `k + 1` ticks
-- or back to 0, and something leaves exactly if the interval is over: what `routing_payload` packs
-- of the state that `mark_inactive` leaves, once to each neighbour in the list that can be reached.
pub timeout_handler-Ticked :
    (now : Timeval) (net : Network) (k : ℕ) (st : Routing)
    → IsReady st
    → st.update_counter ≡ k * clock_tick
    → k < st.rs.update_interval * 100
    → (st' : Routing) × (sent : List Datagram) × (timeout_handler now net st ≡ some (st', sent))
      × Ticked now net k st st' sent
unfolding timeout_handler
timeout_handler-Ticked now net k st ready counter below =
    let (me, e) = ready.self in
    let (mid, run, marks, routers) = mark_inactive-Marks now st me e in
    let next = record mid { update_counter = mid.update_counter + clock_tick } in
    let ready' : IsReady next = record {
      self = (marks.self.0, marks.self.1);
      counted = rw (marks.count, routers) (length-map _ st.rs.routers ∙ ready.counted);
      fits = rw (marks.interval) (ready.fits);
    } in
    let busy : (st.rs.update_interval == 0) ≡ false = ground arith in
    let (r, run', ticked) =
      tick_lem now net k st next ready' marks.interval routers (omega (arith, marks.counter)) mid
        run (ap (λ c. record mid { update_counter = c + clock_tick }) marks.counter) below in
    (r.0, r.1, rw (busy, run) run', ticked)

-- A run of ticks, each with its time and what the network answers.
pub run_ticks : List (Timeval × Network) → Routing → Option Routing
run_ticks [] st = some st
run_ticks ((now, net) ∷ ts) st = do (st', sent) ← timeout_handler now net st; run_ticks ts st'

-- A router that knows itself and counts every router in its list, with an interval of at most 2147
-- seconds, runs through any number of ticks without a fault, and is such a router after them; the
-- counter has gone on by as many ticks, modulo the hundred ticks of each second of the interval.
pub run_ticks-counter :
    (ts : List (Timeval × Network)) (k : ℕ) (st : Routing)
    → IsReady st
    → st.update_counter ≡ k * clock_tick
    → k < st.rs.update_interval * 100
    → (st' : Routing) × (run_ticks ts st ≡ some st')
      × IsReady st'
      × (st'.update_counter ≡ (k + length ts) % (st.rs.update_interval * 100) * clock_tick)
unfolding run_ticks
run_ticks-counter [] k st ready counter below =
    let n : k + 0 ≡ k = omega arith in (st, refl, ready, counter ∙ rw (n, mod-eq_of_lt below))
run_ticks-counter ((now, net) ∷ ts) k st ready counter below =
    let n = st.rs.update_interval * 100 in
    let (st1, sent, run, t) = timeout_handler-Ticked now net k st ready counter below in
    let (st2, run', ready', counter') =
      run_ticks-counter ts ((k + 1) % n) st1 t.ready t.counter
        (rw (t.interval) (mod-lt (k + 1) {m = n} (ground arith))) in
    (
      st2,
      rw run run',
      ready',
      counter'
          ∙ rw (t.interval, mod-add-mod (k + 1) n (length ts))
              (let e : k + 1 + length ts ≡ k + suc (length ts) = omega arith in rw e),
    )
