-- ===== src/Routing/Events/Tests.antt =====
-- Three events at the sample network whose second router has timed out.
use distance_vector_routing.Common.{
  ℕ, pos, ◌≡◌, refl, true, List, [], ◌∷◌, some, none, arith, get_elem?,
}
use distance_vector_routing.Routing.{inf, inactive, is_inactive, Router, Routing}
use distance_vector_routing.Routing.Payload.{receive_update}
use distance_vector_routing.Routing.Timeout.{Network, Datagram, timeout_handler}
use distance_vector_routing.Routing.Timeout.Interval.{IsReady, Ticked}
use distance_vector_routing.Routing.Timeout.Period.{timeout_handler-Ticked}
use distance_vector_routing.Bytes.{load16, load32, ntohs}
use distance_vector_routing.OrdMap.{at, touch}
use distance_vector_routing.Sockets.{connect_to}
use distance_vector_routing.Routing.Update.{find_by_id}
use distance_vector_routing.Routing.Forward.{next_hop_for}
use distance_vector_routing.Data.{DataState}
use distance_vector_routing.Data.Samples.{quiet}
use distance_vector_routing.Data.Sendfile.{load_sendfile_header, sendfile}
use distance_vector_routing.Routing.Events.{hears, ticks, sends_file, Reach, here, next}
use distance_vector_routing.Routing.Events.Kept.{Reach-inactive}
use distance_vector_routing.Routing.Samples.{at_second, first, second, third, sample, network}

abbrev gone : Router
gone = record second { status = inactive; cost = inf }

abbrev without_second : Routing
without_second = record sample { rs = record sample.rs { routers = first ∷ gone ∷ third ∷ [] } }

without_second-IsReady : IsReady without_second
without_second-IsReady = record { self = (first, refl); counted = refl; fits = omega arith }

-- Every data port has one address, which can be connected to.
abbrev answers : Network
answers = record {
  resolve = λ ip port. some (record { socket_fd = pos 8; reuse_ok = true; joined = true } ∷ []);
  sends = λ ip port. true;
}

-- The file `a` to the third router as transfer 7.
abbrev command : List ℕ
command = 3 ∷ 0 ∷ 0 ∷ 10 ∷ 6 ∷ 7 ∷ 0 ∷ 1 ∷ 97 ∷ []

-- The request opens the third router's data port.
abbrev asked : Routing
asked = record without_second {
  rs = record without_second.rs {
    routers = first ∷ gone ∷ record third { data_socket_fd = pos 8 } ∷ [];
  };
}

request :
    (d : DataState) × (sendfile (λ name. none) answers (pos 5) command (without_second, quiet)
      ≡ some (asked, d))
unfolding sendfile load_sendfile_header load32 load16 ntohs next_hop_for connect_to at find_by_id
    touch
request = (quiet, refl)

asked-IsReady : IsReady asked
asked-IsReady = record { self = (first, refl); counted = refl; fits = omega arith }

ticked :
    (st' : Routing) × (sent : List Datagram) × (timeout_handler (at_second 101) network asked
      ≡ some (st', sent))
    × Ticked (at_second 101) network 0 asked st' sent
ticked = timeout_handler-Ticked (at_second 101) network 0 asked asked-IsReady refl (omega arith)

request_then_tick : Reach without_second ticked.0
request_then_tick =
    let (st', sent, run, t) = ticked in
    let (d, queued) = request in
    let silent : receive_update (at_second 101) none none asked ≡ some asked =
      unfold receive_update in refl in
    next
      (next (next here (sends_file (λ name. none) answers (pos 5) command quiet d queued))
        (hears (at_second 101) none none silent))
      (ticks (at_second 101) network sent run)

Reach-inactive_example :
    (r' : Router) × (get_elem? ticked.0.rs.routers 1 ≡ some r') × (is_inactive r'.status ≡ true)
Reach-inactive_example =
    Reach-inactive without_second ticked.0 1 gone without_second-IsReady refl refl request_then_tick
