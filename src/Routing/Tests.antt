-- ===== src/Routing/Tests.antt =====
-- Runs on the sample network, and the theorems at its states.
use distance_vector_routing.Common.{
  ℕ, ◌+◌, ◌%◌, ◌*◌, ◌^◌, ◌≡◌, refl, ◌≤◌, [], ◌∷◌, List, some, take, map, length, arith, All, pos,
  true, false, none,
}
use distance_vector_routing.OrdMap.{lookup, at}
use distance_vector_routing.Bytes.{htons, load16, ntohui16}
use distance_vector_routing.Routing.{inf, Router, Route, Routing}
use distance_vector_routing.Routing.Vectors.{cell}
use distance_vector_routing.Routing.Recompute.{recompute_routing_table}
use distance_vector_routing.Routing.Recompute.Shortest.{Recomputed, recompute-Recomputed}
use distance_vector_routing.Routing.Recompute.Wraps.{recompute-wraps}
use distance_vector_routing.Routing.Update.{
  UpdateHeader, UpdateEntry, find_by_port_ip, process_update,
}
use distance_vector_routing.Routing.Update.Process.{Accepted, process_update-Accepted}
use distance_vector_routing.Routing.Update.Forgotten.{process_update-unnamed}
use distance_vector_routing.Routing.Payload.{header_size, routing_payload, receive_update}
use distance_vector_routing.Routing.Payload.RoundTrip.{
  FitsRouter, told_header, told_entry, receive_update-routing_payload,
}
use distance_vector_routing.Routing.Timeout.{
  Network, Datagram, connect_data_ports, mark_inactive, timeout_handler, clock_tick,
}
use distance_vector_routing.Routing.Timeout.Connect.{Resolves, connect_data_ports-twice}
use distance_vector_routing.Routing.Timeout.Expiry.{mark_inactive-Marks}
use distance_vector_routing.Routing.Timeout.Round.{marked, Marks}
use distance_vector_routing.Routing.Timeout.Interval.{IsReady, Ticked}
use distance_vector_routing.Routing.Timeout.Period.{
  run_ticks, timeout_handler-Ticked, run_ticks-counter,
}
use distance_vector_routing.Routing.Control.{
  routing_table_response, update_cost, create_response_header, update,
}
use distance_vector_routing.Routing.Control.Response.{read_table, routing_table_response-table}
use distance_vector_routing.Routing.Control.Cost.{Costed, update_cost-Costed, update_cost-fault}
use distance_vector_routing.Routing.Samples.{at_second, first, second, third, sample, network}

recompute-Recomputed_example :
    (st' : Routing) × (recompute_routing_table sample ≡ some st') × Recomputed 1 sample st'
recompute-Recomputed_example = recompute-Recomputed sample first refl

-- Router 3 is reached through router 2 alone, over two links that cost 40000 each.
abbrev far : Routing
far = record sample {
  distance_vectors =
      (1, (1, 0) ∷ (2, 40000) ∷ (3, inf) ∷ [])
      ∷ (2, (1, 40000) ∷ (2, 0) ∷ (3, 40000) ∷ [])
      ∷ (3, (1, inf) ∷ (2, 40000) ∷ (3, 0) ∷ [])
      ∷ [];
}

recompute-wraps_example :
    (st' : Routing) × (r : Route) × (recompute_routing_table far ≡ some st')
    × (lookup 3 st'.routing_table ≡ some r)
    × (r.cost + 2 ^ 16 ≤ cell far.distance_vectors 1 2 + cell far.distance_vectors 2 3)
recompute-wraps_example =
    recompute-wraps far first 1 second 3 refl refl refl refl (unfold cell lookup at in omega arith)
      (unfold cell lookup at in omega arith) (unfold cell lookup at in omega arith)

mark_inactive-Marks_example :
    (st' : Routing) × (mark_inactive (at_second 106) sample ≡ some st')
    × Marks (at_second 106) 1 sample.rs.routers sample st'
    × (st'.rs.routers ≡ map (marked (at_second 106) 2) sample.rs.routers)
mark_inactive-Marks_example = mark_inactive-Marks (at_second 106) sample first refl

-- What router 3 tells: it has lost router 2.
abbrev lost : List UpdateEntry
lost =
    record { ip_addr = 167772163; port = 4003; padding = 0; id = 3; cost = 0 }
    ∷ record { ip_addr = 167772161; port = 4001; padding = 0; id = 1; cost = 2 }
    ∷ []

abbrev from_third : UpdateHeader
from_third = record { update_size = 2; src_port = 4003; src_ip_addr = 167772163 }

process_update-Accepted_example :
    (st' : Routing) × (process_update (at_second 101) from_third lost sample ≡ some st')
    × Accepted (at_second 101) 2 third first lost sample st'
process_update-Accepted_example =
    process_update-Accepted (at_second 101) from_third lost sample 2 third first
      (unfold find_by_port_ip in refl) refl refl

process_update-unnamed_example :
    (st' : Routing) × (r : Route) × (process_update (at_second 101) from_third lost sample
      ≡ some st')
    × (lookup 2 st'.routing_table ≡ some r)
    × (r.cost ≤ cell sample.distance_vectors 1 3)
process_update-unnamed_example =
    process_update-unnamed (at_second 101) from_third lost sample 2 third first 2
      (unfold find_by_port_ip in refl) refl refl refl (λ e. omega arith)
      (unfold cell in omega arith) refl refl

fits_sample : All (FitsRouter sample.routing_table) sample.rs.routers
fits_sample = unfold at in omega arith

receive_update-routing_payload_example :
    (payload : List ℕ) × (st' : Routing) × (routing_payload sample ≡ some (payload, st'))
    × (receive_update (at_second 101) (some (take header_size payload)) (some payload) sample
        ≡ process_update
            (at_second 101)
            (told_header 3 first)
            (map (told_entry sample.routing_table) sample.rs.routers)
            sample)
receive_update-routing_payload_example =
    receive_update-routing_payload (at_second 101) sample sample first refl refl (omega arith)
      (omega arith) (omega arith) (omega arith) fits_sample (omega arith)

sample-IsReady : IsReady sample
sample-IsReady = record { self = (first, refl); counted = refl; fits = omega arith }

timeout_handler-Ticked_example :
    (st' : Routing) × (sent : List Datagram) × (timeout_handler (at_second 101) network sample
      ≡ some (st', sent))
    × Ticked (at_second 101) network 0 sample st' sent
timeout_handler-Ticked_example =
    timeout_handler-Ticked (at_second 101) network 0 sample sample-IsReady refl (omega arith)

run_ticks-counter_example :
    (st' : Routing) × (run_ticks ((at_second 101, network) ∷ (at_second 102, network) ∷ []) sample
      ≡ some st')
    × IsReady st'
    × (st'.update_counter ≡ (0 + 2) % (2 * 100) * clock_tick)
run_ticks-counter_example =
    run_ticks-counter ((at_second 101, network) ∷ (at_second 102, network) ∷ []) 0 sample
      sample-IsReady refl (omega arith)

routing_table_response-table_example :
    (reply : List ℕ) × (routing_table_response 167772161 sample ≡ some reply)
    × (length reply ≡ 8 + 3 * 8)
    × (load16 reply 6 ≡ some (htons (3 * 8)))
    × (read_table reply 3 8 ≡ some sample.routing_table)
routing_table_response-table_example =
    routing_table_response-table 167772161 sample (omega arith) (omega arith) (omega arith)

-- The id 2 at the cost 9, in network byte order.
abbrev dearer : List ℕ
dearer = 0 ∷ 2 ∷ 0 ∷ 9 ∷ []

update_cost-Costed_example :
    (st' : Routing) × (update_cost 167772161 dearer sample
      ≡ some (st', create_response_header 167772161 update 0 0))
    × Costed 1 2 9 third sample st'
update_cost-Costed_example =
    update_cost-Costed 167772161 dearer sample 2 2 9 4 third first (unfold ntohui16 in refl)
      (unfold ntohui16 in refl) refl refl

-- The id 3, which is that of the last router.
update_cost-fault_example : update_cost 167772161 (0 ∷ 3 ∷ 0 ∷ 9 ∷ []) sample ≡ none
update_cost-fault_example =
    update_cost-fault 167772161 (0 ∷ 3 ∷ 0 ∷ 9 ∷ []) sample 3 2 (unfold ntohui16 in refl)
      (omega arith)

-- The data port of every router has one address, and the connection to it is refused.
abbrev refusing : Network
refusing = record {
  resolve = λ ip port. some (record { socket_fd = pos 8; reuse_ok = true; joined = false } ∷ []);
  sends = λ ip port. true;
}

refused : (r : Router) → Resolves refusing r
refused r = record {
  first = record { socket_fd = pos 8; reuse_ok = true; joined = false };
  others = [];
  found = refl;
  nonzero = (record { nonzero = refl }, tt);
}

connect_data_ports-twice_example :
    connect_data_ports network (connect_data_ports refusing sample)
    ≡ connect_data_ports refusing sample
connect_data_ports-twice_example =
    connect_data_ports-twice refusing network sample
      (refused first, (refused second, (refused third, tt)))
