-- ===== src/Routing/Timeout.antt =====
-- `send_routing_updates`, `connect_data_ports`, `mark_inactive` and `timeout_handler` of
-- src/routing.cpp. The clock and the network are arguments.
pub mod Interval
pub mod Period
pub mod Connect
pub mod Round
pub mod Expiry
pub mod Steady
use Prim.Native.String.{String}
use distance_vector_routing.Common.{
  ℕ, zero, suc, ◌+◌, ◌*◌, ◌^◌, ◌&&◌, not, Bool, true, false, List, [], ◌∷◌, map, Option, none, some,
  ◌>>=◌, ltb, leb, ◌==◌, if◌then◌else◌, get_elem?, set, length, is_zero,
}
use distance_vector_routing.Sockets.{Attempt, connect_to}
use distance_vector_routing.Routing.{
  inf, inactive, is_inactive, is_neighbour, Timeval, Router, Routing, get_self,
}
use distance_vector_routing.Routing.Vectors.{set_cell}
use distance_vector_routing.Routing.Recompute.{recompute_routing_table}
use distance_vector_routing.Routing.Update.{with_routers}
use distance_vector_routing.Routing.Payload.{routing_payload}

-- CLOCK_TICK of include/Router.h, in microseconds.
abbrev pub clock_tick : ℕ
clock_tick = 10000

-- What the network answers: the addresses that `connect_to` finds for an address and a port, and
-- whether `udp_socket` and `sendToALL` succeed.
pub record Network : Type 0 where
  pub resolve : String → ℕ → Option (List Attempt)
  pub sends : String → ℕ → Bool

pub record Datagram : Type 0 where
  pub ip_str : String
  pub port : ℕ
  pub payload : List ℕ

-- The datagrams that leave, one to each neighbour that can be reached.
pub send_to : Network → List ℕ → List Router → List Datagram
send_to net payload [] = []
send_to net payload (r ∷ rs) =
    if is_neighbour r.type && net.sends r.ip_str r.router_port
    then record { ip_str = r.ip_str; port = r.router_port; payload = payload }
      ∷ send_to net payload rs
    else send_to net payload rs

-- That `sendToALL` reads an address in a list that `udp_socket` freed has no effect here.
pub send_routing_updates : Network → Routing → Option (Routing × List Datagram)
unfolding send_to
send_routing_updates net st =
    if ltb 0 st.rs.router_count
    then (do (payload, st') ← routing_payload st; some (st', send_to net payload st.rs.routers))
    else some (st, [])

-- `connect_to` writes the descriptor in place, whether it succeeds or not.
pub connect_router : Network → Router → Router
connect_router net r =
    if not (is_inactive r.status) && is_neighbour r.type && is_zero r.data_socket_fd
    then record r {
      data_socket_fd = (connect_to (net.resolve r.ip_str r.data_port) r.data_socket_fd).sock_fd;
    }
    else r

pub connect_data_ports : Network → Routing → Routing
unfolding connect_router
connect_data_ports net st = with_routers st (map (connect_router net) st.rs.routers)

-- A neighbour has timed out when nothing was heard of it for three intervals.
abbrev pub has_expired : Timeval → ℕ → Router → Bool
has_expired now update_interval r =
    not (is_inactive r.status)
    && is_neighbour r.type
    && leb (r.last_update.tv_sec + 3 * update_interval) now.tv_sec

abbrev pub expired_router : Router → Router
expired_router r = record r { status = inactive; cost = inf }

expire : ℕ → Router → Routing → Option Routing
expire i r st = do
  me ← get_self st
  let st' = with_routers st (set st.rs.routers i (expired_router r))
  recompute_routing_table
      (record st' { distance_vectors = set_cell st.distance_vectors me.router_id r.router_id inf })

pub mark_at : Timeval → ℕ → Routing → Option Routing
unfolding expire
mark_at now i st = do
  r ← get_elem? st.rs.routers i
  if has_expired now st.rs.update_interval r then expire i r st else some st

-- The loop from index `i` on, with `n` rounds left.
mark_from : Timeval → ℕ → ℕ → Routing → Option Routing
unfolding mark_at
mark_from now zero i st = some st
mark_from now (suc n) i st = do st' ← mark_at now i st; mark_from now n (i + 1) st'

pub mark_inactive : Timeval → Routing → Option Routing
unfolding mark_from
mark_inactive now st = mark_from now (length st.rs.routers) 0 st

-- `rs.update_interval * 1000000` is an `int`; a product that does not fit faults.
pub interval_micros : ℕ → Option ℕ
interval_micros update_interval =
    if ltb (update_interval * 1000000) (2 ^ 31) then some (update_interval * 1000000) else none

-- What follows when the counter stands at the end of an interval.
pub end_interval : Network → Routing → Option (Routing × List Datagram)
end_interval net st = do
  (st', sent) ← send_routing_updates net st
  some (record (connect_data_ports net st') { update_counter = 0 }, sent)

tick : Network → Routing → Option (Routing × List Datagram)
unfolding end_interval
tick net st = do
  micros ← interval_micros st.rs.update_interval
  if st.update_counter == micros then end_interval net st else some (st, [])

pub timeout_handler : Timeval → Network → Routing → Option (Routing × List Datagram)
unfolding tick
timeout_handler now net st = if st.rs.update_interval == 0 then some (st, []) else (do
  st' ← mark_inactive now st
  tick net (record st' { update_counter = st'.update_counter + clock_tick }))
