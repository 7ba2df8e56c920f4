-- ===== src/Routing/Events.antt =====
-- The events that change the state of the routing part, one after the other: a datagram of a
-- neighbour, a tick of the clock, the controller's change of a cost, its request to send a file, and
-- a packet of the data plane; the last two read the table, which inserts, and keep descriptors there.
pub mod Keeps
pub mod Hops
pub mod Kept
mod Tests
use mathlib.Core.Option.{some-injective}
use distance_vector_routing.Common.{
  ℤ, ℕ, zero, suc, ◌≡◌, refl, sym, ◌∙◌, ap, ◌⊎◌, inl, inr, Bool, true, false, List, [], ◌∷◌, map,
  Option, none, some, ◌>>=◌, arith, ◌==◌, ltb, if◌then◌else◌, Bool-cases, Option-cases, >>=-eq-some,
  length, get_elem?, set, get_elem?-set, length-set, get_elem?-map, length-map,
}
use distance_vector_routing.Bytes.{ntohui16}
use distance_vector_routing.Routing.{is_inactive, Timeval, Router, Routing, get_self}
use distance_vector_routing.Routing.Recompute.Shortest.{
  Recomputed, recompute-inversion, recompute-Recomputed,
}
use distance_vector_routing.Routing.Shape.{self_at-set}
use distance_vector_routing.Routing.Update.{
  UpdateHeader, UpdateEntry, find_by_port_ip, activate, process_update,
}
use distance_vector_routing.Routing.Update.Process.{
  find_by_port_ip-some, Accepted, process_update-Accepted, process_update-ignored,
}
use distance_vector_routing.Routing.Payload.{load_header, load_entries, receive_update}
use distance_vector_routing.Routing.Timeout.{Network, Datagram, timeout_handler}
use distance_vector_routing.Routing.Timeout.Interval.{IsReady}
use distance_vector_routing.Routing.Timeout.Steady.{timeout_handler-Result}
use distance_vector_routing.Routing.Control.{update_cost}
use distance_vector_routing.Data.{DataState}
use distance_vector_routing.Data.Sendfile.{sendfile}
use distance_vector_routing.Data.Receive.{Received, receive}
use distance_vector_routing.Routing.Control.Cost.{Costed, update_cost-Costed, update_cost-parsed}

pub data Step (st st' : Routing) : Type 0 where
  hears :
      (now : Timeval) (peeked received : Option (List ℕ))
      → receive_update now peeked received st ≡ some st'
      → Step st st'
  ticks :
      (now : Timeval) (net : Network) (sent : List Datagram)
      → timeout_handler now net st ≡ some (st', sent)
      → Step st st'
  costs :
      (peer : ℕ) (payload reply : List ℕ)
      → update_cost peer payload st ≡ some (st', reply)
      → Step st st'
  sends_file :
      (read_file : List ℕ → Option (List ℕ)) (net : Network) (controller : ℤ) (payload : List ℕ)
      (d d' : DataState)
      → sendfile read_file net controller payload (st, d) ≡ some (st', d')
      → Step st st'
  takes_in :
      (net : Network) (fd : ℤ) (header payload : Option (List ℕ)) (d : DataState) (r : Received)
      → receive net fd header payload st d ≡ some r
      → r.routing ≡ st'
      → Step st st'

pub data Reach (st : Routing) : Routing → Type 0 where
  here : Reach st st
  next : {mid st' : Routing} → Reach st mid → Step mid st' → Reach st st'
