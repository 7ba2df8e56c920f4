-- ===== src/Data/Relay/Chain.antt =====
-- Several routers, one after the other, that packets go through.
use distance_vector_routing.Common.{
  length-append, length-map, ℕ, zero, suc, ◌≡◌, refl, sym, ap, ◌∙◌, ◌≤◌, ◌==◌, true, false, List,
  [], ◌∷◌, ◌++◌, Option, some, ◌>>=◌, map, length, ℤ, arith, get_elem?, All,
}
use distance_vector_routing.Routing.{Router, Routing, get_self}
use distance_vector_routing.Routing.Timeout.{Network}
use distance_vector_routing.Routing.Forward.{next_hop_for}
use distance_vector_routing.Data.{DataState}
use distance_vector_routing.Data.Fds.{fits_set}
use distance_vector_routing.Data.Relay.{
  Ready, comes, writable, handle_all, bytes_of, lower_ttl, passed_on,
}
use distance_vector_routing.Data.Relay.Queues.{Holds, payloads, payloads-Holds}
use distance_vector_routing.Data.Relay.Transit.{
  IsPacket, IsTransit, HoldsTransit, lower_ttl-IsPacket,
}
use distance_vector_routing.Data.Relay.Order.{calls, handle_all-InOrder}

-- A router on the way: what it asks of the system, its state, the descriptors by which packets come
-- and leave, and those that can be written to after the packet with a number.
pub record Stage : Type 0 where
  pub net : Network
  pub peer : ℤ → ℕ
  pub routing : Routing
  pub state : DataState
  pub in_fd : ℤ
  pub hop_fd : ℤ
  pub gaps : ℕ → List ℤ

abbrev all_writable : List ℤ → List Ready
all_writable fds = map writable fds

-- The packets come in order, and between them descriptors can be written to.
events : Stage → ℕ → List (List ℕ) → List Ready
events s i [] = []
events s i (p ∷ ps) = comes s.in_fd p ∷ (all_writable (s.gaps i) ++ events s (suc i) ps)

-- What leaves a router to which the packets come; at last, its next hop can be written to as often as
-- there are packets.
unfoldable pub through_one : Stage → List (List ℕ) → Option (List (List ℕ))
unfolding events
through_one s ps = do
  r ← handle_all s.net s.peer (events s 0 ps) s.routing s.state
  r' ← handle_all s.net s.peer (calls (length ps) s.hop_fd) r.routing r.state
  some (bytes_of r.sent ++ bytes_of r'.sent)

unfoldable pub through : List Stage → List (List ℕ) → Option (List (List ℕ))
unfolding through_one
through [] ps = some ps
through (s ∷ ss) ps = do ps' ← through_one s ps; through ss ps'

-- The router is not the one that the packets of the transfer are for, the port of its next hop is
-- open, with a descriptor in the range of FD_SET, and no packets wait: earlier transfers may have left
-- empty queues, and this one too, if it is for that hop.
pub record IsStage (dest id : ℕ) (s : Stage) : Type 0 where
  pub me : Router
  pub hop : Router
  pub index : ℕ
  pub is_me : get_self s.routing ≡ some me
  pub other : (me.ip == dest) ≡ false
  pub way : next_hop_for s.net dest s.routing ≡ (some (index, s.hop_fd), s.routing)
  pub listed : get_elem? s.routing.rs.routers index ≡ some hop
  pub in_range : fits_set s.hop_fd ≡ true
  pub connected : hop.data_socket_fd ≡ s.hop_fd
  pub free : Holds s.routing.rs.routers id index [] s.state.send_buffer

-- The packets with their TTL lower by `k`.
abbrev pub lower_all : ℕ → List (List ℕ) → List (List ℕ)
lower_all zero ps = ps
lower_all (suc k) ps = lower_all k (map lower_ttl ps)

All-append : (P : Ready → Type 0) (es fs : List Ready) → All P es → All P fs → All P (es ++ fs)
All-append P [] fs h k = k
All-append P (e ∷ es) fs h k = (h.0, All-append P es fs h.1 k)

all_writable-IsTransit : (dest id : ℕ) (fds : List ℤ) → All (IsTransit dest id) (all_writable fds)
all_writable-IsTransit dest id [] = tt
all_writable-IsTransit dest id (fd ∷ fds) = (tt, all_writable-IsTransit dest id fds)

passed_on-writable :
    (fds : List ℤ) (es : List Ready) → passed_on (all_writable fds ++ es) ≡ passed_on es
passed_on-writable [] es = refl
passed_on-writable (fd ∷ fds) es = passed_on-writable fds es

IsPacket-less :
    {dest id k j : ℕ} (packet : List ℕ)
    → j ≤ k
    → IsPacket dest id k packet
    → IsPacket dest id j packet
IsPacket-less packet h p = record {
  header = p.header;
  body = p.body;
  bytes = p.bytes;
  fits = p.fits;
  to_dest = p.to_dest;
  of_transfer = p.of_transfer;
  alive = omega (arith, p.alive);
}

events-IsTransit :
    (dest id k i : ℕ) (s : Stage) (ps : List (List ℕ))
    → All (IsPacket dest id (suc k)) ps
    → All (IsTransit dest id) (events s i ps)
unfolding events
events-IsTransit dest id k i s [] h = tt
events-IsTransit dest id k i s (p ∷ ps) h = (
  IsPacket-less p (omega arith) h.0,
  All-append (IsTransit dest id) (all_writable (s.gaps i)) (events s (suc i) ps)
      (all_writable-IsTransit dest id (s.gaps i)) (events-IsTransit dest id k (suc i) s ps h.1),
)

events-passed_on :
    (s : Stage) (i : ℕ) (ps : List (List ℕ)) → passed_on (events s i ps) ≡ map lower_ttl ps
unfolding events
events-passed_on s i [] = refl
events-passed_on s i (p ∷ ps) =
    ap (λ l. lower_ttl p ∷ l)
      (passed_on-writable (s.gaps i) (events s (suc i) ps) ∙ events-passed_on s (suc i) ps)

map_lower-IsPacket :
    (dest id k : ℕ) (ps : List (List ℕ))
    → All (IsPacket dest id (suc k)) ps
    → All (IsPacket dest id k) (map lower_ttl ps)
map_lower-IsPacket dest id k [] h = tt
map_lower-IsPacket dest id k (p ∷ ps) h =
    (lower_ttl-IsPacket dest id k p h.0, map_lower-IsPacket dest id k ps h.1)

through_one_lem :
    (dest id k : ℕ) (s : Stage) (ps : List (List ℕ))
    → IsStage dest id s
    → All (IsPacket dest id (suc k)) ps
    → through_one s ps ≡ some (map lower_ttl ps)
unfolding through_one
through_one_lem dest id k s ps t h =
    let held : HoldsTransit s.routing.rs.routers id t.index s.state.send_buffer =
      ([], tt, t.free) in
    let waits = payloads-Holds s.routing.rs.routers id t.index [] s.state.send_buffer t.free in
    let (r, run, o) =
      handle_all-InOrder s.net s.peer s.routing t.me t.hop dest id t.index s.hop_fd t.is_me t.other
        t.way t.listed t.in_range (events s 0 ps) s.state (events-IsTransit dest id k 0 s ps h) held
        t.connected in
    let all : bytes_of r.sent ++ payloads r.state.send_buffer ≡ map lower_ttl ps =
      o.order ∙ rw waits (events-passed_on s 0 ps) in
    let few : length (payloads r.state.send_buffer) ≤ length ps = omega (
      arith,
      sym (length-append (bytes_of r.sent) (payloads r.state.send_buffer))
          ∙ ap length all
          ∙ length-map lower_ttl ps,
    ) in
    let (r', run', sent, empty) = o.drained (length ps) few in rw (run, run', sent, all) refl

-- Packets of one transfer, whose numbers fit their fields, go through any number of routers to which
-- they are not addressed and towards whose next hops the ports are open, while no other packets wait
-- there, with a TTL above the number of those routers: whatever descriptors can be written to between
-- one packet and the next, nothing faults, and after the last router they are all there, in order, each
-- once, and the same but for the TTL, which is lower by one for each router.
pub through-lower_all :
    (dest id : ℕ) (ss : List Stage) (ps : List (List ℕ))
    → All (IsStage dest id) ss
    → All (IsPacket dest id (length ss)) ps
    → through ss ps ≡ some (lower_all (length ss) ps)
unfolding through
through-lower_all dest id [] ps stages h = refl
through-lower_all dest id (s ∷ ss) ps stages h =
    rw (through_one_lem dest id (length ss) s ps stages.0 h) (
      through-lower_all dest id ss (map lower_ttl ps) stages.1
        (map_lower-IsPacket dest id (length ss) ps h))
