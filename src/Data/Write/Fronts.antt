-- ===== src/Data/Write/Fronts.antt =====
-- What `write_handler` takes from the queues and what it sends.
use mathlib.Core.List.{append_assoc, append-nil}
use distance_vector_routing.Common.{
  ℕ, ◌≡◌, refl, sym, ◌∙◌, Bool, false, List, [], ◌∷◌, ◌++◌, Option, none, some, map, if◌then◌else◌,
  Bool-cases, inl, inr, ℤ, get_elem?, take, drop, All,
}
use distance_vector_routing.OrdMap.{OrdMap}
use distance_vector_routing.Routing.{Router}
use distance_vector_routing.Data.{FileChunk, SendQueue, DataState}
use distance_vector_routing.Data.Fds.{eq_fd, disable_write}
use distance_vector_routing.Data.Write.{
  Message, Writing, reply_to, send_chunk, send_front, send_queue, send_queues, write_handler,
}

-- Whether the next hop of the queue has the descriptor.
abbrev faces_hop : ℤ → Option Router → Bool
faces_hop fd none = false
faces_hop fd (some r) = eq_fd r.data_socket_fd fd

abbrev pub faces : ℤ → List Router → SendQueue → Bool
faces fd routers q = faces_hop fd (get_elem? routers q.next_hop)

-- The packet that leaves a queue, if any, and the queue without it.
abbrev pub leaving : ℤ → List Router → SendQueue → List FileChunk
leaving fd routers q = if faces fd routers q then take 1 q.chunks else []

abbrev pub advance : ℤ → List Router → ℕ × SendQueue → ℕ × SendQueue
advance fd routers (id, q) =
    (id, if faces fd routers q then record q { chunks = drop 1 q.chunks } else q)

abbrev pub all_leaving : ℤ → List Router → OrdMap SendQueue → List FileChunk
all_leaving fd routers [] = []
all_leaving fd routers ((id, q) ∷ m) = leaving fd routers q ++ all_leaving fd routers m

abbrev pub send_chunks : (ℤ → ℕ) → ℤ → List FileChunk → Writing → Writing
send_chunks peer fd [] w = w
send_chunks peer fd (c ∷ cs) w = send_chunks peer fd cs (send_chunk peer fd c w)

-- The next hop of a queue is an index into the vector.
pub record HasHop (routers : List Router) (entry : ℕ × SendQueue) : Type 0 where
  pub hop : Router
  pub is_hop : get_elem? routers entry.1.next_hop ≡ some hop

send_chunks-append :
    (peer : ℤ → ℕ) (fd : ℤ) (cs ds : List FileChunk) (w : Writing)
    → send_chunks peer fd (cs ++ ds) w ≡ send_chunks peer fd ds (send_chunks peer fd cs w)
send_chunks-append peer fd [] ds w = refl
send_chunks-append peer fd (c ∷ cs) ds w = send_chunks-append peer fd cs ds (send_chunk peer fd c w)

front :
    (peer : ℤ → ℕ) (fd : ℤ) (hop : ℕ) (cs : List FileChunk) (w : Writing)
    → send_front peer fd hop cs w
      ≡ (record { next_hop = hop; chunks = drop 1 cs }, send_chunks peer fd (take 1 cs) w)
front peer fd hop [] w = refl
front peer fd hop (c ∷ cs) w = refl

send_queue_lem :
    (peer : ℤ → ℕ) (fd : ℤ) (routers : List Router) (id : ℕ) (hop : Router) (q : SendQueue)
    (w : Writing)
    → get_elem? routers q.next_hop ≡ some hop
    → send_queue peer fd hop q w
      ≡ ((advance fd routers (id, q)).1, send_chunks peer fd (leaving fd routers q) w)
unfolding send_queue
send_queue_lem peer fd routers id hop q w is_hop = elim (Bool-cases (eq_fd hop.data_socket_fd fd)) [
  | inr other ↦ rw (is_hop, other)
  | inl same ↦ rw (is_hop, same) (front peer fd q.next_hop q.chunks w)
]

pub send_queues_lem :
    (peer : ℤ → ℕ) (fd : ℤ) (routers : List Router) (m : OrdMap SendQueue) (w : Writing)
    → All (HasHop routers) m
    → send_queues peer fd routers m w
      ≡ some (map (advance fd routers) m, send_chunks peer fd (all_leaving fd routers m) w)
unfolding send_queues
send_queues_lem peer fd routers [] w h = refl
send_queues_lem peer fd routers ((id, q) ∷ m) w h = rw (
  send_chunks-append peer fd (leaving fd routers q) (all_leaving fd routers m) w,
  h.0.is_hop,
  send_queue_lem peer fd routers id h.0.hop q w h.0.is_hop,
  send_queues_lem peer fd routers m (send_chunks peer fd (leaving fd routers q) w) h.1,
  h.0.is_hop,
)

-- What a packet makes leave: itself, and the reply to the controller after the last one of a file.
abbrev pub messages_of : (ℤ → ℕ) → ℤ → List FileChunk → List Message
messages_of peer fd [] = []
messages_of peer fd (c ∷ cs) =
    (record { fd = fd; bytes = c.payload } ∷ reply_to peer c) ++ messages_of peer fd cs

send_chunks-sent :
    (peer : ℤ → ℕ) (fd : ℤ) (cs : List FileChunk) (w : Writing)
    → (send_chunks peer fd cs w).sent ≡ w.sent ++ messages_of peer fd cs
unfolding send_chunk
send_chunks-sent peer fd [] w = sym (append-nil w.sent)
send_chunks-sent peer fd (c ∷ cs) w =
    send_chunks-sent peer fd cs (send_chunk peer fd c w)
    ∙ append_assoc w.sent (record { fd = fd; bytes = c.payload } ∷ reply_to peer c)
        (messages_of peer fd cs)

-- Where every queue's next hop is in the vector, `write_handler` does not fault: of each queue whose
-- next hop has the descriptor the front packet leaves, if there is one, and no other queue changes;
-- the packets leave in the order of their transfers, each followed by the reply to the controller
-- where it is the last one of a file that was read here.
pub write_handler-fronts :
    (peer : ℤ → ℕ) (fd : ℤ) (routers : List Router) (d : DataState)
    → All (HasHop routers) d.send_buffer
    → (d' : DataState) × (write_handler peer fd routers d
        ≡ some (d', messages_of peer fd (all_leaving fd routers d.send_buffer)))
      × (d'.send_buffer ≡ map (advance fd routers) d.send_buffer)
unfolding write_handler disable_write
write_handler-fronts peer fd routers d h =
    let w : Writing = record { state = d; sent = []; happened = false } in
    let cs = all_leaving fd routers d.send_buffer in
    let w' = send_chunks peer fd cs w in
    let d' : DataState = record w'.state { send_buffer = map (advance fd routers) d.send_buffer } in
    (
      if w'.happened then d' else disable_write fd d',
      rw (send_queues_lem peer fd routers d.send_buffer w h, send_chunks-sent peer fd cs w),
      elim (Bool-cases w'.happened) [ inl some_sent ↦ rw some_sent | inr none_sent ↦ rw none_sent ],
    )
