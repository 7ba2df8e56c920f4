-- ===== src/Data/Fds/Covers.antt =====
-- `max_fd` and the handlers of the data plane (src/data_routing.cpp, src/Router.cpp).
use mathlib.Core.Option.{some-injective}
use distance_vector_routing.Common.{
  ℕ, ◌≡◌, sym, ap, ◌∙◌, ◌==◌, List, [], ◌∷◌, Option, none, some, >>=-eq-some, ℤ, if◌then◌else◌,
  drop, Bool-cases, Option-cases, inl, inr, subst, get_elem?, arith,
}
use distance_vector_routing.Routing.{Router, Routing, get_self}
use distance_vector_routing.Routing.Timeout.{Network}
use distance_vector_routing.Routing.Forward.{next_hop_for}
use distance_vector_routing.Data.{
  PacketHeader, load_packet_header, FileChunk, SendQueue, DataState, update_last_data_packet,
}
use distance_vector_routing.Data.Fds.{fits_set, enable_write, eq_fd, disable_write, close_fd}
use distance_vector_routing.Data.Fds.Laws.{Covers, enabled-Covers}
use distance_vector_routing.Data.Sendfile.{
  sendfile_header_size, SendfileHeader, load_sendfile_header, queue_file, sendfile,
}
use distance_vector_routing.Data.Receive.{Received, decrement, keep_packet, forward_packet, receive}
use distance_vector_routing.Bytes.{toui8}
use distance_vector_routing.OrdMap.{at}
use distance_vector_routing.Data.Reports.{stats_reply, send_stats}
use distance_vector_routing.Data.Write.{
  Message, Writing, send_chunk, send_front, send_queue, send_queues, write_handler,
}
use distance_vector_routing.OrdMap.{OrdMap}

enable_write-Covers : (fd : ℤ) (d d' : DataState) → enable_write fd d ≡ some d' → Covers d d'
unfolding enable_write
enable_write-Covers fd d d' e = elim (Bool-cases (fits_set fd)) [
  | inl fits ↦ subst (Covers d) (some-injective _ _ (rw fits at e)) (enabled-Covers fd d)
  | inr out ↦ cc (rw out at e)
]

queue_file-Covers :
    (controller : ℤ) (h : SendfileHeader) (hop : Option (ℕ × ℤ)) (file : Option (List ℕ))
    (d d' : DataState)
    → queue_file controller h hop file d ≡ some d'
    → Covers d d'
queue_file-Covers controller h none file d d' e = subst (Covers d) (some-injective _ _ e) (λ x c. c)
queue_file-Covers controller h (some (hop, fd)) none d d' e =
    subst (Covers d) (some-injective _ _ e) (λ x c. c)
queue_file-Covers controller h (some (hop, fd)) (some file) d d' e = enable_write-Covers fd _ d' e

pub sendfile-Covers :
    (read_file : List ℕ → Option (List ℕ)) (net : Network) (controller : ℤ) (payload : List ℕ)
    (st : Routing) (d : DataState) (r : Routing × DataState)
    → sendfile read_file net controller payload (st, d) ≡ some r
    → Covers d r.1
unfolding sendfile
sendfile-Covers read_file net controller payload st d r e =
    let (h, read, e1) = >>=-eq-some (load_sendfile_header payload) _ e in
    let (hop, st') = next_hop_for net h.dest_ip st in
    let (d', queued, e2) =
      >>=-eq-some (queue_file controller h hop (read_file (drop sendfile_header_size payload)) d)
        (λ d'. some (st', d')) e1 in
    subst (λ (r : Routing × DataState). Covers d r.1) (some-injective _ _ e2)
      (queue_file-Covers controller h _ _ d d' queued)

keep_packet-Covers :
    (h : PacketHeader) (payload : List ℕ) (d : DataState) → Covers d (keep_packet h payload d).0
unfolding keep_packet update_last_data_packet
keep_packet-Covers h payload d x c = ground arith

forward_packet-Covers :
    (h : PacketHeader) (payload : List ℕ) (hop : Option (ℕ × ℤ)) (d d' : DataState)
    → forward_packet h payload hop d ≡ some d'
    → Covers d d'
unfolding forward_packet
forward_packet-Covers h payload none d d' e = subst (Covers d) (some-injective _ _ e) (λ x c. c)
forward_packet-Covers h payload (some (hop, fd)) d d' e = enable_write-Covers fd _ d' e

pub receive-Covers :
    (net : Network) (fd : ℤ) (header payload : Option (List ℕ)) (st : Routing) (d : DataState)
    (r : Received)
    → receive net fd header payload st d ≡ some r
    → Covers d r.state
unfolding receive close_fd
receive-Covers net fd none payload st d r e =
    subst (λ (r : Received). Covers d r.state) (some-injective _ _ e) (λ x c. c)
receive-Covers net fd (some header) none st d r e =
    let (h, read, e1) = >>=-eq-some (load_packet_header header) _ e in
    subst (λ (r : Received). Covers d r.state) (some-injective _ _ e1) (λ x c. c)
receive-Covers net fd (some header) (some payload) st d r e =
    let (h, read, e1) = >>=-eq-some (load_packet_header header) _ e in
    elim (Bool-cases ((decrement h).ttl == 0)) [
      | inl dead ↦
          subst (λ (r : Received). Covers d r.state) (some-injective _ _ (rw dead at e1)) (λ x c. c)
      | inr live ↦ elim (Option-cases (get_self st)) [
        | inl lost ↦ cc (rw (live, lost) at e1)
        | inr (me, is_me) ↦ elim (Bool-cases (me.ip == h.dest_ip)) [
          | inl here ↦
              subst (λ (r : Received). Covers d r.state)
                (some-injective _ _ (rw (live, is_me, here) at e1))
                (keep_packet-Covers (decrement h) payload d)
          | inr there ↦
              let (d', queued, e2) =
                >>=-eq-some (forward_packet (decrement h) payload _ d) _
                  (rw (live, is_me, there) at e1) in
              subst (λ (r : Received). Covers d r.state) (some-injective _ _ e2)
                (forward_packet-Covers (decrement h) payload _ d d' queued)
        ]
      ]
    ]

send_chunk-max_fd :
    (peer : ℤ → ℕ) (fd : ℤ) (c : FileChunk) (w : Writing)
    → (send_chunk peer fd c w).state.max_fd ≡ w.state.max_fd
unfolding send_chunk update_last_data_packet disable_write
send_chunk-max_fd peer fd c w = ground arith

send_queue-max_fd :
    (peer : ℤ → ℕ) (fd : ℤ) (hop : Router) (q : SendQueue) (w : Writing)
    → (send_queue peer fd hop q w).1.state.max_fd ≡ w.state.max_fd
unfolding send_queue
send_queue-max_fd peer fd hop q w = go q.chunks
  where
    go :
        (cs : List FileChunk)
        → (if eq_fd hop.data_socket_fd fd
            then send_front peer fd q.next_hop cs w
            else (q, w)).1.state.max_fd
          ≡ w.state.max_fd
    go [] = ground arith
    go (c ∷ cs) = ground (arith, send_chunk-max_fd peer fd c w)

send_queues-max_fd :
    (peer : ℤ → ℕ) (fd : ℤ) (routers : List Router) (m : OrdMap SendQueue) (w : Writing)
    (r : OrdMap SendQueue × Writing)
    → send_queues peer fd routers m w ≡ some r
    → r.1.state.max_fd ≡ w.state.max_fd
unfolding send_queues
send_queues-max_fd peer fd routers [] w r e =
    ap (λ (r : OrdMap SendQueue × Writing). r.1.state.max_fd) (sym (some-injective _ _ e))
send_queues-max_fd peer fd routers ((id, q) ∷ m) w r e =
    let (hop, is_hop, e1) = >>=-eq-some (get_elem? routers q.next_hop) _ e in
    let (later, run, e2) = >>=-eq-some (send_queues peer fd routers m _) _ e1 in
    ap (λ (r : OrdMap SendQueue × Writing). r.1.state.max_fd) (sym (some-injective _ _ e2))
    ∙ send_queues-max_fd peer fd routers m _ later run
    ∙ send_queue-max_fd peer fd hop q w

pub write_handler-Covers :
    (peer : ℤ → ℕ) (fd : ℤ) (routers : List Router) (d : DataState) (r : DataState × List Message)
    → write_handler peer fd routers d ≡ some r
    → Covers d r.0
unfolding write_handler disable_write
write_handler-Covers peer fd routers d r e x c =
    let ((m, w), run, e1) = >>=-eq-some (send_queues peer fd routers d.send_buffer _) _ e in
    let kept = send_queues-max_fd peer fd routers d.send_buffer _ (m, w) run in
    ground (arith, e1, kept)

pub send_stats-Covers :
    (peer : ℕ) (payload : List ℕ) (d : DataState) (r : Option (List ℕ) × DataState)
    → send_stats peer payload d ≡ some r
    → Covers d r.1
unfolding send_stats
send_stats-Covers peer payload d r e =
    let ((id, offset), read, e1) = >>=-eq-some (toui8 payload 0) _ e in
    let (reply, made, e2) = >>=-eq-some (stats_reply peer id (at [] id d.stats)) _ e1 in
    subst (λ (r : Option (List ℕ) × DataState). Covers d r.1) (some-injective _ _ e2) (λ x c. c)
