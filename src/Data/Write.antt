-- ===== src/Data/Write.antt =====
-- `write_handler` of src/data_routing.cpp: one packet of each queue whose next hop has the descriptor.
pub mod Fronts
pub mod Enabled
use distance_vector_routing.Common.{
  ℕ, ◌&&◌, Bool, true, false, List, [], ◌∷◌, ◌++◌, Option, some, ◌>>=◌, if◌then◌else◌, ℤ, get_elem?,
}
use distance_vector_routing.OrdMap.{OrdMap}
use distance_vector_routing.Bytes.{ntohs}
use distance_vector_routing.Routing.{Router}
use distance_vector_routing.Routing.Control.{sendfile, create_response_header}
use distance_vector_routing.Data.{
  FileChunk, SendQueue, DataState, add_stat, update_last_data_packet,
}
use distance_vector_routing.Data.Fds.{eq_fd, disable_write}

-- Bytes that `sendALL` is given for a descriptor.
pub record Message : Type 0 where
  pub fd : ℤ
  pub bytes : List ℕ

-- The state in the loop: `peer` is the address behind a controller's descriptor.
pub record Writing : Type 0 where
  pub state : DataState
  pub sent : List Message
  pub happened : Bool

abbrev pub reply_to : (ℤ → ℕ) → FileChunk → List Message
reply_to peer c =
    if c.is_origin && c.header.fin
    then record {
      fd = c.controller_fd;
      bytes = create_response_header (peer c.controller_fd) sendfile 0 0;
    }
      ∷ []
    else []

unfoldable pub send_chunk : (ℤ → ℕ) → ℤ → FileChunk → Writing → Writing
send_chunk peer fd c w =
    let quiet = if c.header.fin then disable_write fd w.state else w.state in
    record {
      state = update_last_data_packet c.payload (record quiet {
        stats = add_stat c.header.transfer_id (c.header.ttl, ntohs c.header.seq_no) quiet.stats;
      });
      sent = w.sent ++ (record { fd = fd; bytes = c.payload } ∷ reply_to peer c);
      happened = true;
    }

-- The front of one queue.
abbrev pub send_front : (ℤ → ℕ) → ℤ → ℕ → List FileChunk → Writing → SendQueue × Writing
send_front peer fd hop [] w = (record { next_hop = hop; chunks = [] }, w)
send_front peer fd hop (c ∷ cs) w = (record { next_hop = hop; chunks = cs }, send_chunk peer fd c w)

unfoldable pub send_queue : (ℤ → ℕ) → ℤ → Router → SendQueue → Writing → SendQueue × Writing
unfolding send_chunk
send_queue peer fd hop q w =
    if eq_fd hop.data_socket_fd fd then send_front peer fd q.next_hop q.chunks w else (q, w)

unfoldable pub send_queues :
    (ℤ → ℕ) → ℤ → List Router → OrdMap SendQueue → Writing → Option (OrdMap SendQueue × Writing)
unfolding send_queue
send_queues peer fd routers [] w = some ([], w)
send_queues peer fd routers ((id, q) ∷ m) w = do
  hop ← get_elem? routers q.next_hop
  let (q', w') = send_queue peer fd hop q w
  (m', w'') ← send_queues peer fd routers m w'
  some ((id, q') ∷ m', w'')

unfoldable pub write_handler :
    (ℤ → ℕ) → ℤ → List Router → DataState → Option (DataState × List Message)
unfolding send_queues
write_handler peer fd routers d = do
  (m, w) ←
      send_queues peer fd routers d.send_buffer (record { state = d; sent = []; happened = false })
  let d' = record w.state { send_buffer = m }
  some (if w.happened then d' else disable_write fd d', w.sent)
