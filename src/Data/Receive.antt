-- ===== src/Data/Receive.antt =====
-- `receive` of src/data_routing.cpp: a packet is dropped, kept or forwarded.
pub mod Transfer
pub mod Hops
pub mod Journey
pub mod Carried
mod Tests
use distance_vector_routing.Common.{
  ℕ, ◌+◌, ◌%◌, ◌++◌, Bool, true, false, List, [], ◌∷◌, Option, none, some, ◌>>=◌, ◌==◌,
  if◌then◌else◌, ℤ, pos,
}
use distance_vector_routing.OrdMap.{insert, at}
use distance_vector_routing.Bytes.{ntohs}
use distance_vector_routing.Routing.{Router, Routing, get_self}
use distance_vector_routing.Routing.Timeout.{Network}
use distance_vector_routing.Routing.Forward.{next_hop_for}
use distance_vector_routing.Data.{
  PacketHeader, packet_header_bytes, load_packet_header, FileChunk, DataState, add_stat,
  update_last_data_packet, push_chunk,
}
use distance_vector_routing.Data.Fds.{enable_write, close_fd}

-- A file that is written: `file-<transfer_id>`.
pub record WrittenFile : Type 0 where
  pub transfer_id : ℕ
  pub content : List ℕ

pub record Received : Type 0 where
  pub routing : Routing
  pub state : DataState
  pub written : List WrittenFile
  -- The return value: whether the descriptor is still watched.
  pub watched : Bool

-- `ttl -= 1` in a `uint8_t`.
abbrev pub decrement : PacketHeader → PacketHeader
decrement h = record h { ttl = (h.ttl + 255) % 256 }

-- What has come of the file so far, with this packet.
abbrev pub file_so_far : PacketHeader → List ℕ → DataState → List ℕ
file_so_far h payload d = at [] h.transfer_id d.file_data ++ payload

-- A packet for this router; `h` has its TTL decremented.
unfoldable pub keep_packet : PacketHeader → List ℕ → DataState → DataState × List WrittenFile
keep_packet h payload d =
    let noted = record (update_last_data_packet payload d) {
      stats = add_stat h.transfer_id (h.ttl, ntohs h.seq_no) d.stats;
    } in
    let file = file_so_far h payload d in
    if h.fin
    then (
      record noted { file_data = insert h.transfer_id [] d.file_data },
      record { transfer_id = h.transfer_id; content = file } ∷ [],
    )
    else (record noted { file_data = insert h.transfer_id file d.file_data }, [])

-- A packet for another router.
unfoldable pub forward_packet :
    PacketHeader → List ℕ → Option (ℕ × ℤ) → DataState → Option DataState
forward_packet h payload none d = some d
forward_packet h payload (some (hop, fd)) d = enable_write fd (record d {
  send_buffer =
      push_chunk h.transfer_id hop
        (record {
          header = h;
          payload = packet_header_bytes h ++ payload;
          is_origin = false;
          controller_fd = pos 0;
        })
        d.send_buffer;
})

abbrev kept : Routing → DataState × List WrittenFile → Received
kept st (d, written) = record { routing = st; state = d; written = written; watched = true }

abbrev forwarded : PacketHeader → List ℕ → DataState → Option (ℕ × ℤ) × Routing → Option Received
forwarded h payload d (hop, st) = do
  d' ← forward_packet h payload hop d
  some (record { routing = st; state = d'; written = []; watched = true })

-- `self` is dereferenced.
abbrev route_packet :
    Network → PacketHeader → List ℕ → Routing → DataState → Option Router → Option Received
route_packet net h payload st d none = none
route_packet net h payload st d (some me) =
    if me.ip == h.dest_ip
    then some (kept st (keep_packet h payload d))
    else forwarded h payload d (next_hop_for net h.dest_ip st)

abbrev pub closed_connection : ℤ → Routing → DataState → Received
closed_connection fd st d = record {
  routing = st;
  state = close_fd fd d;
  written = [];
  watched = false;
}

abbrev with_payload :
    Network → ℤ → PacketHeader → Option (List ℕ) → Routing → DataState → Option Received
with_payload net fd h none st d = some (closed_connection fd st d)
with_payload net fd h (some payload) st d =
    if (decrement h).ttl == 0
    then some (record { routing = st; state = d; written = []; watched = true })
    else route_packet net (decrement h) payload st d (get_self st)

-- `header` and `payload` are what the two calls of `recvALL` read; `none` is a call that fails.
unfoldable pub receive :
    Network → ℤ → Option (List ℕ) → Option (List ℕ) → Routing → DataState → Option Received
receive net fd none payload st d = some (closed_connection fd st d)
receive net fd (some header) payload st d = do
  h ← load_packet_header header
  with_payload net fd h payload st d
