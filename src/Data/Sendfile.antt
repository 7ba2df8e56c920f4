-- ===== src/Data/Sendfile.antt =====
-- `sendfile` of src/data_routing.cpp: a file is cut into packets, which wait for the next hop.
pub mod Queue
use distance_vector_routing.Common.{
  ℕ, zero, suc, ◌+◌, ◌/◌, ◌%◌, ◌^◌, ◌++◌, Bool, true, List, [], ◌∷◌, Option, none, some, ◌>>=◌,
  ◌==◌, ℤ, length, take, drop,
}
use distance_vector_routing.Bytes.{htons, ntohs, load8, load16, load32}
use distance_vector_routing.OrdMap.{OrdMap}
use distance_vector_routing.Routing.{Routing}
use distance_vector_routing.Routing.Timeout.{Network}
use distance_vector_routing.Routing.Forward.{next_hop_for}
use distance_vector_routing.Data.{
  packet_payload_size, PacketHeader, packet_header_bytes, FileChunk, SendQueue, DataState,
  push_chunk,
}
use distance_vector_routing.Data.Fds.{enable_write}

-- SENDFILE_PAYLOAD_HEADER_SIZE.
abbrev pub sendfile_header_size : ℕ
sendfile_header_size = 8

-- A SENDFILE_PAYLOAD_HEADER, with the sequence number in host byte order.
pub record SendfileHeader : Type 0 where
  pub dest_ip : ℕ
  pub init_ttl : ℕ
  pub transfer_id : ℕ
  pub init_seq_no : ℕ

unfoldable pub load_sendfile_header : List ℕ → Option SendfileHeader
load_sendfile_header buffer = do
  dest_ip ← load32 buffer 0
  init_ttl ← load8 buffer 4
  transfer_id ← load8 buffer 5
  init_seq_no ← load16 buffer 6
  some (record {
    dest_ip = dest_ip;
    init_ttl = init_ttl;
    transfer_id = transfer_id;
    init_seq_no = ntohs init_seq_no;
  })

-- The header of the packet with the sequence number `seq_no`.
abbrev pub chunk_header : SendfileHeader → ℕ → Bool → PacketHeader
chunk_header h seq_no fin = record {
  dest_ip = h.dest_ip;
  transfer_id = h.transfer_id;
  ttl = h.init_ttl;
  seq_no = htons seq_no;
  fin = fin;
  padding = 0;
}

-- The loop, with `n` packets left: `rest` is what is left of the file, and the last packet of the
-- loop has `fin` set.
unfoldable pub chunks_of : ℤ → SendfileHeader → ℕ → ℕ → List ℕ → List FileChunk
unfolding packet_header_bytes
chunks_of controller_fd h zero seq_no rest = []
chunks_of controller_fd h (suc n) seq_no rest =
    record {
      header = chunk_header h seq_no (n == 0);
      payload =
          packet_header_bytes (chunk_header h seq_no (n == 0)) ++ take packet_payload_size rest;
      is_origin = true;
      controller_fd = controller_fd;
    }
    ∷ chunks_of controller_fd h n ((seq_no + 1) % 2 ^ 16) (drop packet_payload_size rest)

unfoldable pub push_chunks : ℕ → ℕ → List FileChunk → OrdMap SendQueue → OrdMap SendQueue
unfolding push_chunk
push_chunks transfer_id next_hop [] m = m
push_chunks transfer_id next_hop (c ∷ cs) m =
    push_chunks transfer_id next_hop cs (push_chunk transfer_id next_hop c m)

-- The file's packets, for a next hop whose port is open.
abbrev pub queue_file :
    ℤ → SendfileHeader → Option (ℕ × ℤ) → Option (List ℕ) → DataState → Option DataState
queue_file controller_fd h none file d = some d
queue_file controller_fd h (some (hop, fd)) none d = some d
queue_file controller_fd h (some (hop, fd)) (some file) d = enable_write fd (record d {
  send_buffer =
      push_chunks h.transfer_id hop
        (chunks_of controller_fd h (length file / packet_payload_size) h.init_seq_no file)
        d.send_buffer;
})

-- `read_file` is the file system. A payload shorter than its header makes the length of the file's
-- name wrap around, which faults.
unfoldable pub sendfile :
    (List ℕ → Option (List ℕ))
    → Network
    → ℤ
    → List ℕ
    → Routing × DataState
    → Option (Routing × DataState)
unfolding load_sendfile_header chunks_of push_chunks
sendfile read_file net controller_fd payload (st, d) = do
  h ← load_sendfile_header payload
  let (hop, st') = next_hop_for net h.dest_ip st
  d' ← queue_file controller_fd h hop (read_file (drop sendfile_header_size payload)) d
  some (st', d')
