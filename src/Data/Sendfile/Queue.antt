-- ===== src/Data/Sendfile/Queue.antt =====
-- Where `sendfile` puts the packets of a file.
use mathlib.Core.List.{append_assoc, append-nil}
use distance_vector_routing.Common.{
  ℕ, ◌/◌, ◌≡◌, ◌∙◌, ap, true, List, [], ◌∷◌, ◌++◌, Option, some, ℤ, length, drop, arith,
}
use distance_vector_routing.OrdMap.{OrdMap, lookup, lookup-insert}
use distance_vector_routing.Routing.{Routing}
use distance_vector_routing.Routing.Timeout.{Network}
use distance_vector_routing.Routing.Forward.{next_hop_for}
use distance_vector_routing.Data.{packet_payload_size, FileChunk, SendQueue, DataState, push_chunk}
use distance_vector_routing.Data.Fds.{is_set, fits_set, enabled, enable_write}
use distance_vector_routing.Data.Sendfile.{
  sendfile_header_size, SendfileHeader, load_sendfile_header, chunks_of, push_chunks, sendfile,
}

push_chunk-known :
    (id hop : ℕ) (c : FileChunk) (m : OrdMap SendQueue) (q : SendQueue)
    → lookup id m ≡ some q
    → lookup id (push_chunk id hop c m) ≡ some (record q { chunks = q.chunks ++ c ∷ [] })
unfolding push_chunk
push_chunk-known id hop c m q known =
    rw known (lookup-insert id id (record q { chunks = q.chunks ++ c ∷ [] }) m ∙ ground arith)

push_chunks-known :
    (id hop : ℕ) (cs : List FileChunk) (m : OrdMap SendQueue) (q : SendQueue)
    → lookup id m ≡ some q
    → lookup id (push_chunks id hop cs m) ≡ some (record q { chunks = q.chunks ++ cs })
unfolding push_chunks
push_chunks-known id hop [] m q known = rw (append-nil q.chunks) known
push_chunks-known id hop (c ∷ cs) m q known =
    push_chunks-known id hop cs (push_chunk id hop c m) (record q { chunks = q.chunks ++ c ∷ [] })
      (push_chunk-known id hop c m q known)
    ∙ ap (λ l. some (record q { chunks = l })) (append_assoc q.chunks (c ∷ []) cs)

enabled-is_set : (fd : ℤ) (d : DataState) → is_set fd (enabled fd d).write_fds ≡ true
unfolding enabled is_set
enabled-is_set fd d = ground arith

pub enabled-send_buffer : (fd : ℤ) (d : DataState) → (enabled fd d).send_buffer ≡ d.send_buffer
unfolding enabled
enabled-send_buffer fd d = ground arith

-- Where a request can be read, the port of its next hop is open, with a descriptor in the range of
-- FD_SET, the file is found, and there is a queue for the transfer already, even an empty one,
-- `sendfile` appends the packets of the file, in order, to that queue, and the queue keeps its next
-- hop, though it is the descriptor of the hop that the route names now that is enabled for writing.
pub sendfile-known :
    (read_file : List ℕ → Option (List ℕ)) (net : Network) (controller : ℤ) (payload : List ℕ)
    (st st' : Routing) (d : DataState) (h : SendfileHeader) (hop : ℕ) (fd : ℤ) (q : SendQueue)
    (file : List ℕ)
    → load_sendfile_header payload ≡ some h
    → next_hop_for net h.dest_ip st ≡ (some (hop, fd), st')
    → fits_set fd ≡ true
    → read_file (drop sendfile_header_size payload) ≡ some file
    → lookup h.transfer_id d.send_buffer ≡ some q
    → let cs = chunks_of controller h (length file / packet_payload_size) h.init_seq_no file in
      (d' : DataState) × (sendfile read_file net controller payload (st, d) ≡ some (st', d'))
      × (lookup h.transfer_id d'.send_buffer ≡ some (record q { chunks = q.chunks ++ cs }))
      × (is_set fd d'.write_fds ≡ true)
unfolding sendfile
sendfile-known read_file net controller payload st st' d h hop fd q file parsed way in_range read
      known =
    let cs = chunks_of controller h (length file / packet_payload_size) h.init_seq_no file in
    let queued : DataState = record d {
      send_buffer = push_chunks h.transfer_id hop cs d.send_buffer;
    } in
    (
      enabled fd queued,
      unfold enable_write in rw (parsed, way, read, in_range),
      rw (enabled-send_buffer fd queued)
          (push_chunks-known h.transfer_id hop cs d.send_buffer q known),
      enabled-is_set fd queued,
    )
