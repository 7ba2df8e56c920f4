-- ===== src/Data/Relay/Origin.antt =====
-- The router at which a controller asks for a file to be sent: `sendfile` and `write_handler` of
-- src/data_routing.cpp.
use mathlib.Core.List.{append_assoc}
use distance_vector_routing.Common.{
  ℕ, zero, suc, ◌+◌, ◌/◌, ◌%◌, ◌^◌, ◌≡◌, refl, ap, ◌∙◌, ◌<◌, ◌≤◌, ◌==◌, true, false, List, [], ◌∷◌,
  ◌++◌, Option, some, map, take, drop, length, ℤ, arith, get_elem?,
}
use distance_vector_routing.Routing.{Router, Routing}
use distance_vector_routing.Routing.Timeout.{Network}
use distance_vector_routing.Routing.Forward.{next_hop_for}
use distance_vector_routing.Routing.Control.{create_response_header}
use distance_vector_routing.Routing.Control
use distance_vector_routing.Data.{packet_header_bytes, packet_payload_size, FileChunk, DataState}
use distance_vector_routing.Data.Fds.{eq_fd, fits_set, enabled, enable_write}
use distance_vector_routing.Data.Fds.Laws.{eq_fd_refl}
use distance_vector_routing.Data.Sendfile.{
  sendfile_header_size, SendfileHeader, load_sendfile_header, chunk_header, chunks_of, push_chunks,
  sendfile,
}
use distance_vector_routing.Data.Sendfile.Queue.{enabled-send_buffer}
use distance_vector_routing.Data.Receive.Transfer.{payloads_of}
use distance_vector_routing.Data.Write.{reply_to}
use distance_vector_routing.Data.Write.Fronts.{all_leaving, messages_of, write_handler-fronts}
use distance_vector_routing.Data.Relay.{Relayed, handle, handle_all}
use distance_vector_routing.Data.Relay.Queues.{Holds, push_chunks-Holds, takes_one}
use distance_vector_routing.Data.Relay.Order.{calls}

module _ (net : Network) (peer : ℤ → ℕ) (st : Routing) (hop : Router) (id index : ℕ) (fd : ℤ)
    (listed : get_elem? st.rs.routers index ≡ some hop) (connected : hop.data_socket_fd ≡ fd) where
  -- As many calls as there are packets send them, each with what it makes leave.
  sends_all :
      (cs : List FileChunk) (d : DataState)
      → Holds st.rs.routers id index cs d.send_buffer
      → (r : Relayed) × (handle_all net peer (calls (length cs) fd) st d ≡ some r)
        × (r.sent ≡ messages_of peer fd cs)
  unfolding handle_all handle
  sends_all [] d queued = (record { routing = st; state = d; sent = [] }, refl, refl)
  sends_all (c ∷ cs) d queued =
      let t = takes_one st.rs.routers id index hop listed fd (c ∷ cs) d.send_buffer queued in
      let here : eq_fd hop.data_socket_fd fd ≡ true = rw connected (eq_fd_refl fd) in
      let (d', run, rest) = write_handler-fronts peer fd st.rs.routers d t.hops in
      let left = rw here at t.left in
      let (r, run', sent) = sends_all cs d' (rw rest left) in
      let leaving : messages_of peer fd (all_leaving fd st.rs.routers d.send_buffer)
          ≡ messages_of peer fd (c ∷ []) =
        rw (t.taken, here) refl in
      (
        record r { sent = messages_of peer fd (c ∷ []) ++ r.sent },
        rw (run, run', leaving) refl,
        rw sent (
            append_assoc (record { fd = fd; bytes = c.payload } ∷ reply_to peer c) []
              (messages_of peer fd cs)),
      )

-- The messages of a file's packets: all packets, and then the reply to the controller.
messages_of-chunks_of :
    (peer : ℤ → ℕ) (fd controller : ℤ) (h : SendfileHeader) (n seq_no : ℕ) (file : List ℕ)
    → 0 < n
    → messages_of peer fd (chunks_of controller h n seq_no file)
      ≡ map
          (λ p. record { fd = fd; bytes = p })
          (payloads_of (chunks_of controller h n seq_no file))
        ++ record {
          fd = controller;
          bytes = create_response_header (peer controller) Control.sendfile 0 0;
        }
          ∷ []
unfolding chunks_of packet_header_bytes
messages_of-chunks_of peer fd controller h zero seq_no file some_packet = absurd (omega arith)
messages_of-chunks_of peer fd controller h (suc zero) seq_no file some_packet = refl
messages_of-chunks_of peer fd controller h (suc (suc n)) seq_no file some_packet =
    let more : (suc n == 0) ≡ false = ground arith in
    let front =
      packet_header_bytes (chunk_header h seq_no false) ++ take packet_payload_size file in
    rw more (
      ap (λ l. record { fd = fd; bytes = front } ∷ l)
        (messages_of-chunks_of peer fd controller h (suc n) ((seq_no + 1) % 2 ^ 16)
          (drop packet_payload_size file) (omega arith)))

-- A controller asks for a file of at least one packet's payload to be sent: the request can be read,
-- the port of its next hop is open, with a descriptor in the range of FD_SET, the file is found, and no
-- packets wait: earlier transfers may have left empty queues, and this one too, if it is for that hop.
pub record IsAsked (read_file : List ℕ → Option (List ℕ)) (net : Network) (payload : List ℕ)
    (st : Routing) (d : DataState) : Type 0 where
  pub request : SendfileHeader
  pub file : List ℕ
  pub after : Routing
  pub index : ℕ
  pub fd : ℤ
  pub hop : Router
  pub parsed : load_sendfile_header payload ≡ some request
  pub way : next_hop_for net request.dest_ip st ≡ (some (index, fd), after)
  pub read : read_file (drop sendfile_header_size payload) ≡ some file
  pub free : Holds after.rs.routers request.transfer_id index [] d.send_buffer
  pub listed : get_elem? after.rs.routers index ≡ some hop
  pub connected : hop.data_socket_fd ≡ fd
  pub in_range : fits_set fd ≡ true
  pub long : packet_payload_size ≤ length file

-- The packets of the file.
abbrev pub packets_of : ℤ → SendfileHeader → List ℕ → List FileChunk
packets_of controller h file =
    chunks_of controller h (length file / packet_payload_size) h.init_seq_no file

-- Once `sendfile` has run, as many calls of `write_handler` for the hop's descriptor as there are
-- packets send the packets of the file, in order, and then the reply to the controller.
pub sendfile-sent :
    (read_file : List ℕ → Option (List ℕ)) (net : Network) (peer : ℤ → ℕ) (controller : ℤ)
    (payload : List ℕ) (st : Routing) (d : DataState) (a : IsAsked read_file net payload st d)
    → let cs = packets_of controller a.request a.file in
      (d' : DataState) × (r : Relayed) × (sendfile read_file net controller payload (st, d)
        ≡ some (a.after, d'))
      × (handle_all net peer (calls (length cs) a.fd) a.after d' ≡ some r)
      × (r.sent
          ≡ map (λ p. record { fd = a.fd; bytes = p }) (payloads_of cs)
            ++ record {
              fd = controller;
              bytes = create_response_header (peer controller) Control.sendfile 0 0;
            }
              ∷ [])
unfolding sendfile
sendfile-sent read_file net peer controller payload st d a =
    let h = a.request in
    let n = length a.file / packet_payload_size in
    let some_packet : 0 < n = omega (arith, a.long) in
    let cs = packets_of controller h a.file in
    let d' =
      enabled a.fd
        (record d { send_buffer = push_chunks h.transfer_id a.index cs d.send_buffer }) in
    let queued : Holds a.after.rs.routers h.transfer_id a.index cs d'.send_buffer =
      rw (enabled-send_buffer a.fd _)
        (push_chunks-Holds a.after.rs.routers h.transfer_id a.index cs [] d.send_buffer a.free) in
    let (r, run, sent) =
      sends_all net peer a.after a.hop h.transfer_id a.index a.fd a.listed a.connected cs d'
        queued in
    (
      d',
      r,
      unfold enable_write in rw (a.parsed, a.way, a.read, a.in_range) refl,
      run,
      sent ∙ messages_of-chunks_of peer a.fd controller h n h.init_seq_no a.file some_packet,
    )
