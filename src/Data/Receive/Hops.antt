-- ===== src/Data/Receive/Hops.antt =====
-- A packet that goes through one router to the next.
use distance_vector_routing.Common.{
  ℕ, ◌+◌, ◌-◌, ◌%◌, ◌≡◌, ◌<◌, ◌++◌, ◌==◌, true, false, List, [], some, ℤ, pos, take, drop, arith,
}
use distance_vector_routing.OrdMap.{lookup, lookup-insert}
use distance_vector_routing.Routing.{Router, Routing, get_self}
use distance_vector_routing.Routing.Timeout.{Network}
use distance_vector_routing.Routing.Forward.{next_hop_for}
use distance_vector_routing.Data.{
  packet_header_size, PacketHeader, packet_header_bytes, FileChunk, DataState, push_queue,
  push_chunk,
}
use distance_vector_routing.Data.Fds.{fits_set, enabled, enable_write}
use distance_vector_routing.Data.Receive.{Received, decrement, keep_packet, forward_packet, receive}
use distance_vector_routing.Data.Receive.Transfer.{
  FitsHeader, load_packet_header-bytes, receive-kept,
}

-- A packet on its way.
abbrev pub on_its_way : PacketHeader → List ℕ → FileChunk
on_its_way h body = record {
  header = h;
  payload = packet_header_bytes h ++ body;
  is_origin = false;
  controller_fd = pos 0;
}

-- The state after a packet was queued for the next hop.
unfoldable pub queued_for : PacketHeader → List ℕ → ℕ → ℤ → DataState → DataState
queued_for h body hop fd d =
    enabled fd
      (record d { send_buffer = push_chunk h.transfer_id hop (on_its_way h body) d.send_buffer })

pub queued_for-lookup :
    (h : PacketHeader) (body : List ℕ) (hop : ℕ) (fd : ℤ) (d : DataState)
    → lookup h.transfer_id (queued_for h body hop fd d).send_buffer
      ≡ some (push_queue (lookup h.transfer_id d.send_buffer) hop (on_its_way h body))
unfolding queued_for push_chunk enabled
queued_for-lookup h body hop fd d = ground (
  arith,
  lookup-insert h.transfer_id h.transfer_id
      (push_queue (lookup h.transfer_id d.send_buffer) hop (on_its_way h body)) d.send_buffer,
)

pub decrement-Fits : (h : PacketHeader) → FitsHeader h → 1 < h.ttl → FitsHeader (decrement h)
decrement-Fits h fits alive = record {
  ip_fits = fits.ip_fits;
  id_fits = fits.id_fits;
  ttl_fits = omega arith;
  seq_fits = fits.seq_fits;
  padding_fits = fits.padding_fits;
}

pub receive-forwarded :
    (net : Network) (fd : ℤ) (h : PacketHeader) (body : List ℕ) (st st' : Routing) (d : DataState)
    (me : Router) (hop : ℕ) (hop_fd : ℤ)
    → get_self st ≡ some me
    → (me.ip == h.dest_ip) ≡ false
    → FitsHeader h
    → 1 < h.ttl
    → fits_set hop_fd ≡ true
    → next_hop_for net h.dest_ip st ≡ (some (hop, hop_fd), st')
    → receive net fd (some (packet_header_bytes h)) (some body) st d
      ≡ some (record {
        routing = st';
        state = queued_for (decrement h) body hop hop_fd d;
        written = [];
        watched = true;
      })
unfolding receive forward_packet enable_write queued_for
receive-forwarded net fd h body st st' d me hop hop_fd is_me other fits alive in_range way =
    let live : ((decrement h).ttl == 0) ≡ false = ground (arith, fits.ttl_fits) in
    rw (load_packet_header-bytes h fits, live, is_me, other, way, in_range)

-- A packet with a TTL of at least 3, whose numbers fit their fields, for another router towards which
-- the next hop's port is open, with a descriptor in the range of FD_SET, is queued where its transfer's packets wait for the next hop; and the
-- bytes that were queued are, at the router that they are for, the packet with its TTL two lower,
-- which is kept there.
pub receive-two_hops :
    (net net2 : Network) (fd fd2 : ℤ) (h : PacketHeader) (body : List ℕ) (st st' st2 : Routing)
    (d d2 : DataState) (me me2 : Router) (hop : ℕ) (hop_fd : ℤ)
    → get_self st ≡ some me
    → (me.ip == h.dest_ip) ≡ false
    → FitsHeader h
    → 2 < h.ttl
    → fits_set hop_fd ≡ true
    → next_hop_for net h.dest_ip st ≡ (some (hop, hop_fd), st')
    → get_self st2 ≡ some me2
    → me2.ip ≡ h.dest_ip
    → let arrived = record h { ttl = h.ttl - 2 } in
      let (kept2, written) = keep_packet arrived body d2 in
      (r : Received) × (c : FileChunk) × (receive net fd
          (some (packet_header_bytes h))
          (some body)
          st
          d
        ≡ some r)
      × (lookup h.transfer_id r.state.send_buffer
          ≡ some (push_queue (lookup h.transfer_id d.send_buffer) hop c))
      × (receive net2 fd2
            (some (take packet_header_size c.payload))
            (some (drop packet_header_size c.payload))
            st2
            d2
          ≡ some (record { routing = st2; state = kept2; written = written; watched = true }))
receive-two_hops net net2 fd fd2 h body st st' st2 d d2 me me2 hop hop_fd is_me other fits alive
      in_range way is_me2 mine =
    let one : PacketHeader = decrement h in
    let lower : (one.ttl + 255) % 256 ≡ h.ttl - 2 = omega (arith, fits.ttl_fits) in
    (
      record {
        routing = st';
        state = queued_for one body hop hop_fd d;
        written = [];
        watched = true;
      },
      on_its_way one body,
      receive-forwarded net fd h body st st' d me hop hop_fd is_me other fits (omega arith) in_range
          way,
      queued_for-lookup one body hop hop_fd d,
      unfold packet_header_bytes in
          rw lower at (
            receive-kept net2 fd2 one body st2 d2 me2 is_me2 mine
              (decrement-Fits h fits (omega arith)) (omega (arith, fits.ttl_fits))),
    )
