-- ===== src/Data/Receive/Transfer.antt =====
-- The packets of a file at the router that they are for: `sendfile` and `receive` of
-- src/data_routing.cpp.
use mathlib.Core.List.{append_assoc}
use distance_vector_routing.Common.{
  map, ℕ, zero, suc, ◌+◌, ◌-◌, ◌*◌, ◌/◌, ◌%◌, ◌^◌, ◌≤◌, ◌<◌, ◌≡◌, refl, sym, ap, ◌∙◌, ◌++◌, Bool,
  true, false, List, [], ◌∷◌, Option, some, ◌>>=◌, ◌==◌, ℤ, arith, length, take, drop, take_add,
}
use distance_vector_routing.OrdMap.{at, at-insert}
use distance_vector_routing.Bytes.{load8, load16, load32}
use distance_vector_routing.Bytes.RoundTrip.{htons-lt}
use distance_vector_routing.Routing.{Router, Routing, get_self}
use distance_vector_routing.Routing.Timeout.{Network}
use distance_vector_routing.Data.{
  packet_header_size, packet_payload_size, PacketHeader, packet_header_bytes, load_packet_header,
  FileChunk, DataState,
}
use distance_vector_routing.Data.Sendfile.{SendfileHeader, chunk_header, chunks_of}
use distance_vector_routing.Data.Receive.{WrittenFile, decrement, file_so_far, keep_packet, receive}

-- The fields of a header fit their widths.
pub record FitsHeader (h : PacketHeader) : Type 0 where
  pub ip_fits : h.dest_ip < 2 ^ 32
  pub id_fits : h.transfer_id < 2 ^ 8
  pub ttl_fits : h.ttl < 2 ^ 8
  pub seq_fits : h.seq_no < 2 ^ 16
  pub padding_fits : h.padding < 2 ^ 31

pub load_packet_header-bytes :
    (h : PacketHeader) → FitsHeader h → load_packet_header (packet_header_bytes h) ≡ some h
unfolding load_packet_header packet_header_bytes load8 load16 load32
load_packet_header-bytes h fits = ground arith

-- The bytes of packets.
abbrev pub payloads_of : List FileChunk → List (List ℕ)
payloads_of chunks = map (λ c. c.payload) chunks

-- The packets of a list arrive one after the other.
pub receive_all :
    Network → ℤ → List (List ℕ) → Routing → DataState → Option (DataState × List WrittenFile)
receive_all net fd [] st d = some (d, [])
receive_all net fd (packet ∷ packets) st d = do
  r ←
      receive net fd (some (take packet_header_size packet)) (some (drop packet_header_size packet))
        st d
  (d', written) ← receive_all net fd packets r.routing r.state
  some (d', r.written ++ written)

-- One packet for this router that has hops left.
pub receive-kept :
    (net : Network) (fd : ℤ) (h : PacketHeader) (body : List ℕ) (st : Routing) (d : DataState)
    → (me : Router) → get_self st ≡ some me
    → me.ip ≡ h.dest_ip
    → FitsHeader h
    → 1 < h.ttl
    → let (d', written) = keep_packet (decrement h) body d in
      receive net fd (some (packet_header_bytes h)) (some body) st d
      ≡ some (record { routing = st; state = d'; written = written; watched = true })
unfolding receive
receive-kept net fd h body st d me is_me mine fits alive =
    let live : ((decrement h).ttl == 0) ≡ false = ground (arith, fits.ttl_fits) in
    let here : (me.ip == h.dest_ip) ≡ true = ground arith in
    rw (load_packet_header-bytes h fits, live, is_me, here)

keep_packet-file :
    (h : PacketHeader) (body : List ℕ) (d : DataState)
    → h.fin ≡ false
    → ((keep_packet h body d).1 ≡ [])
      × (at [] h.transfer_id (keep_packet h body d).0.file_data ≡ file_so_far h body d)
unfolding keep_packet
keep_packet-file h body d more = rw more (
  refl,
  at-insert [] h.transfer_id h.transfer_id (file_so_far h body d) d.file_data ∙ ground arith,
)

keep_packet-last :
    (h : PacketHeader) (body : List ℕ) (d : DataState)
    → h.fin ≡ true
    → ((keep_packet h body d).1
        ≡ record { transfer_id = h.transfer_id; content = file_so_far h body d } ∷ [])
      × (at [] h.transfer_id (keep_packet h body d).0.file_data ≡ [])
unfolding keep_packet
keep_packet-last h body d fin =
    rw fin (refl, at-insert [] h.transfer_id h.transfer_id [] d.file_data ∙ ground arith)

-- The request to send a file fits its fields, and its packets have a hop left on arrival.
pub record FitsSendfile (h : SendfileHeader) : Type 0 where
  pub ip_fits : h.dest_ip < 2 ^ 32
  pub id_fits : h.transfer_id < 2 ^ 8
  pub ttl_fits : h.init_ttl < 2 ^ 8
  pub alive : 1 < h.init_ttl

module _ (net : Network) (fd controller : ℤ) (h : SendfileHeader) (st : Routing) (me : Router)
    (is_me : get_self st ≡ some me) (mine : me.ip ≡ h.dest_ip) (fits : FitsSendfile h) where
  chunk-kept :
      (seq_no : ℕ) (fin : Bool) (body : List ℕ) (d : DataState)
      → let c = packet_header_bytes (chunk_header h seq_no fin) ++ body in
        let (d', written) = keep_packet (decrement (chunk_header h seq_no fin)) body d in
        receive net fd (some (take packet_header_size c)) (some (drop packet_header_size c)) st d
        ≡ some (record { routing = st; state = d'; written = written; watched = true })
  unfolding packet_header_bytes
  chunk-kept seq_no fin body d =
      receive-kept net fd (chunk_header h seq_no fin) body st d me is_me mine
        (record {
          ip_fits = fits.ip_fits;
          id_fits = fits.id_fits;
          ttl_fits = fits.ttl_fits;
          seq_fits = htons-lt seq_no;
          padding_fits = omega arith;
        })
        fits.alive

  receive_chunks :
      (n seq_no : ℕ) (file : List ℕ) (d : DataState)
      → (d' : DataState) × (receive_all net fd
            (payloads_of (chunks_of controller h (suc n) seq_no file))
            st
            d
          ≡ some (
            d',
            record {
              transfer_id = h.transfer_id;
              content = at [] h.transfer_id d.file_data ++ take (suc n * packet_payload_size) file;
            }
                ∷ [],
          ))
        × (at [] h.transfer_id d'.file_data ≡ [])
  unfolding receive_all chunks_of
  receive_chunks zero seq_no file d =
      let ch = decrement (chunk_header h seq_no true) in
      let body = take packet_payload_size file in
      let (written, cleared) = keep_packet-last ch body d refl in
      ((keep_packet ch body d).0, rw (chunk-kept seq_no true body d, written), cleared)
  receive_chunks (suc n) seq_no file d =
      let ch = decrement (chunk_header h seq_no false) in
      let body = take packet_payload_size file in
      let rest = drop packet_payload_size file in
      let more : (suc n == 0) ≡ false = ground arith in
      let (written, so_far) = keep_packet-file ch body d refl in
      let (d', run, cleared) =
        receive_chunks n ((seq_no + 1) % 2 ^ 16) rest (keep_packet ch body d).0 in
      let old = at [] h.transfer_id d.file_data in
      let size : suc (suc n) * packet_payload_size
          ≡ packet_payload_size + suc n * packet_payload_size =
        omega arith in
      let content : (old ++ body) ++ take (suc n * packet_payload_size) rest
          ≡ old ++ take (suc (suc n) * packet_payload_size) file =
        append_assoc old body (take (suc n * packet_payload_size) rest)
        ∙ ap (λ l. old ++ l)
            (rw size (sym (take_add packet_payload_size (suc n * packet_payload_size) file))) in
      (d', rw (more, chunk-kept seq_no false body d, written, run, so_far, content), cleared)

  -- A file of at least one packet's payload is cut as `sendfile` does, for a request whose numbers fit
  -- their fields, and its packets arrive at the destination in order, with hops left: no packet faults; one file is written, with what came for
  -- the transfer before and then the file up to its last whole payload; nothing is kept for the next.
  pub receive_all-chunks_of :
      (file : List ℕ) (d : DataState)
      → packet_payload_size ≤ length file
      → let n = length file / packet_payload_size in
        (d' : DataState) × (receive_all net fd
            (payloads_of (chunks_of controller h n h.init_seq_no file))
            st
            d
          ≡ some (
            d',
            record {
              transfer_id = h.transfer_id;
              content = at [] h.transfer_id d.file_data ++ take (n * packet_payload_size) file;
            }
                ∷ [],
          ))
        × (at [] h.transfer_id d'.file_data ≡ [])
  receive_all-chunks_of file d long =
      let n = length file / packet_payload_size in
      let count : n ≡ suc (n - 1) = omega arith in
      rw count (receive_chunks (n - 1) h.init_seq_no file d)
