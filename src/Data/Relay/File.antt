-- ===== src/Data/Relay/File.antt =====
-- The packets of a file, from where `sendfile` of src/data_routing.cpp cut it to the router that they
-- are for.
use distance_vector_routing.Common.{
  ℕ, zero, suc, ◌+◌, ◌-◌, ◌/◌, ◌*◌, ◌%◌, ◌^◌, ◌≡◌, refl, ap, ◌∙◌, ◌<◌, ◌≤◌, ◌==◌, List, [], ◌∷◌,
  ◌++◌, some, map, take, drop, length, ℤ, arith, All,
}
use distance_vector_routing.Bytes.RoundTrip.{htons-lt}
use distance_vector_routing.OrdMap.{at}
use distance_vector_routing.Routing.{Router, Routing, get_self}
use distance_vector_routing.Routing.Timeout.{Network}
use distance_vector_routing.Data.{packet_payload_size, packet_header_bytes, DataState}
use distance_vector_routing.Data.Sendfile.{SendfileHeader, chunk_header, chunks_of}
use distance_vector_routing.Data.Receive.Transfer.{
  FitsHeader, FitsSendfile, payloads_of, receive_all, receive_all-chunks_of,
}
use distance_vector_routing.Data.Relay.{lower_ttl}
use distance_vector_routing.Data.Relay.Transit.{IsPacket, lower_ttl-bytes}
use distance_vector_routing.Data.Relay.Chain.{Stage, IsStage, lower_all, through, through-lower_all}

-- The request with a TTL that is lower by `k`.
abbrev lower_request : ℕ → SendfileHeader → SendfileHeader
lower_request k h = record h { init_ttl = h.init_ttl - k }

chunk_header-Fits :
    (h : SendfileHeader) (seq_no : ℕ) (n : ℕ)
    → FitsSendfile h
    → FitsHeader (chunk_header h seq_no (n == 0))
chunk_header-Fits h seq_no n fits = record {
  ip_fits = fits.ip_fits;
  id_fits = fits.id_fits;
  ttl_fits = fits.ttl_fits;
  seq_fits = htons-lt seq_no;
  padding_fits = omega arith;
}

chunks_of-IsPacket :
    (controller : ℤ) (h : SendfileHeader) (k n seq_no : ℕ) (file : List ℕ)
    → FitsSendfile h
    → k < h.init_ttl
    → All (IsPacket h.dest_ip h.transfer_id k) (payloads_of (chunks_of controller h n seq_no file))
unfolding chunks_of
chunks_of-IsPacket controller h k zero seq_no file fits alive = tt
chunks_of-IsPacket controller h k (suc n) seq_no file fits alive = (
  record {
    header = chunk_header h seq_no (n == 0);
    body = take packet_payload_size file;
    bytes = refl;
    fits = chunk_header-Fits h seq_no n fits;
    to_dest = refl;
    of_transfer = refl;
    alive = alive;
  },
  chunks_of-IsPacket controller h k n ((seq_no + 1) % 2 ^ 16) (drop packet_payload_size file) fits
      alive,
)

chunks_of-lower_ttl :
    (controller : ℤ) (h : SendfileHeader) (n seq_no : ℕ) (file : List ℕ)
    → FitsSendfile h
    → map lower_ttl (payloads_of (chunks_of controller h n seq_no file))
      ≡ payloads_of (chunks_of controller (lower_request 1 h) n seq_no file)
unfolding chunks_of
chunks_of-lower_ttl controller h zero seq_no file fits = refl
chunks_of-lower_ttl controller h (suc n) seq_no file fits =
    let c = chunk_header h seq_no (n == 0) in
    let body = take packet_payload_size file in
    let ttl : (h.init_ttl + 255) % 256 ≡ h.init_ttl - 1 =
      omega (arith, fits.ttl_fits, fits.alive) in
    let same : lower_ttl (packet_header_bytes c ++ body)
        ≡ packet_header_bytes (chunk_header (lower_request 1 h) seq_no (n == 0)) ++ body =
      lower_ttl-bytes c body (chunk_header-Fits h seq_no n fits) (omega (arith, fits.alive))
      ∙ ap (λ t. packet_header_bytes (record c { ttl = t }) ++ body) ttl in
    rw (
      same,
      chunks_of-lower_ttl controller h n ((seq_no + 1) % 2 ^ 16) (drop packet_payload_size file)
          fits,
    )

lower_request-Fits :
    (h : SendfileHeader) → FitsSendfile h → 2 < h.init_ttl → FitsSendfile (lower_request 1 h)
lower_request-Fits h fits alive = record {
  ip_fits = fits.ip_fits;
  id_fits = fits.id_fits;
  ttl_fits = omega (arith, fits.ttl_fits);
  alive = omega arith;
}

chunks_of-lower_all :
    (controller : ℤ) (k n seq_no : ℕ) (file : List ℕ) (h : SendfileHeader)
    → FitsSendfile h
    → suc k < h.init_ttl
    → lower_all k (payloads_of (chunks_of controller h n seq_no file))
      ≡ payloads_of (chunks_of controller (lower_request k h) n seq_no file)
chunks_of-lower_all controller zero n seq_no file h fits alive =
    ap (λ t. payloads_of (chunks_of controller (record h { init_ttl = t }) n seq_no file))
      (omega arith)
chunks_of-lower_all controller (suc k) n seq_no file h fits alive =
    ap (lower_all k) (chunks_of-lower_ttl controller h n seq_no file fits)
    ∙ chunks_of-lower_all controller k n seq_no file (lower_request 1 h)
        (lower_request-Fits h fits (omega arith)) (omega arith)
    ∙ ap (λ t. payloads_of (chunks_of controller (record h { init_ttl = t }) n seq_no file))
        (omega arith)

-- A file of at least one packet's payload goes to the router that it is for, by any number of routers
-- that are set up to pass it on, with a TTL above that number and one more, for a request whose numbers
-- fit their fields: cut as `sendfile` does, its packets come out of the last of those routers,
-- whatever descriptors can be written to between one packet and the next; at the destination no packet
-- faults, and one file is written, with what came for the transfer before and then the file up to its
-- last whole payload; nothing is kept for the next.
pub through-chunks_of :
    (controller : ℤ) (h : SendfileHeader) (file : List ℕ) (ss : List Stage) (net : Network) (fd : ℤ)
    (st : Routing) (me : Router) (d : DataState)
    → FitsSendfile h
    → suc (length ss) < h.init_ttl
    → All (IsStage h.dest_ip h.transfer_id) ss
    → get_self st ≡ some me
    → me.ip ≡ h.dest_ip
    → packet_payload_size ≤ length file
    → let n = length file / packet_payload_size in
      (arrived : List (List ℕ)) × (d' : DataState) × (through ss
          (payloads_of (chunks_of controller h n h.init_seq_no file))
        ≡ some arrived)
      × (receive_all net fd arrived st d
          ≡ some (
            d',
            record {
              transfer_id = h.transfer_id;
              content = at [] h.transfer_id d.file_data ++ take (n * packet_payload_size) file;
            }
                ∷ [],
          ))
      × (at [] h.transfer_id d'.file_data ≡ [])
through-chunks_of controller h file ss net fd st me d fits alive stages is_me mine long =
    let n = length file / packet_payload_size in
    let k = length ss in
    let h' = lower_request k h in
    let sent = payloads_of (chunks_of controller h n h.init_seq_no file) in
    let fits' : FitsSendfile h' = record {
      ip_fits = fits.ip_fits;
      id_fits = fits.id_fits;
      ttl_fits = omega (arith, fits.ttl_fits);
      alive = omega arith;
    } in
    let (d', run, cleared) =
      receive_all-chunks_of net fd controller h' st me is_me mine fits' file d long in
    (
      payloads_of (chunks_of controller h' n h.init_seq_no file),
      d',
      through-lower_all h.dest_ip h.transfer_id ss sent stages
            (chunks_of-IsPacket controller h k n h.init_seq_no file fits (omega arith))
          ∙ ap (λ l. some l) (chunks_of-lower_all controller k n h.init_seq_no file h fits alive),
      run,
      cleared,
    )
