-- ===== src/Data/Relay/Transit.antt =====
-- The packets of one transfer in the queues of a router that they go through.
use mathlib.Core.List.{map-append}
use distance_vector_routing.Common.{
  ℕ, suc, ◌+◌, ◌%◌, ◌≡◌, refl, sym, ap, ◌∙◌, ◌<◌, false, List, [], ◌∷◌, ◌++◌, map, take, drop, ℤ,
  arith, All,
}
use distance_vector_routing.OrdMap.{OrdMap}
use distance_vector_routing.Routing.{Router}
use distance_vector_routing.Data.{
  PacketHeader, packet_header_bytes, FileChunk, SendQueue, push_chunk,
}
use distance_vector_routing.Data.Receive.{decrement}
use distance_vector_routing.Data.Receive.Transfer.{FitsHeader}
use distance_vector_routing.Data.Receive.Hops.{decrement-Fits}
use distance_vector_routing.Data.Write.Fronts.{messages_of}
use distance_vector_routing.Data.Relay.Queues.{Holds, payloads, push_chunk-Holds, payloads-Holds}
use distance_vector_routing.Data.Relay.{Ready, comes, writable, bytes_of, lower_ttl, passed_on}

-- A packet of the transfer `id` for `dest`, whose numbers fit their fields, with a TTL above `k`.
pub record IsPacket (dest id k : ℕ) (packet : List ℕ) : Type 0 where
  pub header : PacketHeader
  pub body : List ℕ
  pub bytes : packet ≡ packet_header_bytes header ++ body
  pub fits : FitsHeader header
  pub to_dest : header.dest_ip ≡ dest
  pub of_transfer : header.transfer_id ≡ id
  pub alive : k < header.ttl

-- The bytes of a header before and after its TTL.
pub lower_ttl-bytes :
    (h : PacketHeader) (body : List ℕ)
    → FitsHeader h
    → 0 < h.ttl
    → lower_ttl (packet_header_bytes h ++ body) ≡ packet_header_bytes (decrement h) ++ body
unfolding packet_header_bytes
lower_ttl-bytes h body fits alive =
    let ttl : (h.ttl % 256 + 255) % 256 ≡ (h.ttl + 255) % 256 % 256 = omega arith in rw ttl refl

-- A router takes one off the TTL.
pub lower_ttl-IsPacket :
    (dest id k : ℕ) (packet : List ℕ)
    → IsPacket dest id (suc k) packet
    → IsPacket dest id k (lower_ttl packet)
lower_ttl-IsPacket dest id k packet p = record {
  header = decrement p.header;
  body = p.body;
  bytes = rw (p.bytes) (lower_ttl-bytes p.header p.body p.fits (omega (arith, p.alive)));
  fits = decrement-Fits p.header p.fits (omega (arith, p.alive));
  to_dest = p.to_dest;
  of_transfer = p.of_transfer;
  alive = omega (arith, p.alive, p.fits.ttl_fits);
}

abbrev pub IsTransit : ℕ → ℕ → Ready → Type 0
IsTransit dest id (writable fd) = Unit
IsTransit dest id (comes fd packet) = IsPacket dest id 1 packet

-- No packets wait but those of the transfer, on their way to the hop at `index`; other transfers may
-- have left empty queues.
abbrev pub HoldsTransit : List Router → ℕ → ℕ → OrdMap SendQueue → Type 0
HoldsTransit routers id index m =
    (cs : List FileChunk) × All (λ c. c.is_origin ≡ false) cs × Holds routers id index cs m

All-append_one :
    (P : FileChunk → Type 0) (cs : List FileChunk) (c : FileChunk)
    → All P cs
    → P c
    → All P (cs ++ c ∷ [])
All-append_one P [] c h p = (p, tt)
All-append_one P (x ∷ cs) c h p = (h.0, All-append_one P cs c h.1 p)

pub push_chunk-HoldsTransit :
    (routers : List Router) (id index : ℕ) (c : FileChunk) (m : OrdMap SendQueue)
    → c.is_origin ≡ false
    → HoldsTransit routers id index m
    → HoldsTransit routers id index (push_chunk id index c m)
      × (payloads (push_chunk id index c m) ≡ payloads m ++ c.payload ∷ [])
push_chunk-HoldsTransit routers id index c m passing (cs, all_passing, holds) =
    let held = push_chunk-Holds routers id index c cs m holds in
    (
      (cs ++ c ∷ [], All-append_one (λ c. c.is_origin ≡ false) cs c all_passing passing, held),
      payloads-Holds routers id index (cs ++ c ∷ []) (push_chunk id index c m) held
          ∙ map-append (λ c. c.payload) cs (c ∷ [])
          ∙ ap (λ l. l ++ c.payload ∷ []) (sym (payloads-Holds routers id index cs m holds)),
    )

pub messages_of-passing :
    (peer : ℤ → ℕ) (fd : ℤ) (cs : List FileChunk)
    → All (λ c. c.is_origin ≡ false) cs
    → bytes_of (messages_of peer fd cs) ≡ map (λ c. c.payload) cs
messages_of-passing peer fd [] h = refl
messages_of-passing peer fd (c ∷ cs) h = rw (h.0, messages_of-passing peer fd cs h.1)

pub front_back :
    (cs : List FileChunk)
    → map (λ c. c.payload) (take 1 cs) ++ map (λ c. c.payload) (drop 1 cs) ≡ map (λ c. c.payload) cs
front_back [] = refl
front_back (c ∷ cs) = refl

pub All-take_drop :
    (P : FileChunk → Type 0) (cs : List FileChunk)
    → All P cs
    → All P (take 1 cs) × All P (drop 1 cs)
All-take_drop P [] h = (tt, tt)
All-take_drop P (c ∷ cs) h = ((h.0, tt), h.1)

pub passed_on_cons :
    (e : Ready) (es : List Ready) → passed_on (e ∷ []) ++ passed_on es ≡ passed_on (e ∷ es)
passed_on_cons (comes fd packet) es = refl
passed_on_cons (writable fd) es = refl
