-- ===== src/Data/Reports.antt =====
-- What the controller is told of the packets: `sendfile_stats`, `last_data_pkt` and
-- `penultimate_data_pkt` of src/data_routing.cpp.
pub mod Stats
pub mod Last
mod Tests
use distance_vector_routing.Common.{
  ℕ, ◌+◌, ◌*◌, ◌%◌, ◌^◌, ◌++◌, List, [], ◌∷◌, Option, none, some, ◌>>=◌, ltb, leb, ◌==◌,
  if◌then◌else◌, length, take,
}
use distance_vector_routing.OrdMap.{at, touch}
use distance_vector_routing.Bytes.{htons, bytes16, toui8}
use distance_vector_routing.Routing.Control.{
  MessageType, sendfile_stats, last_data_packet, penultimate_data_packet, create_response_header,
}
use distance_vector_routing.Data.{packet_header_size, packet_payload_size, Stat, DataState}

-- The loop writes the sequence numbers one after the other, and each TTL over the one before.
unfoldable pub seq_bytes : List Stat → List ℕ
seq_bytes [] = []
seq_bytes ((ttl, seq_no) ∷ l) = bytes16 (htons seq_no) ++ seq_bytes l

abbrev pub last_ttl : ℕ → List Stat → ℕ
last_ttl ttl [] = ttl
last_ttl ttl ((t, seq_no) ∷ l) = last_ttl t l

-- `uint16_t payload_len`: where it wraps around, bytes are written behind the end of the buffer.
unfoldable pub stats_reply : ℕ → ℕ → List Stat → Option (Option (List ℕ))
unfolding seq_bytes
stats_reply peer id l =
    if length l == 0
    then some none
    else if ltb (4 + length l * 2) (2 ^ 16)
    then some (
        some (
          create_response_header peer sendfile_stats 0 (4 + length l * 2)
          ++ (id % 256 ∷ last_ttl 0 l % 256 ∷ (bytes16 (htons 0) ++ seq_bytes l))))
    else none

-- The reply, if there is one. `stats[transfer_id]` inserts an empty set.
unfoldable pub send_stats : ℕ → List ℕ → DataState → Option (Option (List ℕ) × DataState)
unfolding stats_reply
send_stats peer payload d = do
  (id, offset) ← toui8 payload 0
  reply ← stats_reply peer id (at [] id d.stats)
  some (reply, record d { stats = touch [] id d.stats })

-- A packet is copied from its buffer; reading behind its end is a fault.
unfoldable pub packet_reply : ℕ → MessageType → Option (List ℕ) → Option (Option (List ℕ))
packet_reply peer code none = some none
packet_reply peer code (some packet) =
    if leb (packet_header_size + packet_payload_size) (length packet)
    then some (
        some (
          create_response_header peer code 0 (packet_header_size + packet_payload_size)
          ++ take (packet_header_size + packet_payload_size) packet))
    else none

unfoldable pub last_data_pkt : ℕ → DataState → Option (Option (List ℕ))
unfolding packet_reply
last_data_pkt peer d = packet_reply peer last_data_packet d.last

unfoldable pub penultimate_data_pkt : ℕ → DataState → Option (Option (List ℕ))
unfolding packet_reply
penultimate_data_pkt peer d = packet_reply peer penultimate_data_packet d.penultimate
