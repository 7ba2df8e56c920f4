-- ===== src/Data.antt =====
-- The state of src/data_routing.cpp, its packets, and the packets that it keeps: `last` and
-- `penultimate`.
pub mod Fds
pub mod Sendfile
pub mod Receive
pub mod Write
pub mod Relay
pub mod Reports
pub mod Samples
mod Tests
use distance_vector_routing.Common.{
  ℕ, zero, suc, ◌+◌, ◌*◌, ◌/◌, ◌%◌, ◌&&◌, ◌||◌, Bool, true, false, List, [], ◌∷◌, ◌++◌, Option,
  none, some, ◌>>=◌, ltb, ◌==◌, if◌then◌else◌, ℤ,
}
use distance_vector_routing.OrdMap.{OrdMap, insert, at, lookup}
use distance_vector_routing.Bytes.{bytes16, bytes32, load8, load16, load32}

-- DATA_PACKET_HEADER_SIZE and DATA_PACKET_PAYLOAD_SIZE.
abbrev pub packet_header_size : ℕ
packet_header_size = 12

abbrev pub packet_payload_size : ℕ
packet_payload_size = 1024

-- A DATA_PACKET_HEADER; `seq_no` is in network byte order.
pub record PacketHeader : Type 0 where
  pub dest_ip : ℕ
  pub transfer_id : ℕ
  pub ttl : ℕ
  pub seq_no : ℕ
  pub fin : Bool
  pub padding : ℕ

abbrev bit : Bool → ℕ
bit true = 1
bit false = 0

-- The packed struct; the bit field `fin` is the lowest bit of the last word.
unfoldable pub packet_header_bytes : PacketHeader → List ℕ
packet_header_bytes h =
    bytes32 h.dest_ip
    ++ (h.transfer_id % 256
        ∷ h.ttl % 256
        ∷ (bytes16 h.seq_no ++ bytes32 (bit h.fin + 2 * h.padding)))

unfoldable pub load_packet_header : List ℕ → Option PacketHeader
load_packet_header buffer = do
  dest_ip ← load32 buffer 0
  transfer_id ← load8 buffer 4
  ttl ← load8 buffer 5
  seq_no ← load16 buffer 6
  word ← load32 buffer 8
  some (record {
    dest_ip = dest_ip;
    transfer_id = transfer_id;
    ttl = ttl;
    seq_no = seq_no;
    fin = word % 2 == 1;
    padding = word / 2;
  })

pub record FileChunk : Type 0 where
  pub header : PacketHeader
  pub payload : List ℕ
  pub is_origin : Bool
  pub controller_fd : ℤ

-- An entry of `send_buffer`: the pointer `next_hop` of its key, as an index into the vector of
-- routers, and its queue, the front first. Keys are compared by their `transfer_id` alone.
pub record SendQueue : Type 0 where
  pub next_hop : ℕ
  pub chunks : List FileChunk

-- A pair of a TTL and a sequence number.
abbrev pub Stat : Type 0
Stat = ℕ × ℕ

-- The static variables, with `data_write_fds` and `max_fd` of src/Router.cpp.
pub record DataState : Type 0 where
  pub data_fds : List ℤ
  pub stats : OrdMap (List Stat)
  pub last : Option (List ℕ)
  pub penultimate : Option (List ℕ)
  pub file_data : OrdMap (List ℕ)
  pub send_buffer : OrdMap SendQueue
  pub write_fds : List ℤ
  pub max_fd : ℤ

-- A `std::set` of pairs is a list in their order.
unfoldable pub insert_stat : Stat → List Stat → List Stat
insert_stat s [] = s ∷ []
insert_stat (t, q) ((u, r) ∷ l) =
    if ltb t u || (t == u && ltb q r)
    then (t, q) ∷ (u, r) ∷ l
    else if t == u && q == r
    then (u, r) ∷ l
    else (u, r) ∷ insert_stat (t, q) l

unfoldable pub add_stat : ℕ → Stat → OrdMap (List Stat) → OrdMap (List Stat)
unfolding insert_stat
add_stat id s m = insert id (insert_stat s (at [] id m)) m

abbrev shift_packets :
    Option (List ℕ) → Option (List ℕ) → List ℕ → Option (List ℕ) × Option (List ℕ)
shift_packets none penultimate payload = (some payload, penultimate)
shift_packets (some l) penultimate payload = (some payload, some l)

-- Where there is no last packet, the one before it stays as it is.
unfoldable pub update_last_data_packet : List ℕ → DataState → DataState
update_last_data_packet payload d =
    let (last, penultimate) = shift_packets d.last d.penultimate payload in
    record d { last = last; penultimate = penultimate }

abbrev pub push_queue : Option SendQueue → ℕ → FileChunk → SendQueue
push_queue none next_hop c = record { next_hop = next_hop; chunks = c ∷ [] }
push_queue (some q) next_hop c = record q { chunks = q.chunks ++ c ∷ [] }

-- `send_buffer[key].push(chunk)`: where there is an entry for the transfer, its key stays.
unfoldable pub push_chunk : ℕ → ℕ → FileChunk → OrdMap SendQueue → OrdMap SendQueue
push_chunk transfer_id next_hop c m =
    insert transfer_id (push_queue (lookup transfer_id m) next_hop c) m
