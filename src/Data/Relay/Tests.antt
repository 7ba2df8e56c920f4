-- ===== src/Data/Relay/Tests.antt =====
-- Packets for the second router go through two routers that see it by way of the third.
use distance_vector_routing.Common.{
  ℕ, ◌/◌, ◌*◌, ◌++◌, false, ◌≡◌, refl, List, [], ◌∷◌, Option, some, map, pos, ℤ, arith, length,
  take, inl, inr,
}
use distance_vector_routing.OrdMap.{at, touch}
use distance_vector_routing.Bytes.{load16, load32, ntohs}
use distance_vector_routing.Transfer.Loop.{replicate}
use distance_vector_routing.Routing.{Routing}
use distance_vector_routing.Routing.Update.{find_by_id}
use distance_vector_routing.Routing.Forward.{next_hop_for}
use distance_vector_routing.Routing.Control.{create_response_header}
use distance_vector_routing.Routing.Control
use distance_vector_routing.Routing.Samples.{first, second, third, sample, network}
use distance_vector_routing.Data.{packet_payload_size, PacketHeader, packet_header_bytes, DataState}
use distance_vector_routing.Data.Samples.{quiet, linked}
use distance_vector_routing.Data.Sendfile.{SendfileHeader, load_sendfile_header, sendfile}
use distance_vector_routing.Data.Receive.Transfer.{receive_all}
use distance_vector_routing.Data.Relay.{Ready, comes, writable, Relayed, handle_all}
use distance_vector_routing.Data.Relay.Queues.{IsEmpty, Holds}
use distance_vector_routing.Data.Relay.Order.{calls}
use distance_vector_routing.Data.Relay.Chain.{Stage, IsStage, through}
use distance_vector_routing.Data.Relay.Origin.{IsAsked}
use distance_vector_routing.Data.Relay.Whole.{sendfile-receive_all}

-- The packet with the sequence number `seq_no`, in network byte order.
abbrev header : ℕ → PacketHeader
header seq_no = record {
  dest_ip = 167772162;
  transfer_id = 4;
  ttl = 6;
  seq_no = seq_no;
  fin = false;
  padding = 0;
}

abbrev packet : ℕ → List ℕ
packet seq_no = packet_header_bytes (header seq_no) ++ (1 ∷ 2 ∷ [])

-- Three transfers have left empty queues.
abbrev used : DataState
used = record quiet {
  send_buffer =
      (3, record { next_hop = 1; chunks = [] })
      ∷ (4, record { next_hop = 2; chunks = [] })
      ∷ (9, record { next_hop = 1; chunks = [] })
      ∷ [];
}

IsEmpty-used : (k : ℕ) → IsEmpty linked.rs.routers (k, record { next_hop = 1; chunks = [] })
IsEmpty-used k = record { nothing = refl; hop = record { hop = second; is_hop = refl } }

IsEmpty-fourth : IsEmpty linked.rs.routers (4, record { next_hop = 2; chunks = [] })
IsEmpty-fourth = record {
  nothing = refl;
  hop = record { hop = record third { data_socket_fd = pos 8 }; is_hop = refl };
}

used-Holds_seventh : Holds linked.rs.routers 7 2 [] used.send_buffer
used-Holds_seventh = inl (
  omega arith,
  IsEmpty-used 3,
  inl (omega arith, IsEmpty-fourth, inr (inr (refl, ((omega arith, IsEmpty-used 9), tt)))),
)

-- Two packets come; a descriptor can be written to that is not the hop's, and then the hop's.
abbrev readied : List Ready
readied =
    writable (pos 8)
    ∷ comes (pos 9) (packet 256)
    ∷ writable (pos 7)
    ∷ comes (pos 9) (packet 256)
    ∷ writable (pos 8)
    ∷ []

abbrev request : SendfileHeader
request = record { dest_ip = 167772162; init_ttl = 6; transfer_id = 7; init_seq_no = 1 }

abbrev text : List ℕ
text = replicate 2100 7

-- In the first of the two the hop can be written to after each packet, in the other one only at last.
abbrev stage : (ℕ → List ℤ) → Stage
stage gaps = record {
  net = network;
  peer = λ fd. 0;
  routing = linked;
  state = used;
  in_fd = pos 9;
  hop_fd = pos 8;
  gaps = gaps;
}

stage-IsStage : (gaps : ℕ → List ℤ) → IsStage 167772162 7 (stage gaps)
unfolding at find_by_id touch
stage-IsStage gaps = record {
  me = first;
  hop = record third { data_socket_fd = pos 8 };
  index = 2;
  is_me = refl;
  other = refl;
  way = unfold next_hop_for in refl;
  listed = refl;
  in_range = refl;
  connected = refl;
  free = used-Holds_seventh;
}

abbrev two : List Stage
two = stage (λ i. pos 8 ∷ []) ∷ stage (λ i. []) ∷ []

-- The second router's own view.
abbrev at_second_router : Routing
at_second_router = record sample { self = some 1 }

abbrev count : ℕ
count = length text / packet_payload_size

-- The file `a` to the second router as transfer 7.
abbrev command : List ℕ
command = 2 ∷ 0 ∷ 0 ∷ 10 ∷ 6 ∷ 7 ∷ 0 ∷ 1 ∷ 97 ∷ []

abbrev read_text : List ℕ → Option (List ℕ)
read_text name = some text

asked : IsAsked read_text network command linked used
unfolding load32 load16 ntohs at find_by_id touch
asked = record {
  request = request;
  file = text;
  after = linked;
  index = 2;
  fd = pos 8;
  hop = record third { data_socket_fd = pos 8 };
  parsed = unfold load_sendfile_header in refl;
  way = unfold next_hop_for in refl;
  read = refl;
  free = used-Holds_seventh;
  listed = refl;
  in_range = refl;
  connected = refl;
  long = omega arith;
}

sendfile-receive_all_example :
    (packets : List (List ℕ)) × (sender : DataState) × (r : Relayed) × (arrived : List (List ℕ))
    × (receiver : DataState) × (sendfile read_text network (pos 5) command (linked, used)
        ≡ some (linked, sender))
    × (handle_all network (λ fd. 0) (calls (length packets) (pos 8)) linked sender ≡ some r)
    × (r.sent
        ≡ map (λ p. record { fd = pos 8; bytes = p }) packets
          ++ record { fd = pos 5; bytes = create_response_header 0 Control.sendfile 0 0 } ∷ [])
    × (through two packets ≡ some arrived)
    × (receive_all network (pos 9) arrived at_second_router quiet
        ≡ some (
          receiver,
          record {
            transfer_id = 7;
            content = at [] 7 quiet.file_data ++ take (count * packet_payload_size) text;
          }
              ∷ [],
        ))
    × (at [] 7 receiver.file_data ≡ [])
unfolding asked
sendfile-receive_all_example =
    sendfile-receive_all read_text network (λ fd. 0) (pos 5) command linked used two network (pos 9)
      at_second_router quiet second asked
      (record {
        ip_fits = omega arith;
        id_fits = omega arith;
        ttl_fits = omega arith;
        alive = omega arith;
      })
      (omega arith) (stage-IsStage (λ i. pos 8 ∷ []), (stage-IsStage (λ i. []), tt)) refl refl
