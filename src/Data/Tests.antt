-- ===== src/Data/Tests.antt =====
-- A transfer to the first router of the sample network, one to the second by way of the third, and
-- two transfers that share a next hop.
use distance_vector_routing.Common.{
  ℕ, ◌/◌, ◌*◌, ◌++◌, ◌&&◌, not, Bool, true, false, ◌≡◌, refl, List, [], ◌∷◌, Option, some, pos,
  arith, length, take, drop, map, All,
}
use distance_vector_routing.OrdMap.{at, touch, lookup}
use distance_vector_routing.Bytes.{load16, load32, ntohs}
use distance_vector_routing.Transfer.Loop.{replicate}
use distance_vector_routing.Routing.{Routing}
use distance_vector_routing.Routing.Update.{find_by_id}
use distance_vector_routing.Routing.Forward.{next_hop_for}
use distance_vector_routing.Routing.Samples.{first, second, third, sample, network}
use distance_vector_routing.Data.{
  packet_payload_size, packet_header_size, PacketHeader, packet_header_bytes, FileChunk, DataState,
  push_queue,
}
use distance_vector_routing.Data.Fds.{is_set}
use distance_vector_routing.Data.Samples.{quiet, hops, linked}
use distance_vector_routing.Data.Sendfile.{
  SendfileHeader, load_sendfile_header, chunks_of, sendfile,
}
use distance_vector_routing.Data.Sendfile.Queue.{sendfile-known}
use distance_vector_routing.Data.Receive.{Received, keep_packet, receive}
use distance_vector_routing.Data.Receive.Transfer.{
  FitsHeader, payloads_of, receive_all, receive_all-chunks_of,
}
use distance_vector_routing.Data.Receive.Hops.{receive-two_hops}
use distance_vector_routing.Data.Write.{Message, write_handler}
use distance_vector_routing.Data.Write.Fronts.{HasHop, messages_of, advance, write_handler-fronts}
use distance_vector_routing.Data.Write.Enabled.{is_empty, ends_file, write_handler-write_fds}

-- The first router is the destination.
abbrev request : SendfileHeader
request = record { dest_ip = 167772161; init_ttl = 6; transfer_id = 4; init_seq_no = 65535 }

abbrev text : List ℕ
text = replicate 2100 7

receive_all-chunks_of_example :
    (d' : DataState) × (receive_all network
        (pos 9)
        (payloads_of (chunks_of (pos 5) request (length text / packet_payload_size) 65535 text))
        sample
        quiet
      ≡ some (
        d',
        record {
          transfer_id = 4;
          content =
              at [] 4 quiet.file_data
              ++ take (length text / packet_payload_size * packet_payload_size) text;
        }
            ∷ [],
      ))
    × (at [] 4 d'.file_data ≡ [])
receive_all-chunks_of_example =
    receive_all-chunks_of network (pos 9) (pos 5) request sample first refl refl
      (record {
        ip_fits = omega arith;
        id_fits = omega arith;
        ttl_fits = omega arith;
        alive = omega arith;
      })
      text quiet (omega arith)

abbrev packet : ℕ → Bool → FileChunk
packet id fin = record {
  header = record {
    dest_ip = 167772162;
    transfer_id = id;
    ttl = 6;
    seq_no = 256;
    fin = fin;
    padding = 0;
  };
  payload = 1 ∷ 2 ∷ [];
  is_origin = true;
  controller_fd = pos 5;
}

-- The last packet of one transfer waits, and two of another.
abbrev waiting : DataState
waiting = record quiet {
  send_buffer =
      (4, record { next_hop = 2; chunks = packet 4 true ∷ [] })
      ∷ (6, record { next_hop = 2; chunks = packet 6 false ∷ packet 6 true ∷ [] })
      ∷ (7, record { next_hop = 1; chunks = [] })
      ∷ [];
  write_fds = pos 8 ∷ [];
}

waiting-HasHop : All (HasHop hops) waiting.send_buffer
waiting-HasHop = (
  record { hop = record third { data_socket_fd = pos 8 }; is_hop = refl },
  (
    record { hop = record third { data_socket_fd = pos 8 }; is_hop = refl },
    (record { hop = second; is_hop = refl }, tt),
  ),
)

write_handler-fronts_example :
    (d' : DataState) × (write_handler (λ fd. 0) (pos 8) hops waiting
      ≡ some (d', messages_of (λ fd. 0) (pos 8) (packet 4 true ∷ packet 6 false ∷ [])))
    × (d'.send_buffer ≡ map (advance (pos 8) hops) waiting.send_buffer)
write_handler-fronts_example = write_handler-fronts (λ fd. 0) (pos 8) hops waiting waiting-HasHop

-- A packet still waits for the descriptor.
write_handler-write_fds_example :
    (d' : DataState) × (sent : List Message) × (write_handler (λ fd. 0) (pos 8) hops waiting
      ≡ some (d', sent))
    × (is_set (pos 8) d'.write_fds ≡ (
        is_set (pos 8) waiting.write_fds
        && not (is_empty (packet 4 true ∷ packet 6 false ∷ []))
        && not (ends_file (packet 4 true ∷ packet 6 false ∷ []))))
write_handler-write_fds_example =
    write_handler-write_fds (λ fd. 0) (pos 8) hops waiting waiting-HasHop

-- The file `a` to the second router as transfer 7, whose queue has the second router for its next hop.
abbrev command : List ℕ
command = 2 ∷ 0 ∷ 0 ∷ 10 ∷ 6 ∷ 7 ∷ 0 ∷ 1 ∷ 97 ∷ []

abbrev command_header : SendfileHeader
command_header = record { dest_ip = 167772162; init_ttl = 6; transfer_id = 7; init_seq_no = 1 }

abbrev read_text : List ℕ → Option (List ℕ)
read_text name = some text

sendfile-known_example :
    (d' : DataState) × (sendfile read_text network (pos 5) command (linked, waiting)
      ≡ some (linked, d'))
    × (lookup 7 d'.send_buffer
        ≡ some (record {
          next_hop = 1;
          chunks =
              [] ++ chunks_of (pos 5) command_header (length text / packet_payload_size) 1 text;
        }))
    × (is_set (pos 8) d'.write_fds ≡ true)
unfolding load32 load16 ntohs at find_by_id touch
sendfile-known_example =
    sendfile-known read_text network (pos 5) command linked linked waiting command_header 2 (pos 8)
      (record { next_hop = 1; chunks = [] }) text (unfold load_sendfile_header in refl)
      (unfold next_hop_for in refl) refl refl (unfold lookup in refl)

-- The second router's own view.
abbrev at_second_router : Routing
at_second_router = record sample { self = some 1 }

abbrev sent_header : PacketHeader
sent_header = record {
  dest_ip = 167772162;
  transfer_id = 9;
  ttl = 3;
  seq_no = 256;
  fin = true;
  padding = 0;
}

sent_header-Fits : FitsHeader sent_header
sent_header-Fits = record {
  ip_fits = omega arith;
  id_fits = omega arith;
  ttl_fits = omega arith;
  seq_fits = omega arith;
  padding_fits = omega arith;
}

two_hops-to_second :
    (r : Received) × (c : FileChunk) × (receive network
        (pos 9)
        (some (packet_header_bytes sent_header))
        (some (1 ∷ 2 ∷ []))
        linked
        waiting
      ≡ some r)
    × (lookup 9 r.state.send_buffer ≡ some (push_queue (lookup 9 waiting.send_buffer) 2 c))
    × (receive network
          (pos 9)
          (some (take packet_header_size c.payload))
          (some (drop packet_header_size c.payload))
          at_second_router
          quiet
        ≡ some (record {
          routing = at_second_router;
          state = (keep_packet (record sent_header { ttl = 1 }) (1 ∷ 2 ∷ []) quiet).0;
          written = (keep_packet (record sent_header { ttl = 1 }) (1 ∷ 2 ∷ []) quiet).1;
          watched = true;
        }))
unfolding at find_by_id touch
two_hops-to_second =
    receive-two_hops network network (pos 9) (pos 9) sent_header (1 ∷ 2 ∷ []) linked linked
      at_second_router waiting quiet first second 2 (pos 8) refl refl sent_header-Fits (omega arith)
      refl (unfold next_hop_for in refl) refl refl
