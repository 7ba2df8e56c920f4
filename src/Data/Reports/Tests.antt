-- ===== src/Data/Reports/Tests.antt =====
-- The reports on small states.
use distance_vector_routing.Common.{◌≡◌, [], ◌∷◌, none, false, arith}
use distance_vector_routing.Transfer.Loop.{replicate}
use distance_vector_routing.Data.{PacketHeader, DataState}
use distance_vector_routing.Data.Samples.{quiet}
use distance_vector_routing.Data.Receive.{keep_packet}
use distance_vector_routing.Data.Reports.{last_data_pkt}
use distance_vector_routing.Data.Reports.Last.{last_data_pkt-keep_packet}

-- Two packets of transfer 4, with the sequence numbers 0 and 65535.
abbrev counted : DataState
counted = record quiet { stats = (4, (5, 0) ∷ (5, 65535) ∷ []) ∷ [] }

abbrev header : PacketHeader
header = record {
  dest_ip = 167772161;
  transfer_id = 4;
  ttl = 5;
  seq_no = 0;
  fin = false;
  padding = 0;
}

last_data_pkt-keep_packet_example :
    last_data_pkt 167772161 (keep_packet header (replicate 1024 7) quiet).0 ≡ none
last_data_pkt-keep_packet_example =
    last_data_pkt-keep_packet 167772161 header (replicate 1024 7) quiet (omega arith)
