-- ===== src/Data/Reports/Last.antt =====
-- What LAST_DATA_PACKET finds after a packet was kept.
use distance_vector_routing.Common.{ℕ, ◌≡◌, List, none, arith, length}
use distance_vector_routing.Data.{
  packet_payload_size, PacketHeader, DataState, update_last_data_packet,
}
use distance_vector_routing.Data.Receive.{keep_packet}
use distance_vector_routing.Data.Reports.{last_data_pkt}

-- After a packet with a payload of 1024 bytes was kept at its destination, asking for the last packet faults: the buffer holds the
-- payload alone, and a header and a payload are read from it.
pub last_data_pkt-keep_packet :
    (peer : ℕ) (h : PacketHeader) (payload : List ℕ) (d : DataState)
    → length payload ≡ packet_payload_size
    → last_data_pkt peer (keep_packet h payload d).0 ≡ none
unfolding last_data_pkt keep_packet update_last_data_packet
last_data_pkt-keep_packet peer h payload d len = ground arith
