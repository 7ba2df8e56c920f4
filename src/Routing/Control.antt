-- ===== src/Routing/Control.antt =====
-- The controller's requests of src/routing.cpp: `routing_table_response` and `update_cost`, with
-- `create_response_header` of src/control_header_lib.cpp.
pub mod Response
pub mod Cost
use distance_vector_routing.Common.{
  ℕ, ◌+◌, ◌*◌, ◌%◌, ◌^◌, Bool, ◌&&◌, List, [], ◌∷◌, ◌++◌, Option, none, some, ◌>>=◌, ◌==◌,
  if◌then◌else◌, length, get_elem?, set,
}
use distance_vector_routing.OrdMap.{OrdMap}
use distance_vector_routing.Bytes.{htons, bytes16, bytes32, ntohui16}
use distance_vector_routing.Routing.{Router, Route, Routing, get_self}
use distance_vector_routing.Routing.Vectors.{set_cell}
use distance_vector_routing.Routing.Recompute.{recompute_routing_table}
use distance_vector_routing.Routing.Update.{with_routers}

-- `message_type` of include/controller.h.
pub data MessageType : Type 0 where
  author init routing_table update crash sendfile sendfile_stats last_data_packet
        penultimate_data_packet :
      MessageType

abbrev pub code_of : MessageType → ℕ
code_of author = 0
code_of init = 1
code_of routing_table = 2
code_of update = 3
code_of crash = 4
code_of sendfile = 5
code_of sendfile_stats = 6
code_of last_data_packet = 7
code_of penultimate_data_packet = 8

-- CNTRL_RESP_HEADER_SIZE and ROUTING_TABLE_ENTRY_SIZE.
abbrev pub response_header_size : ℕ
response_header_size = 8

abbrev pub table_entry_size : ℕ
table_entry_size = 8

-- The packed CONTROL_RESPONSE_HEADER; `peer` is the address that `getpeername` finds.
unfoldable pub create_response_header : ℕ → MessageType → ℕ → ℕ → List ℕ
create_response_header peer code response_code payload_len =
    bytes32 peer ++ (code_of code % 256 ∷ response_code % 256 ∷ bytes16 (htons payload_len))

-- The packed ROUTING_TABLE_ENTRY, in network byte order.
unfoldable pub table_entry_bytes : ℕ → Route → List ℕ
table_entry_bytes id r =
    bytes16 (htons id)
    ++ (bytes16 (htons 0) ++ (bytes16 (htons r.next_hop_id) ++ bytes16 (htons r.cost)))

-- The walk over the table, in the order of the ids.
unfoldable pub table_bytes : OrdMap Route → List ℕ
unfolding table_entry_bytes
table_bytes [] = []
table_bytes ((id, r) ∷ m) = table_entry_bytes id r ++ table_bytes m

-- `(uint16_t) (routing_table.size() * ROUTING_TABLE_ENTRY_SIZE)`.
unfoldable pub table_payload_len : OrdMap Route → ℕ
table_payload_len m = length m * table_entry_size % 2 ^ 16

-- `uint16_t response_len`.
unfoldable pub table_response_len : OrdMap Route → ℕ
unfolding table_payload_len
table_response_len m = (response_header_size + table_payload_len m) % 2 ^ 16

-- Whether neither length wraps around.
abbrev pub table_fits : OrdMap Route → Bool
table_fits m =
    table_payload_len m == length m * table_entry_size
    && table_response_len m == response_header_size + length m * table_entry_size

-- What is sent to the controller. Where the payload is empty, the header is sent and deleted, and
-- then read and deleted again, with a payload pointer that was never set: a fault. Where a length
-- wraps around, bytes are written behind the end of a buffer: a fault too.
unfoldable pub routing_table_response : ℕ → Routing → Option (List ℕ)
unfolding create_response_header table_bytes table_response_len
routing_table_response peer st =
    if table_payload_len st.routing_table == 0
    then none
    else if table_fits st.routing_table
    then some (
        create_response_header peer routing_table 0 (table_payload_len st.routing_table)
        ++ table_bytes st.routing_table)
    else none

-- The reply is sent first. `rs.routers[id]` takes the id for an index into the vector.
pub update_cost : ℕ → List ℕ → Routing → Option (Routing × List ℕ)
unfolding create_response_header
update_cost peer payload st = do
  (id, o1) ← ntohui16 payload 0
  (cost, o2) ← ntohui16 payload o1
  r ← get_elem? st.rs.routers id
  me ← get_self st
  let st' = with_routers st (set st.rs.routers id (record r { cost = cost }))
  st'' ←
      recompute_routing_table
        (record st' { distance_vectors = set_cell st.distance_vectors me.router_id id cost })
  some (st'', create_response_header peer update 0 0)
