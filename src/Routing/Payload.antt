-- ===== src/Routing/Payload.antt =====
-- The datagrams between routers: `routing_payload` and `receive_update` of src/routing.cpp, with the
-- packed structs of include/routing.h.
pub mod Entries
pub mod RoundTrip
use distance_vector_routing.Common.{
  ℕ, zero, suc, ◌+◌, ◌*◌, ◌++◌, Bool, true, false, List, [], ◌∷◌, Option, none, some, ◌>>=◌, ltb,
  ◌==◌, if◌then◌else◌,
}
use distance_vector_routing.OrdMap.{OrdMap, at, touch}
use distance_vector_routing.Bytes.{htons, ntohs, bytes16, bytes32, load16, load32, zeros, write_at}
use distance_vector_routing.Routing.{Timeval, Router, Route, no_route, Routing, get_self}
use distance_vector_routing.Routing.Update.{UpdateHeader, UpdateEntry, process_update}

-- ROUTING_UPDATE_HEADER_SIZE and ROUTING_UPDATE_ENTRY_SIZE.
abbrev pub header_size : ℕ
header_size = 8

abbrev pub entry_size : ℕ
entry_size = 12

-- The memory of a packed struct.
abbrev pub header_bytes : UpdateHeader → List ℕ
header_bytes h = bytes16 h.update_size ++ bytes16 h.src_port ++ bytes32 h.src_ip_addr

abbrev pub entry_bytes : UpdateEntry → List ℕ
entry_bytes e =
    bytes32 e.ip_addr ++ bytes16 e.port ++ bytes16 e.padding ++ bytes16 e.id ++ bytes16 e.cost

-- The entry for the router `r`, in network byte order.
abbrev pub entry_for : OrdMap Route → Router → UpdateEntry
entry_for table r = record {
  ip_addr = r.ip;
  port = htons r.router_port;
  padding = htons 0;
  id = htons r.router_id;
  cost = htons (at no_route r.router_id table).cost;
}

-- The buffer, and the routing table, which the reads may extend.
pub record Filling : Type 0 where
  pub payload : List ℕ
  pub table : OrdMap Route

-- The loop over the routers, from index `i` on.
pub fill_entries : ℕ → List Router → Filling → Option Filling
fill_entries i [] f = some f
fill_entries i (r ∷ rs) f = do
  payload ← write_at (header_size + i * entry_size) (entry_bytes (entry_for f.table r)) f.payload
  fill_entries (i + 1) rs (record { payload = payload; table = touch no_route r.router_id f.table })

unfoldable pub routing_payload : Routing → Option (List ℕ × Routing)
unfolding fill_entries
routing_payload st = do
  me ← get_self st
  payload ←
      write_at 0
        (header_bytes (record {
          update_size = htons st.rs.router_count;
          src_port = htons me.router_port;
          src_ip_addr = me.ip;
        }))
        (zeros (header_size + st.rs.router_count * entry_size))
  f ← fill_entries 0 st.rs.routers (record { payload = payload; table = st.routing_table })
  some (f.payload, record st { routing_table = f.table })

unfoldable pub load_header : List ℕ → Option UpdateHeader
load_header buffer = do
  update_size ← load16 buffer 0
  src_port ← load16 buffer 2
  src_ip_addr ← load32 buffer 4
  some (record {
    update_size = ntohs update_size;
    src_port = ntohs src_port;
    src_ip_addr = src_ip_addr;
  })

load_entry : List ℕ → ℕ → Option UpdateEntry
load_entry buffer offset = do
  ip_addr ← load32 buffer offset
  port ← load16 buffer (offset + 4)
  padding ← load16 buffer (offset + 6)
  id ← load16 buffer (offset + 8)
  cost ← load16 buffer (offset + 10)
  some (record {
    ip_addr = ip_addr;
    port = ntohs port;
    padding = padding;
    id = ntohs id;
    cost = ntohs cost;
  })

-- The entries from index `i` on, of which `n` are left.
pub load_entries : List ℕ → ℕ → ℕ → Option (List UpdateEntry)
unfolding load_entry
load_entries buffer zero i = some []
load_entries buffer (suc n) i = do
  entry ← load_entry buffer (header_size + i * entry_size)
  rest ← load_entries buffer n (i + 1)
  some (entry ∷ rest)

-- What follows once the second call of `recvFromALL` has filled the buffer.
receive_entries : Timeval → UpdateHeader → Option (List ℕ) → Routing → Option Routing
unfolding load_entries
receive_entries now header none st = some st
receive_entries now header (some payload) st = do
  updates ← load_entries payload header.update_size 0
  process_update now header updates st

receive_peeked : Timeval → Option (List ℕ) → Option (List ℕ) → Routing → Option Routing
unfolding receive_entries
receive_peeked now none received st = some st
receive_peeked now (some peeked) received st = do
  header ← load_header peeked
  if header.update_size == 0 then some st else receive_entries now header received st

-- `peeked` and `received` are the buffers that the two calls of `recvFromALL` fill, the first with
-- the header; `none` is a call that fails. That `recvfrom` writes over the parameter `addr` of
-- `recvFromALL`, which the standard leaves undefined, has no effect here.
unfoldable pub receive_update :
    Timeval → Option (List ℕ) → Option (List ℕ) → Routing → Option Routing
unfolding receive_peeked
receive_update now peeked received st =
    if ltb 0 st.rs.router_count then receive_peeked now peeked received st else some st
