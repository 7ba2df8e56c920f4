-- ===== src/Routing/Payload/RoundTrip.antt =====
-- What `receive_update` reads of a datagram that `routing_payload` wrote.
use distance_vector_routing.Common.{
  ℕ, suc, ◌≡◌, refl, ap, ◌∙◌, ◌+◌, ◌*◌, ◌^◌, ◌<◌, ◌++◌, List, [], ◌∷◌, map, some, arith, length,
  take, All,
}
use distance_vector_routing.OrdMap.{OrdMap, at}
use distance_vector_routing.Bytes.{htons, ntohs, zeros, write_at, load16, load32}
use distance_vector_routing.Bytes.RoundTrip.{
  ntohs-htons, htons-lt, length-zeros, zeros-add, write_at-append,
}
use distance_vector_routing.Routing.{Timeval, Router, Route, no_route, Routing, get_self}
use distance_vector_routing.Routing.Update.{UpdateHeader, UpdateEntry, process_update}
use distance_vector_routing.Routing.Payload.{
  header_size, entry_size, header_bytes, routing_payload, load_header, load_entries, receive_update,
}
use distance_vector_routing.Routing.Payload.Entries.{
  FitsEntry, encode, host_entry, load_entries-encode, SameRoutes, entries, fill_entries-Filled,
}

-- The entry that a receiver gets for the router `r`.
abbrev pub told_entry : OrdMap Route → Router → UpdateEntry
told_entry table r = record {
  ip_addr = r.ip;
  port = r.router_port;
  padding = 0;
  id = r.router_id;
  cost = (at no_route r.router_id table).cost;
}

-- The fields of a router fit their widths, and so does the cost of the route to it.
pub record FitsRouter (table : OrdMap Route) (r : Router) : Type 0 where
  pub ip_fits : r.ip < 2 ^ 32
  pub port_fits : r.router_port < 2 ^ 16
  pub id_fits : r.router_id < 2 ^ 16
  pub cost_fits : (at no_route r.router_id table).cost < 2 ^ 16

entries-Fits :
    (table : OrdMap Route) (rs : List Router)
    → All (FitsRouter table) rs
    → All FitsEntry (entries table rs)
unfolding entries
entries-Fits table [] h = tt
entries-Fits table (r ∷ rs) h = (
  record {
    ip_fits = h.0.ip_fits;
    port_fits = htons-lt r.router_port;
    padding_fits = htons-lt 0;
    id_fits = htons-lt r.router_id;
    cost_fits = htons-lt (at no_route r.router_id table).cost;
  },
  entries-Fits table rs h.1,
)

host_entries :
    (table : OrdMap Route) (rs : List Router)
    → All (FitsRouter table) rs
    → map host_entry (entries table rs) ≡ map (told_entry table) rs
unfolding entries
host_entries table [] h = refl
host_entries table (r ∷ rs) h =
    rw
      (
        ntohs-htons r.router_port h.0.port_fits,
        ntohs-htons r.router_id h.0.id_fits,
        ntohs-htons (at no_route r.router_id table).cost h.0.cost_fits,
        host_entries table rs h.1,
      )
      (unfold htons in refl)

-- The header that a receiver gets.
abbrev pub told_header : ℕ → Router → UpdateHeader
told_header router_count me = record {
  update_size = router_count;
  src_port = me.router_port;
  src_ip_addr = me.ip;
}

record Payload (st : Routing) (me : Router) (p : List ℕ × Routing) : Type 0 where
  header : load_header (take header_size p.0) ≡ some (told_header st.rs.router_count me)
  loaded :
      load_entries p.0 st.rs.router_count 0 ≡ some (map (told_entry st.routing_table) st.rs.routers)
  routes : SameRoutes p.1.routing_table st.routing_table

length-entries : (table : OrdMap Route) (rs : List Router) → length (entries table rs) ≡ length rs
unfolding entries
length-entries table [] = refl
length-entries table (r ∷ rs) = ap suc (length-entries table rs)

load_header-front :
    (h : UpdateHeader) (back : List ℕ)
    → h.update_size < 2 ^ 16
    → h.src_port < 2 ^ 16
    → h.src_ip_addr < 2 ^ 32
    → load_header (take header_size (header_bytes h ++ back))
      ≡ some (record h { update_size = ntohs h.update_size; src_port = ntohs h.src_port })
unfolding load_header load16 load32
load_header-front h back a b c = ground arith

-- The bytes that `routing_payload` lays down.
pub record Packed (st : Routing) (me : Router) (p : List ℕ × Routing) : Type 0 where
  pub bytes :
      p.0
      ≡ header_bytes (record {
        update_size = htons st.rs.router_count;
        src_port = htons me.router_port;
        src_ip_addr = me.ip;
      })
        ++ encode (entries st.routing_table st.rs.routers)
  pub routes : SameRoutes p.1.routing_table st.routing_table
  pub others : p.1 ≡ record st { routing_table = p.1.routing_table }

-- Once `self` is set and every router is counted, all writes stay in the buffer.
pub routing_payload-Packed :
    (st : Routing) (me : Router)
    → get_self st ≡ some me
    → length st.rs.routers ≡ st.rs.router_count
    → (p : List ℕ × Routing) × (routing_payload st ≡ some p) × Packed st me p
unfolding routing_payload
routing_payload-Packed st me e counted =
    let table = st.routing_table in
    let rs = st.rs.routers in
    let h : UpdateHeader = record {
      update_size = htons st.rs.router_count;
      src_port = htons me.router_port;
      src_ip_addr = me.ip;
    } in
    let space = zeros (length rs * entry_size) in
    let n : header_size + st.rs.router_count * entry_size ≡ header_size + length rs * entry_size =
      rw counted in
    let written : write_at 0 (header_bytes h)
          (zeros (header_size + st.rs.router_count * entry_size))
        ≡ some (header_bytes h ++ space) =
      rw (n, zeros-add header_size (length rs * entry_size))
        (write_at-append [] (header_bytes h) (zeros header_size) space
          (length-zeros header_size)) in
    let (f, run, filled) = fill_entries-Filled table rs (header_bytes h) 0 table refl (λ k. refl) in
    (
      (f.payload, record st { routing_table = f.table }),
      rw (e, written, run),
      record { bytes = filled.bytes; routes = filled.routes; others = refl },
    )

Packed-Payload :
    (st : Routing) (me : Router) (p : List ℕ × Routing)
    → length st.rs.routers ≡ st.rs.router_count
    → st.rs.router_count < 2 ^ 16
    → me.router_port < 2 ^ 16
    → me.ip < 2 ^ 32
    → All (FitsRouter st.routing_table) st.rs.routers
    → Packed st me p
    → Payload st me p
Packed-Payload st me p counted small port_fits ip_fits fits packed =
    let table = st.routing_table in
    let rs = st.rs.routers in
    let h : UpdateHeader = record {
      update_size = htons st.rs.router_count;
      src_port = htons me.router_port;
      src_ip_addr = me.ip;
    } in
    record {
      header = rw (packed.bytes) (
          load_header-front h (encode (entries table rs)) (htons-lt _) (htons-lt _) ip_fits
          ∙ rw (ntohs-htons st.rs.router_count small, ntohs-htons me.router_port port_fits));
      loaded = rw (packed.bytes) (
          rw (length-entries table rs, counted) at
            (load_entries-encode (entries table rs) (header_bytes h) 0 refl
              (entries-Fits table rs fits))
          ∙ ap some (host_entries table rs fits));
      routes = packed.routes;
    }

-- A datagram arrives as it was sent. Where every router's id, port and address, the number of
-- routers and the costs of the routes fit their fields, what one router packs for its neighbours
-- is processed by another as exactly one entry for each router, in order, with the cost that
-- the sender's table has for it.
pub receive_update-routing_payload :
    (now : Timeval) (st receiver : Routing) (me : Router)
    → get_self st ≡ some me
    → length st.rs.routers ≡ st.rs.router_count
    → 0 < st.rs.router_count
    → st.rs.router_count < 2 ^ 16
    → me.router_port < 2 ^ 16
    → me.ip < 2 ^ 32
    → All (FitsRouter st.routing_table) st.rs.routers
    → 0 < receiver.rs.router_count
    → (payload : List ℕ) × (st' : Routing) × (routing_payload st ≡ some (payload, st'))
      × (receive_update now (some (take header_size payload)) (some payload) receiver
          ≡ process_update now
              (told_header st.rs.router_count me)
              (map (told_entry st.routing_table) st.rs.routers)
              receiver)
unfolding receive_update
receive_update-routing_payload now st receiver me e counted some_router small port ip fits up =
    let ((payload, st'), run, packed) = routing_payload-Packed st me e counted in
    let p = Packed-Payload st me (payload, st') counted small port ip fits packed in
    (payload, st', run, ground (arith, p.header, p.loaded))
