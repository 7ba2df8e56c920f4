-- ===== src/Routing/Control/Response.antt =====
-- What the controller gets of the routing table, and what a cost update does.
use native.Mathlib.Nat.{add-zero}
use mathlib.Core.List.{append_assoc}
use distance_vector_routing.Common.{
  ℕ, zero, suc, ◌+◌, ◌*◌, ◌^◌, ◌≤◌, ◌<◌, ◌≡◌, refl, true, false, ◌∙◌, List, [], ◌∷◌, ◌++◌, Option,
  some, ◌>>=◌, arith, ◌==◌, length, length-append, All,
}
use distance_vector_routing.OrdMap.{OrdMap}
use distance_vector_routing.Bytes.{htons, ntohs, load16}
use distance_vector_routing.Bytes.RoundTrip.{ntohs-htons, htons-lt, load16-append}
use distance_vector_routing.Routing.{Route, Routing}
use distance_vector_routing.Routing.Control.{
  routing_table, table_entry_size, create_response_header, table_entry_bytes, table_bytes,
  table_payload_len, table_response_len, table_fits, routing_table_response,
}

-- How the controller reads the entry at an offset.
read_table_entry : List ℕ → ℕ → Option (ℕ × Route)
read_table_entry buffer offset = do
  id ← load16 buffer offset
  hop ← load16 buffer (offset + 4)
  cost ← load16 buffer (offset + 6)
  some (ntohs id, record { cost = ntohs cost; next_hop_id = ntohs hop })

-- How it reads `n` entries, the first at an offset.
unfoldable pub read_table : List ℕ → ℕ → ℕ → Option (OrdMap Route)
unfolding read_table_entry
read_table buffer zero offset = some []
read_table buffer (suc n) offset = do
  entry ← read_table_entry buffer offset
  rest ← read_table buffer n (offset + table_entry_size)
  some (entry ∷ rest)

-- The fields of an entry of the table fit their widths.
pub record FitsRoute (e : ℕ × Route) : Type 0 where
  pub id_fits : e.0 < 2 ^ 16
  pub cost_fits : e.1.cost < 2 ^ 16
  pub hop_fits : e.1.next_hop_id < 2 ^ 16

read_table_entry-append :
    (front back : List ℕ)
    → read_table_entry (front ++ back) (length front) ≡ read_table_entry back 0
unfolding read_table_entry
read_table_entry-append front back =
    let at_front : load16 (front ++ back) (length front) ≡ load16 back 0 =
      rw (add-zero (length front)) at (load16-append front back 0) in
    simp (at_front, load16-append front back)

read_table_entry-front :
    (id : ℕ) (r : Route) (back : List ℕ)
    → FitsRoute (id, r)
    → read_table_entry (table_entry_bytes id r ++ back) 0 ≡ some (id, r)
unfolding read_table_entry table_entry_bytes load16
read_table_entry-front id r back h = ground (
  arith,
  ntohs-htons id h.id_fits,
  ntohs-htons r.cost h.cost_fits,
  ntohs-htons r.next_hop_id h.hop_fits,
  htons-lt id,
  htons-lt r.cost,
  htons-lt r.next_hop_id,
)

read_table-bytes :
    (m : OrdMap Route) (front : List ℕ) (offset : ℕ)
    → length front ≡ offset
    → All FitsRoute m
    → read_table (front ++ table_bytes m) (length m) offset ≡ some m
unfolding read_table table_bytes
read_table-bytes [] front offset n h = refl
read_table-bytes ((id, r) ∷ m) front offset n h =
    let entry = table_entry_bytes id r in
    let first : read_table_entry (front ++ (entry ++ table_bytes m)) offset ≡ some (id, r) =
      rw (← n) (
        read_table_entry-append front (entry ++ table_bytes m)
        ∙ read_table_entry-front id r (table_bytes m) h.0) in
    let later = rw (append_assoc front entry (table_bytes m)) at (
      read_table-bytes m (front ++ entry) (offset + table_entry_size)
        (unfold table_entry_bytes in omega (arith, length-append front entry)) h.1) in
    simp (first, later)

length-table_bytes : (m : OrdMap Route) → length (table_bytes m) ≡ length m * 8
unfolding table_bytes table_entry_bytes
length-table_bytes [] = refl
length-table_bytes ((id, r) ∷ m) = omega (arith, length-table_bytes m)

payload_len-exact :
    (m : OrdMap Route)
    → 0 < length m
    → length m ≤ 8190
    → ((table_payload_len m == 0) ≡ false)
      × (table_fits m ≡ true)
      × (table_payload_len m ≡ length m * 8)
unfolding table_payload_len table_response_len
payload_len-exact m some_entry few = ground arith

-- A controller that asks for the routing table gets all of it: where it has an entry, at most 8190 of
-- them, and every number fits its field, the reply to ROUTING_TABLE tells the length of what follows
-- its header, and that reads back as the table, entry by entry.
pub routing_table_response-table :
    (peer : ℕ) (st : Routing)
    → 0 < length st.routing_table
    → length st.routing_table ≤ 8190
    → All FitsRoute st.routing_table
    → (reply : List ℕ) × (routing_table_response peer st ≡ some reply)
      × (length reply ≡ 8 + length st.routing_table * 8)
      × (load16 reply 6 ≡ some (htons (length st.routing_table * 8)))
      × (read_table reply (length st.routing_table) 8 ≡ some st.routing_table)
unfolding routing_table_response
routing_table_response-table peer st some_entry few fits =
    let m = st.routing_table in
    let header = create_response_header peer routing_table 0 (table_payload_len m) in
    let (busy, whole, len) = payload_len-exact m some_entry few in
    (
      header ++ table_bytes m,
      rw (busy, whole),
      unfold create_response_header in omega (arith, length-table_bytes m),
      unfold create_response_header load16 in rw len (ground (arith, htons-lt (length m * 8))),
      read_table-bytes m header 8 (unfold create_response_header in refl) fits,
    )
