-- ===== src/Routing/Payload/Entries.antt =====
-- The entries of a datagram, written one after the other and read back.
use native.Mathlib.Nat.{add-zero}
use mathlib.Core.List.{append_assoc}
use distance_vector_routing.Common.{
  ℕ, suc, ◌≡◌, refl, ap, ◌∙◌, ◌+◌, ◌*◌, ◌^◌, ◌<◌, ◌++◌, List, [], ◌∷◌, map, some, arith, length,
  length-append, All,
}
use distance_vector_routing.OrdMap.{OrdMap, at, touch, at-touch}
use distance_vector_routing.Bytes.{ntohs, zeros, write_at, load16, load32}
use distance_vector_routing.Bytes.RoundTrip.{
  load16-append, load32-append, length-zeros, zeros-add, write_at-append,
}
use distance_vector_routing.Routing.{Router, Route, no_route}
use distance_vector_routing.Routing.Update.{UpdateEntry}
use distance_vector_routing.Routing.Payload.{
  header_size, entry_size, entry_bytes, entry_for, Filling, fill_entries, load_entry, load_entries,
}

-- The fields of an entry fit their widths.
pub record FitsEntry (e : UpdateEntry) : Type 0 where
  pub ip_fits : e.ip_addr < 2 ^ 32
  pub port_fits : e.port < 2 ^ 16
  pub padding_fits : e.padding < 2 ^ 16
  pub id_fits : e.id < 2 ^ 16
  pub cost_fits : e.cost < 2 ^ 16

abbrev pub encode : List UpdateEntry → List ℕ
encode [] = []
encode (e ∷ es) = entry_bytes e ++ encode es

-- An entry in the order of the host.
abbrev pub host_entry : UpdateEntry → UpdateEntry
host_entry e = record e { port = ntohs e.port; id = ntohs e.id; cost = ntohs e.cost }

load_entry-front :
    (e : UpdateEntry) (back : List ℕ)
    → FitsEntry e
    → load_entry (entry_bytes e ++ back) 0 ≡ some (host_entry e)
unfolding load_entry load16 load32
load_entry-front e back h = ground arith

load_entry-append :
    (front back : List ℕ) → load_entry (front ++ back) (length front) ≡ load_entry back 0
unfolding load_entry
load_entry-append front back =
    let at_front : load32 (front ++ back) (length front) ≡ load32 back 0 =
      rw (add-zero (length front)) at (load32-append front back 0) in
    simp (at_front, load16-append front back)

length-entry_bytes : (e : UpdateEntry) → length (entry_bytes e) ≡ entry_size
length-entry_bytes e = refl

-- The entries behind any front are read back, each in the order of the host.
pub load_entries-encode :
    (es : List UpdateEntry) (front : List ℕ) (i : ℕ)
    → length front ≡ header_size + i * entry_size
    → All FitsEntry es
    → load_entries (front ++ encode es) (length es) i ≡ some (map host_entry es)
unfolding load_entries
load_entries-encode [] front i h fits = refl
load_entries-encode (e ∷ es) front i h fits =
    let back = encode es in
    let first : load_entry (front ++ (entry_bytes e ++ back)) (header_size + i * entry_size)
        ≡ some (host_entry e) =
      rw (← h) (load_entry-append front (entry_bytes e ++ back) ∙ load_entry-front e back fits.0) in
    let later = rw (append_assoc front (entry_bytes e) back) at (
      load_entries-encode es (front ++ entry_bytes e) (i + 1)
        (omega (arith, length-append front (entry_bytes e))) fits.1) in
    simp (first, later)

-- Two tables in which every read gives the same.
abbrev pub SameRoutes : OrdMap Route → OrdMap Route → Type 0
SameRoutes t u = (k : ℕ) → at no_route k t ≡ at no_route k u

entry_for-same : (t u : OrdMap Route) (r : Router) → SameRoutes t u → entry_for t r ≡ entry_for u r
entry_for-same t u r same = rw (same r.router_id)

unfoldable pub entries : OrdMap Route → List Router → List UpdateEntry
entries table [] = []
entries table (r ∷ rs) = entry_for table r ∷ entries table rs

pub record Filled (table : OrdMap Route) (payload : List ℕ) (f : Filling) : Type 0 where
  pub bytes : f.payload ≡ payload
  pub routes : SameRoutes f.table table

pub fill_entries-Filled :
    (table : OrdMap Route) (rs : List Router) (front : List ℕ) (i : ℕ) (t : OrdMap Route)
    → length front ≡ header_size + i * entry_size
    → SameRoutes t table
    → (f : Filling) × (fill_entries i rs
          (record { payload = front ++ zeros (length rs * entry_size); table = t })
        ≡ some f)
      × Filled table (front ++ encode (entries table rs)) f
unfolding fill_entries entries
fill_entries-Filled table [] front i t h same =
    (_, refl, record { bytes = unfold zeros in refl; routes = same })
fill_entries-Filled table (r ∷ rs) front i t h same =
    let e = entry_for t r in
    let space = zeros (length rs * entry_size) in
    let split : zeros (suc (length rs) * entry_size) ≡ zeros entry_size ++ space =
      let n : suc (length rs) * entry_size ≡ entry_size + length rs * entry_size = omega arith in
      rw n (zeros-add entry_size (length rs * entry_size)) in
    let written : write_at (header_size + i * entry_size) (entry_bytes e)
          (front ++ zeros (suc (length rs) * entry_size))
        ≡ some ((front ++ entry_bytes e) ++ space) =
      rw (split, ← h, append_assoc front (entry_bytes e) space)
        (write_at-append front (entry_bytes e) (zeros entry_size) space
          (length-zeros entry_size)) in
    let (f, run, filled) =
      fill_entries-Filled table rs (front ++ entry_bytes e) (i + 1) (touch no_route r.router_id t)
        (omega (arith, length-append front (entry_bytes e)))
        (λ k. at-touch no_route k r.router_id t ∙ same k) in
    (
      f,
      rw written run,
      record {
        bytes =
            filled.bytes
            ∙ append_assoc front (entry_bytes e) (encode (entries table rs))
            ∙ ap (λ x. front ++ (entry_bytes x ++ encode (entries table rs)))
                (entry_for-same t table r same);
        routes = filled.routes;
      },
    )
