-- ===== src/Routing/Recompute/Shortest.antt =====
-- `recompute_routing_table` of src/routing.cpp and the Bellman-Ford equation.
use Prim.Native.Nat.{min}
use native.Mathlib.Decide.{dec_lt}
use distance_vector_routing.Common.{
  ℕ, ◌≡◌, refl, ◌∙◌, ◌≤◌, ◌&&◌, not, List, [], ◌∷◌, some, arith, ◌==◌, ltb, if◌then◌else◌,
  Option-cases, inl, inr,
}
use distance_vector_routing.OrdMap.{lookup, lookup-insert}
use distance_vector_routing.Routing.{inf, is_self, Router, Routing, get_self}
use distance_vector_routing.Routing.Vectors.{Vectors, touch_cell, cell-touch_cell}
use distance_vector_routing.Routing.Recompute.{
  Scan, Tables, relax, scan, recompute_row, recompute_rows, recompute_routing_table, start_scan,
  recompute_with,
}
use distance_vector_routing.Routing.Recompute.Best.{
  SameCells, is_destination, candidate_cost, best_cost, first_hop, best_route, best_cost-le,
}

relax-SameCells :
    (me destination : ℕ) (n : Router) (s : Scan)
    → SameCells (relax me destination n s).vectors s.vectors
unfolding relax
relax-SameCells me destination n s x y = ground (
  arith,
  cell-touch_cell s.vectors me n.router_id x y,
  cell-touch_cell (touch_cell s.vectors me n.router_id) n.router_id destination x y,
)

-- One round takes the way through `n` if it is strictly shorter.
relax_lem :
    (v : Vectors) (me destination : ℕ) (n : Router) (s : Scan)
    → SameCells s.vectors v
    → s.min_cost ≤ inf
    → let c = candidate_cost v me destination n in
      let s' = relax me destination n s in
      (s'.min_cost ≡ (if ltb c s.min_cost then c else s.min_cost))
      × (s'.min_next_hop ≡ (if ltb c s.min_cost then n.router_id else s.min_next_hop))
unfolding relax candidate_cost
relax_lem v me destination n s same h = ground (
  arith,
  cell-touch_cell s.vectors me n.router_id n.router_id destination,
  same me n.router_id,
  same n.router_id destination,
)

record Scanned (v : Vectors) (me destination : ℕ) (ns : List Router) (s s' : Scan) : Type 0 where
  cost : s'.min_cost ≡ min s.min_cost (best_cost v me destination ns)
  hop : s'.min_next_hop ≡ (
      if ltb (best_cost v me destination ns) s.min_cost
      then first_hop v me destination (best_cost v me destination ns) ns
      else s.min_next_hop)
  same : SameCells s'.vectors v

-- What the first round and the later ones choose together: `c` is the cost of the first way, `m` and
-- `h` what was found before it, `b` the least of the later costs, and `f` names a way by its cost.
choose_cost : (c m b : ℕ) → min (if ltb c m then c else m) b ≡ min m (min c b)
choose_cost c m b = ground arith

choose_hop :
    (c m b i h : ℕ) (f : ℕ → ℕ)
    → (if ltb b (if ltb c m then c else m) then f b else (if ltb c m then i else h))
      ≡ (if ltb (min c b) m then (if c == min c b then i else f (min c b)) else h)
choose_hop c m b i h f = elim (dec_lt b c) [
  | yes p ↦ let e : min c b ≡ b = omega arith in rw e (ground arith)
  | no p ↦ let e : min c b ≡ c = omega arith in rw e (ground arith)
]

relax-le :
    (v : Vectors) (me destination : ℕ) (n : Router) (s : Scan)
    → SameCells s.vectors v
    → s.min_cost ≤ inf
    → (relax me destination n s).min_cost ≤ inf
relax-le v me destination n s same h = ground (arith, relax_lem v me destination n s same h)

Scanned-cons :
    (v : Vectors) (me destination : ℕ) (n : Router) (ns : List Router) (s s' : Scan)
    → SameCells s.vectors v
    → s.min_cost ≤ inf
    → Scanned v me destination ns (relax me destination n s) s'
    → Scanned v me destination (n ∷ ns) s s'
unfolding best_cost first_hop
Scanned-cons v me destination n ns s s' same h rest =
    let c = candidate_cost v me destination n in
    let b = best_cost v me destination ns in
    let (cost, hop) = relax_lem v me destination n s same h in
    record {
      cost = rest.cost ∙ rw cost (choose_cost c s.min_cost b);
      hop =
          rest.hop
          ∙ rw (cost, hop)
              (choose_hop c s.min_cost b n.router_id s.min_next_hop
                (λ x. first_hop v me destination x ns));
      same = rest.same;
    }

scan_lem :
    (v : Vectors) (me destination : ℕ) (ns : List Router) (s : Scan)
    → SameCells s.vectors v
    → s.min_cost ≤ inf
    → Scanned v me destination ns s (scan me destination ns s)
unfolding scan
scan_lem v me destination [] s same h =
    unfold best_cost first_hop in record { cost = omega arith; hop = ground arith; same = same }
scan_lem v me destination (n ∷ ns) s same h = Scanned-cons v me destination n ns s _ same h (
    scan_lem v me destination ns (relax me destination n s)
      (λ x y. relax-SameCells me destination n s x y ∙ same x y)
      (relax-le v me destination n s same h))

row_lem :
    (v : Vectors) (me : ℕ) (routers : List Router) (d : Router) (t : Tables)
    → SameCells t.vectors v
    → SameCells (recompute_row me routers d t).vectors v
unfolding recompute_row
row_lem v me routers d t same x y =
    let s = scan_lem v me d.router_id routers (start_scan t.vectors) same (omega arith) in
    ground (arith, s.same x y, same x y)

row-lookup :
    (v : Vectors) (me : ℕ) (routers : List Router) (d : Router) (t : Tables) (k : ℕ)
    → SameCells t.vectors v
    → lookup k (recompute_row me routers d t).table ≡ (
        if not (is_self d.type) && d.router_id == k
        then some (best_route v me routers k)
        else lookup k t.table)
unfolding recompute_row best_route
row-lookup v me routers d t k same =
    let start = start_scan t.vectors in
    let end = scan me d.router_id routers start in
    let s = scan_lem v me d.router_id routers start same (omega arith) in
    ground (
      arith,
      s.cost,
      s.hop,
      best_cost-le v me d.router_id routers,
      lookup-insert k d.router_id (record { cost = end.min_cost; next_hop_id = end.min_next_hop })
          t.table,
    )

record Rows (v : Vectors) (me : ℕ) (routers ds : List Router) (t t' : Tables) : Type 0 where
  same : SameCells t'.vectors v
  table :
      (k : ℕ)
      → lookup k t'.table
        ≡ (if is_destination k ds then some (best_route v me routers k) else lookup k t.table)

rows_lem :
    (v : Vectors) (me : ℕ) (routers ds : List Router) (t : Tables)
    → SameCells t.vectors v
    → Rows v me routers ds t (recompute_rows me routers ds t)
unfolding recompute_rows
rows_lem v me routers [] t same = record { same = same; table = λ k. refl }
rows_lem v me routers (d ∷ ds) t same =
    let t' = recompute_row me routers d t in
    let rest = rows_lem v me routers ds t' (row_lem v me routers d t same) in
    record {
      same = rest.same;
      table = λ k. ground (arith, rest.table k, row-lookup v me routers d t k same);
    }

-- What a recomputation leaves behind, where the router's own id is `me`: no distance changes, every
-- other router in the list has its best route, and the other routes are as they were.
pub record Recomputed (me : ℕ) (st st' : Routing) : Type 0 where
  pub self : st'.self ≡ st.self
  pub rs : st'.rs ≡ st.rs
  pub update_counter : st'.update_counter ≡ st.update_counter
  pub vectors : SameCells st'.distance_vectors st.distance_vectors
  pub table :
      (k : ℕ)
      → lookup k st'.routing_table ≡ (
          if is_destination k st.rs.routers
          then some (best_route st.distance_vectors me st.rs.routers k)
          else lookup k st.routing_table)

recompute_with-Recomputed : (st : Routing) (me : ℕ) → Recomputed me st (recompute_with st me)
unfolding recompute_with
recompute_with-Recomputed st me =
    let rows =
      rows_lem st.distance_vectors me st.rs.routers st.rs.routers
        (record { vectors = st.distance_vectors; table = st.routing_table }) (λ x y. refl) in
    record {
      self = refl;
      rs = refl;
      update_counter = refl;
      vectors = rows.same;
      table = rows.table;
    }

-- Once `self` is set, `recompute_routing_table` does not fault, and its table solves the
-- Bellman-Ford equation over the distances: each router in the list that is not this one gets the
-- least cost over the neighbours, with the first neighbour that offers it.
pub recompute-Recomputed :
    (st : Routing) (me : Router)
    → get_self st ≡ some me
    → (st' : Routing) × (recompute_routing_table st ≡ some st') × Recomputed me.router_id st st'
unfolding recompute_routing_table
recompute-Recomputed st me e =
    (recompute_with st me.router_id, rw e, recompute_with-Recomputed st me.router_id)

-- The same from the result, whether `self` is set or not.
pub recompute-inversion :
    (st st' : Routing) → recompute_routing_table st ≡ some st' → (me : ℕ) × Recomputed me st st'
unfolding recompute_routing_table
recompute-inversion st st' e = elim (Option-cases (get_self st)) [
  | inr (me, h) ↦
      let same : st' ≡ recompute_with st me.router_id = ground arith in
      (me.router_id, rw same (recompute_with-Recomputed st me.router_id))
  | inl h ↦
      let same : st' ≡ recompute_with st 0 = ground arith in
      (0, rw same (recompute_with-Recomputed st 0))
]
