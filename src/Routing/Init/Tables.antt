-- ===== src/Routing/Init/Tables.antt =====
-- The distances that `parse_init` starts from.
use distance_vector_routing.Common.{
  ℕ, zero, suc, ◌≡◌, ◌≢◌, refl, ◌∙◌, ◌+◌, List, [], ◌∷◌, some, arith, ◌==◌, if◌then◌else◌,
  get_elem?, All,
}
use distance_vector_routing.OrdMap.{insert, lookup, lookup-insert}
use distance_vector_routing.Routing.{inf, Router, Route}
use distance_vector_routing.Routing.Vectors.{Vectors, cell, set_cell, cell-set_cell}
use distance_vector_routing.Routing.Init.{
  InitTables, init_row, init_rows, init_links, first_cost, first_route,
}

-- No router of the list has this id.
abbrev pub Missing : ℕ → List Router → Type 0
Missing y rs = All (λ (r : Router). r.router_id ≢ y) rs

-- No two routers of the list have the same id.
abbrev pub Distinct : List Router → Type 0
Distinct [] = Unit
Distinct (r ∷ rs) = Missing r.router_id rs × Distinct rs

init_row-Missing :
    (i from j : ℕ) (rs : List Router) (v : Vectors) (x y : ℕ)
    → Missing y rs
    → cell (init_row i from j rs v) x y ≡ cell v x y
unfolding init_row
init_row-Missing i from j [] v x y h = refl
init_row-Missing i from j (r ∷ rs) v x y h =
    let c = if i == j then 0 else inf in
    ground (
      arith,
      init_row-Missing i from (j + 1) rs (set_cell v from r.router_id c) x y h.1,
      cell-set_cell v from r.router_id c x y,
    )

init_row-other :
    (i from j : ℕ) (rs : List Router) (v : Vectors) (x y : ℕ)
    → from ≢ x
    → cell (init_row i from j rs v) x y ≡ cell v x y
unfolding init_row
init_row-other i from j [] v x y h = refl
init_row-other i from j (r ∷ rs) v x y h =
    let c = if i == j then 0 else inf in
    ground (
      arith,
      init_row-other i from (j + 1) rs (set_cell v from r.router_id c) x y h,
      cell-set_cell v from r.router_id c x y,
    )

init_row-cell :
    (i from j : ℕ) (rs : List Router) (v : Vectors) (k : ℕ) (r : Router)
    → Distinct rs
    → get_elem? rs k ≡ some r
    → cell (init_row i from j rs v) from r.router_id ≡ (if i == j + k then 0 else inf)
unfolding init_row
init_row-cell i from j [] v k r apart h = cc
init_row-cell i from j (q ∷ rs) v zero r apart h =
    let c = if i == j then 0 else inf in
    let same : q ≡ r = cc in
    rw (← same) (
      ground (
        arith,
        init_row-Missing i from (j + 1) rs (set_cell v from q.router_id c) from q.router_id apart.0,
        cell-set_cell v from q.router_id c from q.router_id,
      ))
init_row-cell i from j (q ∷ rs) v (suc k) r apart h =
    let c = if i == j then 0 else inf in
    let e : j + 1 + k ≡ j + suc k = omega arith in
    rw (← e) (init_row-cell i from (j + 1) rs (set_cell v from q.router_id c) k r apart.1 h)

init_rows-Missing :
    (routers : List Router) (i : ℕ) (rs : List Router) (v : Vectors) (x y : ℕ)
    → Missing x rs
    → cell (init_rows routers i rs v) x y ≡ cell v x y
unfolding init_rows
init_rows-Missing routers i [] v x y h = refl
init_rows-Missing routers i (r ∷ rs) v x y h =
    init_rows-Missing routers (i + 1) rs (init_row i r.router_id 0 routers v) x y h.1
    ∙ init_row-other i r.router_id 0 routers v x y h.0

-- 0 on the diagonal, and infinity elsewhere.
pub init_rows-cell :
    (routers : List Router) (i : ℕ) (rs : List Router) (v : Vectors) (k m : ℕ) (r d : Router)
    → Distinct routers
    → Distinct rs
    → get_elem? rs k ≡ some r
    → get_elem? routers m ≡ some d
    → cell (init_rows routers i rs v) r.router_id d.router_id ≡ (if i + k == m then 0 else inf)
unfolding init_rows
init_rows-cell routers i [] v k m r d all apart h at_m = cc
init_rows-cell routers i (q ∷ rs) v zero m r d all apart h at_m =
    let same : q ≡ r = cc in
    rw (← same) (
      init_rows-Missing routers (i + 1) rs (init_row i q.router_id 0 routers v) q.router_id
        d.router_id apart.0
      ∙ init_row-cell i q.router_id 0 routers v m d all at_m
      ∙ ground arith)
init_rows-cell routers i (q ∷ rs) v (suc k) m r d all apart h at_m =
    let e : i + 1 + k ≡ i + suc k = omega arith in
    rw (← e) (
      init_rows-cell routers (i + 1) rs (init_row i q.router_id 0 routers v) k m r d all apart.1 h
        at_m)

-- The links of this router are written into its own row alone.
pub init_links-other :
    (me : ℕ) (rs : List Router) (t : InitTables) (x y : ℕ)
    → me ≢ x
    → cell (init_links me rs t).vectors x y ≡ cell t.vectors x y
unfolding init_links
init_links-other me [] t x y h = refl
init_links-other me (r ∷ rs) t x y h = ground (
  arith,
  init_links-other me rs
      (record {
        vectors = set_cell t.vectors me r.router_id (first_cost r.type r.cost);
        table = insert r.router_id (first_route r.type me r.cost) t.table;
      })
      x y h,
  cell-set_cell t.vectors me r.router_id (first_cost r.type r.cost) x y,
)

pub record Linked (me y c : ℕ) (r : Route) (t : InitTables) : Type 0 where
  pub cost : cell t.vectors me y ≡ c
  pub route : lookup y t.table ≡ some r

init_links-Missing :
    (me : ℕ) (rs : List Router) (t : InitTables) (y c : ℕ) (r : Route)
    → Missing y rs
    → Linked me y c r t
    → Linked me y c r (init_links me rs t)
unfolding init_links
init_links-Missing me [] t y c r h l = l
init_links-Missing me (q ∷ rs) t y c r h l = init_links-Missing me rs _ y c r h.1 (record {
  cost =
      ground
        (arith, l.cost, cell-set_cell t.vectors me q.router_id (first_cost q.type q.cost) me y);
  route =
      ground (arith, l.route, lookup-insert y q.router_id (first_route q.type me q.cost) t.table);
})

-- Each router gets the distance and the route that its type calls for.
pub init_links-Linked :
    (me : ℕ) (rs : List Router) (t : InitTables) (k : ℕ) (r : Router)
    → Distinct rs
    → get_elem? rs k ≡ some r
    → Linked me r.router_id
        (first_cost r.type r.cost)
        (first_route r.type me r.cost)
        (init_links me rs t)
unfolding init_links
init_links-Linked me [] t k r apart h = cc
init_links-Linked me (q ∷ rs) t zero r apart h =
    let same : q ≡ r = cc in
    rw (← same) (
      init_links-Missing me rs _ q.router_id (first_cost q.type q.cost)
        (first_route q.type me q.cost) apart.0
        (record {
          cost = ground (
            arith,
            cell-set_cell t.vectors me q.router_id (first_cost q.type q.cost) me q.router_id,
          );
          route =
              ground (
                arith,
                lookup-insert q.router_id q.router_id (first_route q.type me q.cost) t.table,
              );
        }))
init_links-Linked me (q ∷ rs) t (suc k) r apart h = init_links-Linked me rs _ k r apart.1 h
