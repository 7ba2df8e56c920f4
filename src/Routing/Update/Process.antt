-- ===== src/Routing/Update/Process.antt =====
-- What `process_update` changes: the sender's row of distances, its status and the routes.
use distance_vector_routing.Common.{
  ℕ, true, zero, suc, ◌≡◌, none, inl, inr, ◌⊎◌, refl, ◌∙◌, false, List, [], ◌∷◌, some, arith, ◌==◌,
  if◌then◌else◌, get_elem?, set, Bool-cases,
}
use distance_vector_routing.OrdMap.{lookup}
use distance_vector_routing.Routing.{
  RouterStatus, initialized, active, inactive, is_inactive, Timeval, Router, Routing, get_self,
}
use distance_vector_routing.Routing.Vectors.{
  Vectors, cell, set_cell, clear_row, cell-set_cell, cell-clear_row,
}
use distance_vector_routing.Routing.Recompute.Best.{best_route, best_route-same, is_destination}
use distance_vector_routing.Routing.Recompute.Shortest.{Recomputed, recompute-Recomputed}
use distance_vector_routing.Routing.Shape.{self_at-set, best_route-set, is_destination-set}
use distance_vector_routing.Routing.Update.{
  UpdateHeader, UpdateEntry, find_by_port_ip, store_updates, accept_update, process_update,
  with_routers, activate,
}

-- The cost that a list of entries leaves for the router `id`: the last entry for it counts, and `d`
-- if there is none.
unfoldable pub last_cost : ℕ → List UpdateEntry → ℕ → ℕ
last_cost id [] d = d
last_cost id (u ∷ us) d = last_cost id us (if u.id == id then u.cost else d)

store_updates_lem :
    (src : ℕ) (us : List UpdateEntry) (v : Vectors) (x y : ℕ)
    → cell (store_updates src us v) x y
      ≡ (if src == x then last_cost y us (cell v x y) else cell v x y)
unfolding store_updates last_cost
store_updates_lem src [] v x y = ground arith
store_updates_lem src (u ∷ us) v x y = ground (
  arith,
  store_updates_lem src us (set_cell v src u.id u.cost) x y,
  cell-set_cell v src u.id u.cost x y,
)

-- The distances after an accepted update: the sender's row is the entries alone, 0 where none of
-- them names the router; the other rows stay.
abbrev pub updated_cell : ℕ → List UpdateEntry → Vectors → ℕ → ℕ → ℕ
updated_cell src us v x y = if src == x then last_cost y us 0 else cell v x y

accept_update-cells :
    (now : Timeval) (i : ℕ) (src : Router) (us : List UpdateEntry) (st : Routing) (x y : ℕ)
    → cell (accept_update now i src us st).distance_vectors x y
      ≡ updated_cell src.router_id us st.distance_vectors x y
unfolding accept_update
accept_update-cells now i src us st x y =
    let cleared = clear_row st.distance_vectors src.router_id in
    elim (Bool-cases (src.router_id == x)) [
      | inl e ↦ store_updates_lem src.router_id us cleared x y ∙ rw (cell-clear_row, e)
      | inr e ↦ store_updates_lem src.router_id us cleared x y ∙ rw (cell-clear_row, e)
    ]

pub find_by_port_ip-some :
    (port ip : ℕ) (rs : List Router) (i : ℕ) (r : Router)
    → find_by_port_ip port ip rs ≡ some (i, r)
    → (get_elem? rs i ≡ some r) × (r.router_port ≡ port) × (r.ip ≡ ip)
unfolding find_by_port_ip
find_by_port_ip-some port ip [] i r h = cc
find_by_port_ip-some port ip (a ∷ rs) zero r h = ground arith
find_by_port_ip-some port ip (a ∷ rs) (suc i) r h =
    ground (arith, find_by_port_ip-some port ip rs i r)

-- An update that is accepted: the sender becomes active and is stamped with the time, its row of
-- distances holds the entries, and the table solves the Bellman-Ford equation over these distances.
pub record Accepted (now : Timeval) (i : ℕ) (src me : Router) (us : List UpdateEntry)
    (st st' : Routing) : Type 0 where
  pub live : is_inactive src.status ≡ false
  pub self : st'.self ≡ st.self
  pub routers :
      st'.rs
      ≡ (with_routers st
          (set st.rs.routers i (record src { status = active; last_update = now }))).rs
  pub cells :
      (x y : ℕ)
      → cell st'.distance_vectors x y ≡ updated_cell src.router_id us st.distance_vectors x y
  pub table :
      (k : ℕ)
      → lookup k st'.routing_table ≡ (
          if is_destination k st.rs.routers
          then some (best_route st'.distance_vectors me.router_id st.rs.routers k)
          else lookup k st.routing_table)

activate_live : (s : RouterStatus) → is_inactive s ≡ false → activate s ≡ active
activate_live initialized live = refl
activate_live active live = refl
activate_live inactive live = ground (arith, live)

Recomputed-Accepted :
    (now : Timeval) (i : ℕ) (src me me' : Router) (us : List UpdateEntry) (st st' : Routing)
    → is_inactive src.status ≡ false
    → get_elem? st.rs.routers i ≡ some src
    → me'.router_id ≡ me.router_id
    → Recomputed me'.router_id (accept_update now i src us st) st'
    → Accepted now i src me us st st'
Recomputed-Accepted now i src me me' us st st' live at_i id r =
    let heard = record src { status = activate src.status; last_update = now } in
    let v = (accept_update now i src us st).distance_vectors in
    let routers : (accept_update now i src us st).rs.routers ≡ set st.rs.routers i heard =
      unfold accept_update in refl in
    let dest = λ (k : ℕ). is_destination-set i src heard k st.rs.routers refl refl at_i in
    let shape =
      λ (k : ℕ). best_route-set i src heard refl refl v me.router_id k st.rs.routers at_i in
    let same =
      λ (k : ℕ). best_route-same st'.distance_vectors v me.router_id k r.vectors st.rs.routers in
    let old : (accept_update now i src us st).routing_table ≡ st.routing_table =
      unfold accept_update in refl in
    record {
      live = live;
      self = r.self ∙ unfold accept_update in refl;
      routers = r.rs ∙ unfold accept_update in rw (activate_live src.status live) refl;
      cells = λ x y. r.vectors x y ∙ accept_update-cells now i src us st x y;
      table = λ k. r.table k ∙ rw (routers, id, old, dest k, shape k, ← same k);
    }

-- Once `self` is set, an update from a router in the list that is not inactive is accepted: the
-- sender becomes active and is stamped with the time, its row of distances holds the entries alone,
-- and the table is solved again.
pub process_update-Accepted :
    (now : Timeval) (header : UpdateHeader) (us : List UpdateEntry) (st : Routing)
    → (i : ℕ) (src me : Router)
    → find_by_port_ip header.src_port header.src_ip_addr st.rs.routers ≡ some (i, src)
    → is_inactive src.status ≡ false
    → get_self st ≡ some me
    → (st' : Routing) × (process_update now header us st ≡ some st')
      × Accepted now i src me us st st'
unfolding process_update
process_update-Accepted now header us st i src me found live h =
    let heard = record src { status = activate src.status; last_update = now } in
    let at_i = (find_by_port_ip-some _ _ st.rs.routers i src found).0 in
    let (me', h', id) = self_at-set st.rs.routers st.self i src heard me at_i refl h in
    let (st', run, r) =
      recompute-Recomputed (accept_update now i src us st) me' (unfold accept_update in h') in
    (st', rw (found, live) run, Recomputed-Accepted now i src me me' us st st' live at_i id r)

-- A sender that is not in the list, and one that has timed out, change nothing: an inactive router
-- stays inactive whatever it sends.
pub process_update-ignored :
    (now : Timeval) (header : UpdateHeader) (us : List UpdateEntry) (st : Routing)
    → (find_by_port_ip header.src_port header.src_ip_addr st.rs.routers ≡ none)
      ⊎ ((i : ℕ) × (src : Router) × (find_by_port_ip header.src_port header.src_ip_addr
              st.rs.routers
            ≡ some (i, src))
          × (is_inactive src.status ≡ true))
    → process_update now header us st ≡ some st
unfolding process_update
process_update-ignored now header us st (inl missing) = rw missing
process_update-ignored now header us st (inr (i, src, found, gone)) = rw (found, gone)
