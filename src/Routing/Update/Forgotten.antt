-- ===== src/Routing/Update/Forgotten.antt =====
-- A router that a neighbour's update does not name.
use distance_vector_routing.Common.{
  ℕ, ◌≤◌, ◌<◌, ◌≡◌, refl, ◌∙◌, ◌≢◌, Bool, true, false, List, [], ◌∷◌, some, arith, ◌==◌, get_elem?,
  ◌||◌,
}
use distance_vector_routing.OrdMap.{lookup}
use distance_vector_routing.Routing.{
  inf, neighbour, is_inactive, Timeval, Router, Route, Routing, get_self,
}
use distance_vector_routing.Routing.Vectors.{Vectors, cell}
use distance_vector_routing.Routing.Recompute.Best.{
  candidate_cost, best_cost, best_route, best_cost-le_candidate, is_destination,
}
use distance_vector_routing.Routing.Update.{
  UpdateHeader, UpdateEntry, find_by_port_ip, process_update,
}
use distance_vector_routing.Routing.Update.Process.{
  last_cost, find_by_port_ip-some, process_update-Accepted,
}

abbrev pub names : ℕ → List UpdateEntry → Bool
names id [] = false
names id (u ∷ us) = u.id == id || names id us

last_cost-unnamed : (id d : ℕ) (us : List UpdateEntry) → names id us ≡ false → last_cost id us d ≡ d
unfolding last_cost
last_cost-unnamed id d [] h = refl
last_cost-unnamed id d (u ∷ us) h = ground (arith, last_cost-unnamed id d us)

-- Where the link to a neighbour is finite and the way on from it costs nothing, no best route is
-- longer than the link.
best_cost-le_link :
    (v : Vectors) (me k : ℕ) (rs : List Router) (j : ℕ) (n : Router)
    → get_elem? rs j ≡ some n
    → n.type ≡ neighbour
    → cell v me n.router_id < inf
    → cell v n.router_id k ≡ 0
    → best_cost v me k rs ≤ cell v me n.router_id
best_cost-le_link v me k rs j n h type link free =
    let through : candidate_cost v me k n ≡ cell v me n.router_id =
      unfold candidate_cost in rw (type, free) (ground arith) in
    rw through at (best_cost-le_candidate v me k rs j n h)

-- After an update that is accepted from a neighbour with a finite link, a router that the update does
-- not name has a route at no more than the cost of that link, whether anybody can reach it or not.
pub process_update-unnamed :
    (now : Timeval) (header : UpdateHeader) (us : List UpdateEntry) (st : Routing)
    → (i : ℕ) (src me : Router) (k : ℕ)
    → find_by_port_ip header.src_port header.src_ip_addr st.rs.routers ≡ some (i, src)
    → is_inactive src.status ≡ false
    → get_self st ≡ some me
    → src.type ≡ neighbour
    → src.router_id ≢ me.router_id
    → cell st.distance_vectors me.router_id src.router_id < inf
    → names k us ≡ false
    → is_destination k st.rs.routers ≡ true
    → (st' : Routing) × (r : Route) × (process_update now header us st ≡ some st')
      × (lookup k st'.routing_table ≡ some r)
      × (r.cost ≤ cell st.distance_vectors me.router_id src.router_id)
process_update-unnamed now header us st i src me k found live e type other link unnamed dest =
    let (st', run, a) = process_update-Accepted now header us st i src me found live e in
    let v = st'.distance_vectors in
    let link' : cell v me.router_id src.router_id
        ≡ cell st.distance_vectors me.router_id src.router_id =
      a.cells me.router_id src.router_id ∙ ground arith in
    let free : cell v src.router_id k ≡ 0 =
      a.cells src.router_id k ∙ ground (arith, last_cost-unnamed k 0 us unnamed) in
    let at_i =
      (find_by_port_ip-some header.src_port header.src_ip_addr st.rs.routers i src found).0 in
    (
      st',
      best_route v me.router_id st.rs.routers k,
      run,
      a.table k ∙ rw dest,
      unfold best_route in
          rw link' at
            (best_cost-le_link v me.router_id k st.rs.routers i src at_i type (rw link' link) free),
    )
