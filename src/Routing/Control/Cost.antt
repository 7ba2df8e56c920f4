-- ===== src/Routing/Control/Cost.antt =====
-- What the controller's request to change the cost of a link does.
use distance_vector_routing.Common.{
  ℕ, ◌≤◌, ◌≡◌, refl, ◌∙◌, ◌&&◌, List, none, some, inl, inr, ◌==◌, if◌then◌else◌, Option-cases,
  >>=-eq-some, length, get_elem?, set, get_elem?-none,
}
use distance_vector_routing.OrdMap.{lookup}
use distance_vector_routing.Bytes.{ntohui16}
use distance_vector_routing.Routing.{Router, Routing, get_self}
use distance_vector_routing.Routing.Vectors.{cell, set_cell, cell-set_cell}
use distance_vector_routing.Routing.Recompute.Best.{best_route, best_route-same, is_destination}
use distance_vector_routing.Routing.Recompute.Shortest.{Recomputed, recompute-Recomputed}
use distance_vector_routing.Routing.Shape.{self_at-set, best_route-set, is_destination-set}
use distance_vector_routing.Routing.Update.{with_routers}
use distance_vector_routing.Routing.Control.{update, create_response_header, update_cost}

-- The routes after the distance from `me` to the router `id` was set to `c`: they solve the
-- Bellman-Ford equation over distances of which only this one changed.
pub record Costed (me id c : ℕ) (r : Router) (st st' : Routing) : Type 0 where
  pub self : st'.self ≡ st.self
  pub rs : st'.rs ≡ (with_routers st (set st.rs.routers id (record r { cost = c }))).rs
  pub cells :
      (x y : ℕ)
      → cell st'.distance_vectors x y
        ≡ (if me == x && id == y then c else cell st.distance_vectors x y)
  pub table :
      (k : ℕ)
      → lookup k st'.routing_table ≡ (
          if is_destination k st.rs.routers
          then some (best_route st'.distance_vectors me st.rs.routers k)
          else lookup k st.routing_table)

abbrev costed_state : ℕ → ℕ → ℕ → Router → Routing → Routing
costed_state me id c r st =
    record (with_routers st (set st.rs.routers id (record r { cost = c }))) {
      distance_vectors = set_cell st.distance_vectors me id c;
    }

Recomputed-Costed :
    (me m id c : ℕ) (r : Router) (st st' : Routing)
    → get_elem? st.rs.routers id ≡ some r
    → m ≡ me
    → Recomputed m (costed_state me id c r st) st'
    → Costed me id c r st st'
Recomputed-Costed me m id c r st st' h same rec =
    let r' = record r { cost = c } in
    record {
      self = rec.self;
      rs = rec.rs;
      cells = λ x y. rec.vectors x y ∙ cell-set_cell st.distance_vectors me id c x y;
      table = λ k.
          rec.table k
          ∙ rw (
            is_destination-set id r r' k st.rs.routers refl refl h,
            same,
            best_route-set id r r' refl refl (set_cell st.distance_vectors me id c) me k
                st.rs.routers h,
            ← best_route-same st'.distance_vectors _ me k rec.vectors st.rs.routers,
          );
    }

-- A request that names the router by an id `id` for which the vector of routers has an element: the
-- distance to the router with that id becomes the new cost and the routes are solved again, but the
-- cost field that is written belongs to the element at the index `id`.
pub update_cost-Costed :
    (peer : ℕ) (payload : List ℕ) (st : Routing) (id o1 c o2 : ℕ) (r me : Router)
    → ntohui16 payload 0 ≡ some (id, o1)
    → ntohui16 payload o1 ≡ some (c, o2)
    → get_elem? st.rs.routers id ≡ some r
    → get_self st ≡ some me
    → (st' : Routing) × (update_cost peer payload st
        ≡ some (st', create_response_header peer update 0 0))
      × Costed me.router_id id c r st st'
unfolding update_cost
update_cost-Costed peer payload st id o1 c o2 r me e1 e2 h e =
    let (m, h', same) =
      self_at-set st.rs.routers st.self id r (record r { cost = c }) me h refl e in
    let (st', run, rec) = recompute-Recomputed (costed_state me.router_id id c r st) m h' in
    (
      st',
      rw (e1, e2, h, e, run),
      Recomputed-Costed me.router_id m.router_id id c r st st' h same rec,
    )

-- A request with an id that is no index into the vector of routers faults, whatever the cost; so
-- does one for the last of routers that are numbered from 1.
pub update_cost-fault :
    (peer : ℕ) (payload : List ℕ) (st : Routing) (id o1 : ℕ)
    → ntohui16 payload 0 ≡ some (id, o1)
    → length st.rs.routers ≤ id
    → update_cost peer payload st ≡ none
unfolding update_cost
update_cost-fault peer payload st id o1 e out = elim (Option-cases (ntohui16 payload o1)) [
  | inl short ↦ rw (e, short)
  | inr (p, read) ↦ rw (e, read, get_elem?-none st.rs.routers id out)
]

-- A request that succeeds names an element of the vector.
pub update_cost-parsed :
    (peer : ℕ) (payload reply : List ℕ) (st st' : Routing)
    → update_cost peer payload st ≡ some (st', reply)
    → (p : ℕ × ℕ × ℕ × ℕ × Router) × (ntohui16 payload 0 ≡ some (p.0, p.1))
      × (ntohui16 payload p.1 ≡ some (p.2, p.3))
      × (get_elem? st.rs.routers p.0 ≡ some p.4)
unfolding update_cost
update_cost-parsed peer payload reply st st' e =
    let ((id, o1), e1, f1) = >>=-eq-some (ntohui16 payload 0) _ e in
    let ((c, o2), e2, f2) = >>=-eq-some (ntohui16 payload o1) _ f1 in
    let (r, e3, f3) = >>=-eq-some (get_elem? st.rs.routers id) _ f2 in
    ((id, o1, c, o2, r), e1, e2, e3)
