-- ===== src/Routing/Timeout/Round.antt =====
-- One round of the loop of `mark_inactive`, and what it changes.
use distance_vector_routing.Common.{
  ◌+◌, ◌*◌, leb, not, ℕ, zero, suc, ◌≡◌, refl, ◌∙◌, sym, ap, subst, ◌&&◌, ◌||◌, Bool, true, false,
  List, [], ◌∷◌, some, inl, inr, arith, ◌==◌, if◌then◌else◌, Bool-cases, get_elem?, set,
}
use distance_vector_routing.OrdMap.{lookup}
use distance_vector_routing.Routing.{
  inf, inactive, is_inactive, is_neighbour, Timeval, Router, Routing, get_self,
}
use distance_vector_routing.Routing.Vectors.{Vectors, cell, set_cell, cell-set_cell}
use distance_vector_routing.Routing.Recompute.{recompute_routing_table}
use distance_vector_routing.Routing.Recompute.Best.{best_route, best_route-same, is_destination}
use distance_vector_routing.Routing.Recompute.Shortest.{Recomputed, recompute-Recomputed}
use distance_vector_routing.Routing.Shape.{self_at-set, best_route-set, is_destination-set}
use distance_vector_routing.Routing.Update.{with_routers}
use distance_vector_routing.Routing.Timeout.{has_expired, expired_router, expire, mark_at}

-- A neighbour that is not inactive, of which the last was heard three intervals before `now`, or
-- earlier.
abbrev pub is_late : Timeval → ℕ → Router → Bool
is_late now interval r =
    not (is_inactive r.status)
    && is_neighbour r.type
    && leb (r.last_update.tv_sec + 3 * interval) now.tv_sec

-- What becomes of a router at the time `now`.
unfoldable pub marked : Timeval → ℕ → Router → Router
marked now interval r =
    if is_late now interval r then record r { status = inactive; cost = inf } else r

abbrev pub any_expired : Timeval → ℕ → List Router → Bool
any_expired now interval [] = false
any_expired now interval (r ∷ rs) = is_late now interval r || any_expired now interval rs

-- Whether a router with this id has timed out.
abbrev pub is_timed_out : Timeval → ℕ → ℕ → List Router → Bool
is_timed_out now interval id [] = false
is_timed_out now interval id (r ∷ rs) =
    is_late now interval r && r.router_id == id || is_timed_out now interval id rs

-- The effect on all but the routers' own fields, of rounds of the loop over the routers `rs`. The
-- distance of the router `me` to each that has timed out is infinite; if there is any, the routes
-- solve the Bellman-Ford equation over the new distances.
pub record Marks (now : Timeval) (me : ℕ) (rs : List Router) (st st' : Routing) : Type 0 where
  pub self : (m : Router) × (get_self st' ≡ some m) × (m.router_id ≡ me)
  pub count : st'.rs.router_count ≡ st.rs.router_count
  pub interval : st'.rs.update_interval ≡ st.rs.update_interval
  pub counter : st'.update_counter ≡ st.update_counter
  pub shape :
      (v : Vectors) (k : ℕ) → best_route v me st'.rs.routers k ≡ best_route v me st.rs.routers k
  pub destinations : (k : ℕ) → is_destination k st'.rs.routers ≡ is_destination k st.rs.routers
  pub cells :
      (x y : ℕ)
      → cell st'.distance_vectors x y ≡ (
          if me == x && is_timed_out now st.rs.update_interval y rs
          then inf
          else cell st.distance_vectors x y)
  pub table :
      (k : ℕ)
      → lookup k st'.routing_table ≡ (
          if any_expired now st.rs.update_interval rs && is_destination k st.rs.routers
          then some (best_route st'.distance_vectors me st.rs.routers k)
          else lookup k st.routing_table)

set_self : {A : Type 0} (xs : List A) (i : ℕ) (x : A) → get_elem? xs i ≡ some x → set xs i x ≡ xs
set_self [] i x h = refl
set_self (a ∷ xs) zero x h = ground arith
set_self (a ∷ xs) (suc i) x h = ap (λ l. a ∷ l) (set_self xs i x h)

-- The state in which `expire` recomputes the routes.
abbrev expired_state : ℕ → ℕ → Router → Routing → Routing
expired_state me i r st = record (with_routers st (set st.rs.routers i (expired_router r))) {
  distance_vectors = set_cell st.distance_vectors me r.router_id inf;
}

Recomputed-Marks :
    (now : Timeval) (i : ℕ) (r m : Router) (me : ℕ) (st st' : Routing)
    → get_elem? st.rs.routers i ≡ some r
    → has_expired now st.rs.update_interval r ≡ true
    → get_self (expired_state me i r st) ≡ some m
    → m.router_id ≡ me
    → Recomputed me (expired_state me i r st) st'
    → Marks now me (r ∷ []) st st'
Recomputed-Marks now i r m me st st' h late e id rec =
    let r' = expired_router r in
    let routers = ap (λ x. x.routers) rec.rs in
    let shape : (v : Vectors) (k : ℕ)
        → best_route v me (set st.rs.routers i r') k ≡ best_route v me st.rs.routers k =
      λ v k. best_route-set i r r' refl refl v me k st.rs.routers h in
    let destinations : (k : ℕ)
        → is_destination k (set st.rs.routers i r') ≡ is_destination k st.rs.routers =
      λ k. is_destination-set i r r' k st.rs.routers refl refl h in
    record {
      self = (m, rw (rec.self, rec.rs) e, id);
      count = ap (λ x. x.router_count) rec.rs;
      interval = ap (λ x. x.update_interval) rec.rs;
      counter = rec.update_counter;
      shape = λ v k. rw routers (shape v k);
      destinations = λ k. rw routers (destinations k);
      cells = λ x y.
          rec.vectors x y ∙ cell-set_cell st.distance_vectors me r.router_id inf x y ∙ ground arith;
      table = λ k.
          rec.table k
          ∙ rw (
            destinations k,
            shape _ k,
            ← best_route-same st'.distance_vectors _ me k rec.vectors st.rs.routers,
            late,
          );
    }

expire-Marks :
    (now : Timeval) (i : ℕ) (r m : Router) (me : ℕ) (st : Routing)
    → get_elem? st.rs.routers i ≡ some r
    → has_expired now st.rs.update_interval r ≡ true
    → get_self st ≡ some m
    → m.router_id ≡ me
    → (st' : Routing) × (expire i r st ≡ some st')
      × Marks now me (r ∷ []) st st'
      × (st'.rs.routers ≡ set st.rs.routers i (expired_router r))
unfolding expire
expire-Marks now i r m me st h late e id =
    let (m', h', id') = self_at-set st.rs.routers st.self i r (expired_router r) m h refl e in
    let (st', run, rec) = recompute-Recomputed (expired_state me i r st) m' h' in
    (
      st',
      rw e (subst (λ x. recompute_routing_table (expired_state x i r st) ≡ some st') (sym id) run),
      Recomputed-Marks now i r m' me st st' h late h' (id' ∙ id) (rw (id' ∙ id) at rec),
      ap (λ x. x.routers) rec.rs,
    )

kept-Marks :
    (now : Timeval) (r m : Router) (me : ℕ) (st : Routing)
    → has_expired now st.rs.update_interval r ≡ false
    → get_self st ≡ some m
    → m.router_id ≡ me
    → Marks now me (r ∷ []) st st
kept-Marks now r m me st kept e id = record {
  self = (m, e, id);
  count = refl;
  interval = refl;
  counter = refl;
  shape = λ v k. refl;
  destinations = λ k. refl;
  cells = λ x y. ground arith;
  table = λ k. ground arith;
}

pub mark_at-Marks :
    (now : Timeval) (i : ℕ) (r m : Router) (me : ℕ) (st : Routing)
    → get_elem? st.rs.routers i ≡ some r
    → get_self st ≡ some m
    → m.router_id ≡ me
    → (st' : Routing) × (mark_at now i st ≡ some st')
      × Marks now me (r ∷ []) st st'
      × (st'.rs.routers ≡ set st.rs.routers i (marked now st.rs.update_interval r))
unfolding mark_at marked
mark_at-Marks now i r m me st h e id = elim (Bool-cases (has_expired now st.rs.update_interval r)) [
  | inl late ↦
      let (st', run, marks, routers) = expire-Marks now i r m me st h late e id in
      (st', rw (h, late) run, marks, rw late routers)
  | inr kept ↦ (
    st,
    rw (h, kept),
    kept-Marks now r m me st kept e id,
    rw kept (sym (set_self st.rs.routers i r h)),
  )
]
