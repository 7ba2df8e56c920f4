-- ===== src/Routing/Timeout/Expiry.antt =====
-- What `mark_inactive` changes: the neighbours that have timed out, the distances to them, and the
-- routes.
use mathlib.Core.List.{append_assoc}
use distance_vector_routing.Common.{
  ℕ, ◌+◌, ◌≡◌, refl, ◌∙◌, ap, ◌&&◌, false, List, [], ◌∷◌, ◌++◌, map, some, inl, inr, arith, ◌==◌,
  if◌then◌else◌, Bool-cases, get_elem?, set, length, length-append,
}
use distance_vector_routing.OrdMap.{lookup}
use distance_vector_routing.Routing.{inf, Timeval, Router, Routing, get_self}
use distance_vector_routing.Routing.Vectors.{cell}
use distance_vector_routing.Routing.Recompute.Best.{best_route, best_route-same, is_destination}
use distance_vector_routing.Routing.Timeout.{mark_from, mark_inactive}
use distance_vector_routing.Routing.Timeout.Round.{
  marked, any_expired, is_timed_out, Marks, mark_at-Marks,
}

none_timed_out :
    (now : Timeval) (n id : ℕ) (rs : List Router)
    → any_expired now n rs ≡ false
    → is_timed_out now n id rs ≡ false
none_timed_out now n id [] h = refl
none_timed_out now n id (r ∷ rs) h = ground (arith, none_timed_out now n id rs)

-- One round of the loop, and then the others.
module _ (now : Timeval) (me : ℕ) (r : Router) (rs : List Router) (st st1 st2 : Routing)
    (a : Marks now me (r ∷ []) st st1) (b : Marks now me rs st1 st2) where
  cells-cons :
      (x y : ℕ)
      → cell st2.distance_vectors x y ≡ (
          if me == x && is_timed_out now st.rs.update_interval y (r ∷ rs)
          then inf
          else cell st.distance_vectors x y)
  cells-cons x y = b.cells x y ∙ rw a.interval (ground (arith, a.cells x y))

  quiet_cells :
      any_expired now st.rs.update_interval rs ≡ false
      → (x y : ℕ) → cell st2.distance_vectors x y ≡ cell st1.distance_vectors x y
  quiet_cells h x y =
      b.cells x y ∙ rw a.interval (ground (arith, none_timed_out now st.rs.update_interval y rs h))

  table-cons :
      (k : ℕ)
      → lookup k st2.routing_table ≡ (
          if any_expired now st.rs.update_interval (r ∷ rs) && is_destination k st.rs.routers
          then some (best_route st2.distance_vectors me st.rs.routers k)
          else lookup k st.routing_table)
  table-cons k = elim (Bool-cases (any_expired now st.rs.update_interval rs)) [
    | inl late ↦
        b.table k
        ∙ rw (a.interval, late, a.destinations k, a.shape st2.distance_vectors k)
            (ground (arith, a.table k))
    | inr quiet ↦
        b.table k
        ∙ rw (a.interval, quiet)
            (a.table k
              ∙ rw
                  (best_route-same st2.distance_vectors st1.distance_vectors me k
                    (quiet_cells quiet) st.rs.routers)
                  (ground arith))
  ]

  Marks-cons : Marks now me (r ∷ rs) st st2
  Marks-cons = record {
    self = b.self;
    count = b.count ∙ a.count;
    interval = b.interval ∙ a.interval;
    counter = b.counter ∙ a.counter;
    shape = λ v k. b.shape v k ∙ a.shape v k;
    destinations = λ k. b.destinations k ∙ a.destinations k;
    cells = cells-cons;
    table = table-cons;
  }

get_elem?-middle :
    (front back : List Router) (r : Router)
    → get_elem? (front ++ (r ∷ back)) (length front) ≡ some r
get_elem?-middle [] back r = refl
get_elem?-middle (x ∷ front) back r = get_elem?-middle front back r

set-middle :
    (front back : List Router) (r r' : Router)
    → set (front ++ (r ∷ back)) (length front) r' ≡ (front ++ (r' ∷ [])) ++ back
set-middle [] back r r' = refl
set-middle (x ∷ front) back r r' = ap (λ l. x ∷ l) (set-middle front back r r')

mark_from-Marks :
    (now : Timeval) (me : ℕ) (front rs : List Router) (i : ℕ) (m : Router) (st : Routing)
    → st.rs.routers ≡ front ++ rs
    → length front ≡ i
    → get_self st ≡ some m
    → m.router_id ≡ me
    → (st' : Routing) × (mark_from now (length rs) i st ≡ some st')
      × Marks now me rs st st'
      × (st'.rs.routers ≡ front ++ map (marked now st.rs.update_interval) rs)
unfolding mark_from
mark_from-Marks now me front [] i m st split n e id = (
  st,
  refl,
  record {
    self = (m, e, id);
    count = refl;
    interval = refl;
    counter = refl;
    shape = λ v k. refl;
    destinations = λ k. refl;
    cells = λ x y. ground arith;
    table = λ k. refl;
  },
  split,
)
mark_from-Marks now me front (r ∷ rs) i m st split n e id =
    let r' = marked now st.rs.update_interval r in
    let at_i : get_elem? st.rs.routers i ≡ some r = rw (split, ← n) (get_elem?-middle front rs r) in
    let (st1, run1, a, routers1) = mark_at-Marks now i r m me st at_i e id in
    let (m1, e1, id1) = a.self in
    let split1 : st1.rs.routers ≡ (front ++ (r' ∷ [])) ++ rs =
      routers1 ∙ rw (split, ← n) (set-middle front rs r r') in
    let (st2, run2, b, routers2) =
      mark_from-Marks now me (front ++ (r' ∷ [])) rs (i + 1) m1 st1 split1
        (omega (arith, length-append front (r' ∷ []))) e1 id1 in
    (
      st2,
      rw run1 run2,
      Marks-cons now me r rs st st1 st2 a b,
      routers2
          ∙ append_assoc front (r' ∷ []) (map (marked now st1.rs.update_interval) rs)
          ∙ rw a.interval,
    )

-- Once `self` is set, `mark_inactive` does not fault; each neighbour that was not heard of for
-- three intervals becomes inactive at an infinite cost, and no other router changes; the distances
-- to the neighbours that timed out become infinite, and the table is solved again if there are any.
pub mark_inactive-Marks :
    (now : Timeval) (st : Routing) (me : Router)
    → get_self st ≡ some me
    → (st' : Routing) × (mark_inactive now st ≡ some st')
      × Marks now me.router_id st.rs.routers st st'
      × (st'.rs.routers ≡ map (marked now st.rs.update_interval) st.rs.routers)
unfolding mark_inactive
mark_inactive-Marks now st me e =
    mark_from-Marks now me.router_id [] st.rs.routers 0 me st refl refl e refl
