-- ===== src/Routing/Quiet/Tests.antt =====
-- Two routers that have told each other everything.
use mathlib.Core.Option.{some-injective}
use distance_vector_routing.Common.{
  ℕ, zero, suc, ◌≡◌, ◌≢◌, refl, sym, ◌∙◌, ◌⊎◌, inl, inr, ◌==◌, ◌<◌, ◌+◌, ◌^◌, if◌then◌else◌, List,
  [], ◌∷◌, true, some, get_elem?, arith, subst,
}
use distance_vector_routing.OrdMap.{lookup, at}
use distance_vector_routing.Routing.{
  neighbour, self_router, is_neighbour, Router, Route, Routing, get_self,
}
use distance_vector_routing.Routing.Vectors.{cell}
use distance_vector_routing.Routing.Recompute.{recompute_routing_table}
use distance_vector_routing.Routing.Recompute.Best.{best_route, candidate_cost, is_destination}
use distance_vector_routing.Routing.Recompute.Shortest.{recompute-Recomputed}
use distance_vector_routing.Routing.Quiet.{route_cost, link, IsLinked, IsShortest, IsQuiet}
use distance_vector_routing.Routing.Quiet.Shortest.{route_cost-lookup, route_cost-IsShortest}
use distance_vector_routing.Routing.Samples.{router}

abbrev view : List Router → ℕ → ℕ → Routing
view routers me other = record {
  self = some (if me == 1 then 0 else 1);
  rs = record { router_count = 2; update_interval = 2; routers = routers };
  update_counter = 0;
  routing_table =
      (1, record { cost = if me == 1 then 0 else 7; next_hop_id = 1 })
      ∷ (2, record { cost = if me == 1 then 7 else 0; next_hop_id = 2 })
      ∷ [];
  distance_vectors = (1, (1, 0) ∷ (2, 7) ∷ []) ∷ (2, (1, 7) ∷ (2, 0) ∷ []) ∷ [];
}

abbrev first_view : Routing
first_view = view (router 1 0 self_router ∷ router 2 7 neighbour ∷ []) 1 2

abbrev second_view : Routing
second_view = view (router 1 7 neighbour ∷ router 2 0 self_router ∷ []) 2 1

abbrev node : ℕ → Routing
node a = if a == 1 then first_view else second_view

abbrev IsNode : ℕ → Type 0
IsNode a = (a ≡ 1) ⊎ (a ≡ 2)

-- Each has the other for its only neighbour.
first_neighbour :
    (i : ℕ) (r : Router)
    → get_elem? first_view.rs.routers i ≡ some r
    → is_neighbour r.type ≡ true
    → r.router_id ≡ 2
first_neighbour zero r h near = ground (arith, h)
first_neighbour (suc zero) r h near = ground (arith, h)
first_neighbour (suc (suc i)) r h near = cc

second_neighbour :
    (i : ℕ) (r : Router)
    → get_elem? second_view.rs.routers i ≡ some r
    → is_neighbour r.type ≡ true
    → r.router_id ≡ 1
second_neighbour zero r h near = ground (arith, h)
second_neighbour (suc zero) r h near = ground (arith, h)
second_neighbour (suc (suc i)) r h near = cc

abbrev Across : ℕ → ℕ → Type 0
Across a n = ((a ≡ 1) × (n ≡ 2)) ⊎ ((a ≡ 2) × (n ≡ 1))

linked : (a n : ℕ) → IsNode a → IsLinked node a n → Across a n
linked a n (inl e) l =
    let l1 : IsLinked node 1 n = subst (λ a. IsLinked node a n) e l in
    inl (e, sym l1.id ∙ first_neighbour l1.index l1.router l1.listed l1.is_neighbour)
linked a n (inr e) l =
    let l2 : IsLinked node 2 n = subst (λ a. IsLinked node a n) e l in
    inr (e, sym l2.id ∙ second_neighbour l2.index l2.router l2.listed l2.is_neighbour)

told_costs :
    (a n d : ℕ) → Across a n → IsNode d → cell (node a).distance_vectors n d ≡ route_cost (node n) d
unfolding cell at
told_costs a n d (inl (e, f)) (inl g) = rw (e, f, g)
told_costs a n d (inl (e, f)) (inr g) = rw (e, f, g)
told_costs a n d (inr (e, f)) (inl g) = rw (e, f, g)
told_costs a n d (inr (e, f)) (inr g) = rw (e, f, g)

settled_route :
    (st : Routing) (me : Router) (d : ℕ) (r : Route)
    → get_self st ≡ some me
    → (if is_destination d st.rs.routers
        then some (best_route st.distance_vectors me.router_id st.rs.routers d)
        else lookup d st.routing_table)
      ≡ some r
    → (st' : Routing) → recompute_routing_table st ≡ some st'
    → route_cost st' d ≡ r.cost
settled_route st me d r is_me e st' run =
    let (st1, run1, solved) = recompute-Recomputed st me is_me in
    let same : st1 ≡ st' = some-injective _ _ (sym run1 ∙ run) in
    rw (← same) (route_cost-lookup st1 d r (solved.table d ∙ e))

settled_costs :
    (a d : ℕ) (st : Routing)
    → IsNode a
    → IsNode d
    → recompute_routing_table (node a) ≡ some st
    → route_cost st d ≡ route_cost (node a) d
unfolding at best_route candidate_cost cell lookup
settled_costs a d st (inl e) (inl g) run =
    rw (e, g)
      (settled_route first_view (router 1 0 self_router) 1 (record { cost = 0; next_hop_id = 1 })
        refl refl st (rw e at run))
settled_costs a d st (inl e) (inr g) run =
    rw (e, g)
      (settled_route first_view (router 1 0 self_router) 2 (record { cost = 7; next_hop_id = 2 })
        refl refl st (rw e at run))
settled_costs a d st (inr e) (inl g) run =
    rw (e, g)
      (settled_route second_view (router 2 0 self_router) 1 (record { cost = 7; next_hop_id = 1 })
        refl refl st (rw e at run))
settled_costs a d st (inr e) (inr g) run =
    rw (e, g)
      (settled_route second_view (router 2 0 self_router) 2 (record { cost = 0; next_hop_id = 2 })
        refl refl st (rw e at run))

links_cost : (a n : ℕ) → Across a n → 0 < link node a n
unfolding cell at
links_cost a n (inl (e, f)) = rw (e, f) (omega arith)
links_cost a n (inr (e, f)) = rw (e, f) (omega arith)

sums_fit : (a n d : ℕ) → Across a n → IsNode d → link node a n + route_cost (node n) d < 2 ^ 16
unfolding cell at
sums_fit a n d (inl (e, f)) (inl g) = rw (e, f, g) (omega arith)
sums_fit a n d (inl (e, f)) (inr g) = rw (e, f, g) (omega arith)
sums_fit a n d (inr (e, f)) (inl g) = rw (e, f, g) (omega arith)
sums_fit a n d (inr (e, f)) (inr g) = rw (e, f, g) (omega arith)

itself : (a : ℕ) → IsNode a → (me : Router) × (get_self (node a) ≡ some me) × (me.router_id ≡ a)
itself a (inl e) = rw e (router 1 0 self_router, refl, refl)
itself a (inr e) = rw e (router 2 0 self_router, refl, refl)

own_route : (a : ℕ) → IsNode a → route_cost (node a) a ≡ 0
unfolding at
own_route a (inl e) = rw e
own_route a (inr e) = rw e

knows : (a d : ℕ) → IsNode a → IsNode d → a ≢ d → is_destination d (node a).rs.routers ≡ true
knows a d (inl e) (inl g) other = absurd (other (e ∙ sym g))
knows a d (inl e) (inr g) other = rw (e, g)
knows a d (inr e) (inl g) other = rw (e, g)
knows a d (inr e) (inr g) other = absurd (other (e ∙ sym g))

stays_inside : (a n : ℕ) → Across a n → IsNode n
stays_inside a n (inl (e, f)) = inr f
stays_inside a n (inr (e, f)) = inl f

pair-IsQuiet : IsQuiet node IsNode
pair-IsQuiet = record {
  self = itself;
  own = own_route;
  others = knows;
  inside = λ a n is_a l. stays_inside a n (linked a n is_a l);
  told = λ a n d is_a is_d l. told_costs a n d (linked a n is_a l) is_d;
  settled = settled_costs;
  positive = λ a n is_a l. links_cost a n (linked a n is_a l);
  fits = λ a n d is_a is_d l finite. sums_fit a n d (linked a n is_a l) is_d;
}

route_cost-IsShortest_example : IsShortest node 2 1 (route_cost (node 1) 2)
route_cost-IsShortest_example =
    route_cost-IsShortest node IsNode pair-IsQuiet 1 2 (inl refl) (inr refl)
