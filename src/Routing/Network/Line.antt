-- ===== src/Routing/Network/Line.antt =====
-- A line of three routers that were just set up: router 2 has links to the two others.
use Prim.Native.String.{String}
use distance_vector_routing.Common.{
  pos, ℕ, zero, suc, ◌≡◌, ◌≢◌, refl, sym, subst, ◌∙◌, ◌⊎◌, inl, inr, ◌==◌, not, ◌+◌, if◌then◌else◌,
  [], ◌∷◌, true, false, some, get_elem?, arith, All,
}
use mathlib.Core.Option.{some-injective}
use distance_vector_routing.OrdMap.{OrdMap}
use distance_vector_routing.Routing.{
  inf, neighbour, self_router, non_neighbour, is_neighbour, is_inactive, initialized, Router,
  RouterType, Route, Routing, get_self,
}
use distance_vector_routing.Routing.Recompute.Best.{is_destination}
use distance_vector_routing.Routing.Update.{find_by_port_ip}
use distance_vector_routing.Routing.Quiet.{IsLinked}
use distance_vector_routing.Routing.Samples.{at_second}
use distance_vector_routing.Routing.Network.{Network}
use distance_vector_routing.Routing.Network.Known.{FitsFields, IsNetwork}

abbrev pub cost_at : ℕ → ℕ → ℕ
cost_at a d = if a == d then 0 else if a + d == 3 then 7 else if a + d == 5 then 2 else inf

abbrev pub type_at : ℕ → ℕ → RouterType
type_at a d = if a == d then self_router else if a + d == 4 then non_neighbour else neighbour

abbrev pub ip_of : ℕ → ℕ
ip_of d = 167772160 + d

abbrev pub text_of : ℕ → String
text_of ip =
    if ip == 167772161 then "10.0.0.1" else if ip == 167772162 then "10.0.0.2" else "10.0.0.3"

abbrev pub seen : ℕ → ℕ → Router
seen a d = record {
  router_id = d;
  router_port = 4000 + d;
  data_port = 5000 + d;
  cost = cost_at a d;
  ip = ip_of d;
  ip_str = text_of (ip_of d);
  type = type_at a d;
  status = initialized;
  last_update = if is_neighbour (type_at a d) then at_second 100 else at_second 0;
  data_socket_fd = pos 0;
}

abbrev pub first_cell : ℕ → ℕ → ℕ → ℕ
first_cell a n d = if a == n then cost_at a d else if n == d then 0 else inf

abbrev pub first_row : ℕ → ℕ → OrdMap ℕ
first_row a n = (1, first_cell a n 1) ∷ (2, first_cell a n 2) ∷ (3, first_cell a n 3) ∷ []

abbrev pub route_to : ℕ → ℕ → Route
route_to a d = record {
  cost = cost_at a d;
  next_hop_id = if a + d == 4 then (if a == 2 then 2 else inf) else d;
}

-- The router `a`, which stands at `i` of its own list.
abbrev pub set_up : ℕ → ℕ → Routing
set_up i a = record {
  self = some i;
  rs = record {
    router_count = 3;
    update_interval = 2;
    routers = seen a 1 ∷ seen a 2 ∷ seen a 3 ∷ [];
  };
  update_counter = 0;
  routing_table = (1, route_to a 1) ∷ (2, route_to a 2) ∷ (3, route_to a 3) ∷ [];
  distance_vectors = (1, first_row a 1) ∷ (2, first_row a 2) ∷ (3, first_row a 3) ∷ [];
}

abbrev pub line : Network
line a = if a == 1 then set_up 0 1 else if a == 2 then set_up 1 2 else set_up 2 3

abbrev pub IsNode : ℕ → Type 0
IsNode a = (a ≡ 1) ⊎ (a ≡ 2) ⊎ (a ≡ 3)

pub all_nodes : (P : ℕ → Type 0) → P 1 → P 2 → P 3 → (a : ℕ) → IsNode a → P a
all_nodes P p q r a (inl e) = subst P (sym e) p
all_nodes P p q r a (inr (inl e)) = subst P (sym e) q
all_nodes P p q r a (inr (inr e)) = subst P (sym e) r

pub one : IsNode 1
one = inl refl

pub two : IsNode 2
two = inr (inl refl)

pub three : IsNode 3
three = inr (inr refl)

-- The ends are linked to the middle, which is linked to both.
abbrev pub Adjacent : ℕ → ℕ → Type 0
Adjacent a n = ((a ≡ 1) × (n ≡ 2)) ⊎ ((a ≡ 3) × (n ≡ 2)) ⊎ ((a ≡ 2) × (n ≡ 1)) ⊎ ((a ≡ 2) × (n ≡ 3))

pub all_links :
    (P : ℕ → ℕ → Type 0) → P 1 2 → P 3 2 → P 2 1 → P 2 3 → (a n : ℕ) → Adjacent a n → P a n
all_links P p q r s a n (inl (e, f)) = rw (e, f) p
all_links P p q r s a n (inr (inl (e, f))) = rw (e, f) q
all_links P p q r s a n (inr (inr (inl (e, f)))) = rw (e, f) r
all_links P p q r s a n (inr (inr (inr (e, f)))) = rw (e, f) s

first_links :
    (i : ℕ) (r : Router)
    → get_elem? (line 1).rs.routers i ≡ some r
    → is_neighbour r.type ≡ true
    → Adjacent 1 r.router_id
first_links zero r h near = ground (arith, h)
first_links (suc zero) r h near = inl (refl, ground (arith, h))
first_links (suc (suc zero)) r h near = ground (arith, h)
first_links (suc (suc (suc i))) r h near = cc

second_links :
    (i : ℕ) (r : Router)
    → get_elem? (line 2).rs.routers i ≡ some r
    → is_neighbour r.type ≡ true
    → Adjacent 2 r.router_id
second_links zero r h near = inr (inr (inl (refl, ground (arith, h))))
second_links (suc zero) r h near = ground (arith, h)
second_links (suc (suc zero)) r h near = inr (inr (inr (refl, ground (arith, h))))
second_links (suc (suc (suc i))) r h near = cc

third_links :
    (i : ℕ) (r : Router)
    → get_elem? (line 3).rs.routers i ≡ some r
    → is_neighbour r.type ≡ true
    → Adjacent 3 r.router_id
third_links zero r h near = ground (arith, h)
third_links (suc zero) r h near = inr (inl (refl, ground (arith, h)))
third_links (suc (suc zero)) r h near = ground (arith, h)
third_links (suc (suc (suc i))) r h near = cc

pub linked : (a n : ℕ) → IsNode a → IsLinked line a n → Adjacent a n
linked a n is_a =
    all_nodes (λ a. IsLinked line a n → Adjacent a n)
      (λ l. subst (Adjacent 1) l.id (first_links l.index l.router l.listed l.is_neighbour))
      (λ l. subst (Adjacent 2) l.id (second_links l.index l.router l.listed l.is_neighbour))
      (λ l. subst (Adjacent 3) l.id (third_links l.index l.router l.listed l.is_neighbour)) a is_a

seen-FitsFields : (a d : ℕ) → IsNode d → FitsFields (seen a d)
seen-FitsFields a d is_d =
    all_nodes (λ d. FitsFields (seen a d))
      (record { ip_fits = omega arith; port_fits = omega arith; id_fits = omega arith })
      (record { ip_fits = omega arith; port_fits = omega arith; id_fits = omega arith })
      (record { ip_fits = omega arith; port_fits = omega arith; id_fits = omega arith }) d is_d

seen-fields :
    (a : ℕ) → All (λ r. FitsFields r × IsNode r.router_id) (seen a 1 ∷ seen a 2 ∷ seen a 3 ∷ [])
seen-fields a = (
  (seen-FitsFields a 1 one, one),
  ((seen-FitsFields a 2 two, two), ((seen-FitsFields a 3 three, three), tt)),
)

abbrev Listed : ℕ → ℕ → Type 0
Listed a d = (i : ℕ) × (r : Router) × (get_elem? (line a).rs.routers i ≡ some r) × (r.router_id ≡ d)

abbrev Finds : ℕ → ℕ → Type 0
Finds a n =
    (me : Router)
    → get_self (line n) ≡ some me
    → (i : ℕ) × (src : Router) × (find_by_port_ip me.router_port me.ip (line a).rs.routers
        ≡ some (i, src))
      × (src.router_id ≡ n)
      × (is_inactive src.status ≡ false)

finds :
    (a n i : ℕ) (src q : Router)
    → get_self (line n) ≡ some q
    → find_by_port_ip q.router_port q.ip (line a).rs.routers ≡ some (i, src)
    → src.router_id ≡ n
    → is_inactive src.status ≡ false
    → Finds a n
finds a n i src q is_q found id live me is_me =
    let same : q ≡ me = some-injective _ _ (sym is_q ∙ is_me) in
    (i, src, rw same at found, id, live)

all_found : (a n : ℕ) → Adjacent a n → Finds a n
unfolding find_by_port_ip
all_found =
    all_links Finds (finds 1 2 1 (seen 1 2) (seen 2 2) refl refl refl refl)
      (finds 3 2 1 (seen 3 2) (seen 2 2) refl refl refl refl)
      (finds 2 1 0 (seen 2 1) (seen 1 1) refl refl refl refl)
      (finds 2 3 2 (seen 2 3) (seen 3 3) refl refl refl refl)

pub line-IsNetwork : IsNetwork line IsNode
line-IsNetwork = record {
  itself =
      all_nodes _ (seen 1 1, refl, refl, seen-FitsFields 1 1 one)
        (seen 2 2, refl, refl, seen-FitsFields 2 2 two)
        (seen 3 3, refl, refl, seen-FitsFields 3 3 three);
  counted = all_nodes _ refl refl refl;
  some_router = all_nodes _ (omega arith) (omega arith) (omega arith);
  count_fits = all_nodes _ (omega arith) (omega arith) (omega arith);
  fields = all_nodes _ (seen-fields 1) (seen-fields 2) (seen-fields 3);
  listed = λ a d is_a.
      all_nodes (λ a. IsNode d → Listed a d)
        (all_nodes (Listed 1) (0, seen 1 1, refl, refl) (1, seen 1 2, refl, refl)
          (2, seen 1 3, refl, refl) d)
        (all_nodes (Listed 2) (0, seen 2 1, refl, refl) (1, seen 2 2, refl, refl)
          (2, seen 2 3, refl, refl) d)
        (all_nodes (Listed 3) (0, seen 3 1, refl, refl) (1, seen 3 2, refl, refl)
          (2, seen 3 3, refl, refl) d)
        a is_a;
  others = λ a d is_a.
      all_nodes (λ a. IsNode d → is_destination d (line a).rs.routers ≡ not (a == d))
        (all_nodes (λ d. is_destination d (line 1).rs.routers ≡ not (1 == d)) refl refl refl d)
        (all_nodes (λ d. is_destination d (line 2).rs.routers ≡ not (2 == d)) refl refl refl d)
        (all_nodes (λ d. is_destination d (line 3).rs.routers ≡ not (3 == d)) refl refl refl d) a
        is_a;
  apart = λ a n is_a l.
      all_links (λ a n. a ≢ n) (λ e. omega arith) (λ e. omega arith) (λ e. omega arith)
        (λ e. omega arith) a n (linked a n is_a l);
  heard = λ a n me is_a l. all_found a n (linked a n is_a l) me;
}
