-- ===== src/Routing/Network/Alike.antt =====
-- Lists of routers that differ in what updates change alone: the times, and whether a router that is
-- not inactive was heard of.
use distance_vector_routing.Common.{
  ℕ, zero, suc, ◌≡◌, refl, ap, Option, List, [], ◌∷◌, map, some, arith, length, set, get_elem?,
  ◌&&◌, ◌==◌, none, true, false,
}
use distance_vector_routing.OrdMap.{OrdMap}
use distance_vector_routing.Routing.{is_inactive, Router, Route, self_at}
use distance_vector_routing.Routing.Vectors.{Vectors}
use distance_vector_routing.Routing.Recompute.Best.{
  candidate_cost, best_cost, first_hop, best_route, is_destination,
}
use distance_vector_routing.Routing.Update.{find_by_port_ip}
use distance_vector_routing.Routing.Payload.RoundTrip.{told_entry}

pub record Alike (r r0 : Router) : Type 0 where
  pub id : r.router_id ≡ r0.router_id
  pub port : r.router_port ≡ r0.router_port
  pub ip : r.ip ≡ r0.ip
  pub type : r.type ≡ r0.type
  pub fd : r.data_socket_fd ≡ r0.data_socket_fd
  pub gone : is_inactive r.status ≡ is_inactive r0.status

unfoldable pub AllAlike : List Router → List Router → Type 0
AllAlike [] [] = Unit
AllAlike [] (s ∷ ss) = ⊥
AllAlike (r ∷ rs) [] = ⊥
AllAlike (r ∷ rs) (s ∷ ss) = Alike r s × AllAlike rs ss

pub AllAlike-refl : (rs : List Router) → AllAlike rs rs
unfolding AllAlike
AllAlike-refl [] = tt
AllAlike-refl (r ∷ rs) = (
  record { id = refl; port = refl; ip = refl; type = refl; fd = refl; gone = refl },
  AllAlike-refl rs,
)

pub set-AllAlike :
    (i : ℕ) (rs ss : List Router) (src src' : Router)
    → AllAlike rs ss
    → get_elem? rs i ≡ some src
    → ((s : Router) → Alike src s → Alike src' s)
    → AllAlike (set rs i src') ss
unfolding AllAlike
set-AllAlike i [] [] src src' a h keep = cc
set-AllAlike i [] (s ∷ ss) src src' a h keep = absurd a
set-AllAlike i (r ∷ rs) [] src src' a h keep = absurd a
set-AllAlike zero (r ∷ rs) (s ∷ ss) src src' a h keep =
    let same : r ≡ src = ground arith in (keep s (rw same at a.0), a.1)
set-AllAlike (suc i) (r ∷ rs) (s ∷ ss) src src' a h keep =
    (a.0, set-AllAlike i rs ss src src' a.1 h keep)

pub length-AllAlike : (rs ss : List Router) → AllAlike rs ss → length rs ≡ length ss
unfolding AllAlike
length-AllAlike [] [] a = refl
length-AllAlike [] (s ∷ ss) a = absurd a
length-AllAlike (r ∷ rs) [] a = absurd a
length-AllAlike (r ∷ rs) (s ∷ ss) a = ap suc (length-AllAlike rs ss a.1)

candidate_cost-Alike :
    (v : Vectors) (me d : ℕ) (r s : Router)
    → Alike r s
    → candidate_cost v me d r ≡ candidate_cost v me d s
unfolding candidate_cost
candidate_cost-Alike v me d r s a = rw (a.id, a.type)

best_cost-AllAlike :
    (v : Vectors) (me d : ℕ) (rs ss : List Router)
    → AllAlike rs ss
    → best_cost v me d rs ≡ best_cost v me d ss
unfolding AllAlike best_cost
best_cost-AllAlike v me d [] [] a = refl
best_cost-AllAlike v me d [] (s ∷ ss) a = absurd a
best_cost-AllAlike v me d (r ∷ rs) [] a = absurd a
best_cost-AllAlike v me d (r ∷ rs) (s ∷ ss) a =
    rw (candidate_cost-Alike v me d r s a.0, best_cost-AllAlike v me d rs ss a.1)

first_hop-AllAlike :
    (v : Vectors) (me d c : ℕ) (rs ss : List Router)
    → AllAlike rs ss
    → first_hop v me d c rs ≡ first_hop v me d c ss
unfolding AllAlike first_hop
first_hop-AllAlike v me d c [] [] a = refl
first_hop-AllAlike v me d c [] (s ∷ ss) a = absurd a
first_hop-AllAlike v me d c (r ∷ rs) [] a = absurd a
first_hop-AllAlike v me d c (r ∷ rs) (s ∷ ss) a =
    rw (candidate_cost-Alike v me d r s a.0, a.0.id, first_hop-AllAlike v me d c rs ss a.1)

pub best_route-AllAlike :
    (v : Vectors) (me d : ℕ) (rs ss : List Router)
    → AllAlike rs ss
    → best_route v me rs d ≡ best_route v me ss d
unfolding best_route
best_route-AllAlike v me d rs ss a =
    rw (best_cost-AllAlike v me d rs ss a, first_hop-AllAlike v me d (best_cost v me d ss) rs ss a)

pub is_destination-AllAlike :
    (k : ℕ) (rs ss : List Router) → AllAlike rs ss → is_destination k rs ≡ is_destination k ss
unfolding AllAlike
is_destination-AllAlike k [] [] a = refl
is_destination-AllAlike k [] (s ∷ ss) a = absurd a
is_destination-AllAlike k (r ∷ rs) [] a = absurd a
is_destination-AllAlike k (r ∷ rs) (s ∷ ss) a =
    rw (a.0.id, a.0.type, is_destination-AllAlike k rs ss a.1)

pub told_entry-AllAlike :
    (table : OrdMap Route) (rs ss : List Router)
    → AllAlike rs ss
    → map (told_entry table) rs ≡ map (told_entry table) ss
unfolding AllAlike
told_entry-AllAlike table [] [] a = refl
told_entry-AllAlike table [] (s ∷ ss) a = absurd a
told_entry-AllAlike table (r ∷ rs) [] a = absurd a
told_entry-AllAlike table (r ∷ rs) (s ∷ ss) a =
    rw (a.0.id, a.0.port, a.0.ip, told_entry-AllAlike table rs ss a.1)

pub get_elem?-AllAlike :
    (i : ℕ) (rs ss : List Router) (s : Router)
    → AllAlike rs ss
    → get_elem? ss i ≡ some s
    → (r : Router) × (get_elem? rs i ≡ some r) × Alike r s
unfolding AllAlike
get_elem?-AllAlike i [] [] s a h = cc
get_elem?-AllAlike i [] (t ∷ ss) s a h = absurd a
get_elem?-AllAlike i (r ∷ rs) [] s a h = absurd a
get_elem?-AllAlike zero (r ∷ rs) (t ∷ ss) s a h =
    let same : t ≡ s = ground arith in (r, refl, rw same at a.0)
get_elem?-AllAlike (suc i) (r ∷ rs) (t ∷ ss) s a h = get_elem?-AllAlike i rs ss s a.1 h

pub self_at-AllAlike :
    (p : Option ℕ) (rs ss : List Router) (me : Router)
    → AllAlike rs ss
    → self_at ss p ≡ some me
    → (me' : Router) × (self_at rs p ≡ some me') × Alike me' me
self_at-AllAlike none rs ss me a h = cc
self_at-AllAlike (some i) rs ss me a h = get_elem?-AllAlike i rs ss me a h

pub find_by_port_ip-AllAlike :
    (port ip : ℕ) (rs ss : List Router) (i : ℕ) (s : Router)
    → AllAlike rs ss
    → find_by_port_ip port ip ss ≡ some (i, s)
    → (r : Router) × (find_by_port_ip port ip rs ≡ some (i, r)) × Alike r s
unfolding AllAlike find_by_port_ip
find_by_port_ip-AllAlike port ip [] [] i s a h = cc
find_by_port_ip-AllAlike port ip [] (t ∷ ss) i s a h = absurd a
find_by_port_ip-AllAlike port ip (r ∷ rs) [] i s a h = absurd a
find_by_port_ip-AllAlike port ip (r ∷ rs) (t ∷ ss) zero s a h =
    let here : (t.router_port == port && t.ip == ip ≡ true) × (t ≡ s) = ground arith in
    (r, rw (a.0.port, a.0.ip, here.0), rw (here.1) at a.0)
find_by_port_ip-AllAlike port ip (r ∷ rs) (t ∷ ss) (suc i) s a h =
    let later : (t.router_port == port && t.ip == ip ≡ false)
        × (find_by_port_ip port ip ss ≡ some (i, s)) =
      ground arith in
    let (q, found, alike) = find_by_port_ip-AllAlike port ip rs ss i s a.1 (later.1) in
    (q, rw (a.0.port, a.0.ip, later.0, found), alike)
