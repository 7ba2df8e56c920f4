-- ===== src/Routing/Init/Listed.antt =====
-- The routers of an INIT message: the one that is this router, and that an id tells one of them.
use distance_vector_routing.Common.{
  ℕ, zero, suc, ◌≡◌, ◌≢◌, refl, sym, ◌∙◌, ◌+◌, true, false, List, [], ◌∷◌, Option, some, arith,
  ◌==◌, if◌then◌else◌, get_elem?, Bool-cases, inl, inr,
}
use distance_vector_routing.Routing.{is_self, Router}
use distance_vector_routing.Routing.Recompute.Best.{is_destination}
use distance_vector_routing.Routing.Init.{find_self}
use distance_vector_routing.Routing.Init.Tables.{Missing, Distinct}

-- The index of a router of type SELF.
pub record IsSelf (all : List Router) (self : Option ℕ) : Type 0 where
  pub index : ℕ
  pub me : Router
  pub is_index : self ≡ some index
  pub listed : get_elem? all index ≡ some me
  pub is_self : is_self me.type ≡ true

-- The list `rs` is what stands in `all` from an index on.
pub record IsTail (all : List Router) (i : ℕ) (rs : List Router) : Type 0 where
  pub at_index : (k : ℕ) (r : Router) → get_elem? rs k ≡ some r → get_elem? all (i + k) ≡ some r

IsTail-cons :
    (all : List Router) (i : ℕ) (r : Router) (rs : List Router)
    → IsTail all i (r ∷ rs)
    → IsTail all (i + 1) rs
IsTail-cons all i r rs t = record {
  at_index =
      λ k q h. let e : i + suc k ≡ i + 1 + k = omega arith in rw e at (t.at_index (suc k) q h);
}

IsTail-head :
    (all : List Router) (i : ℕ) (r : Router) (rs : List Router)
    → IsTail all i (r ∷ rs)
    → is_self r.type ≡ true
    → IsSelf all (some i)
IsTail-head all i r rs t h = record {
  index = i;
  me = r;
  is_index = refl;
  listed = let e : i + 0 ≡ i = omega arith in rw e at (t.at_index 0 r refl);
  is_self = h;
}

-- Once one is found, a later one only takes its place.
find_self-keep :
    (all : List Router) (i : ℕ) (self : Option ℕ) (rs : List Router)
    → IsTail all i rs
    → IsSelf all self
    → IsSelf all (find_self i self rs)
unfolding find_self
find_self-keep all i self [] t s = s
find_self-keep all i self (r ∷ rs) t s =
    find_self-keep all (i + 1) (if is_self r.type then some i else self) rs
      (IsTail-cons all i r rs t)
      (elim (Bool-cases (is_self r.type)) [
        | inl here ↦ rw here (IsTail-head all i r rs t here)
        | inr there ↦ rw there s
      ])

pub find_self-found :
    (all : List Router) (i : ℕ) (self : Option ℕ) (rs : List Router) (k : ℕ) (r : Router)
    → IsTail all i rs
    → get_elem? rs k ≡ some r
    → is_self r.type ≡ true
    → IsSelf all (find_self i self rs)
unfolding find_self
find_self-found all i self [] k r t h s = cc
find_self-found all i self (q ∷ rs) zero r t h s =
    let same : q ≡ r = cc in
    let here : is_self q.type ≡ true = rw same s in
    find_self-keep all (i + 1) (if is_self q.type then some i else self) rs
      (IsTail-cons all i q rs t) (rw here (IsTail-head all i q rs t here))
find_self-found all i self (q ∷ rs) (suc k) r t h s =
    find_self-found all (i + 1) (if is_self q.type then some i else self) rs k r
      (IsTail-cons all i q rs t) h s

Missing-at :
    (y : ℕ) (rs : List Router) (k : ℕ) (r : Router)
    → Missing y rs
    → get_elem? rs k ≡ some r
    → r.router_id ≢ y
Missing-at y [] k r h at_k = cc
Missing-at y (q ∷ rs) zero r h at_k = let same : q ≡ r = cc in rw (← same) (h.0)
Missing-at y (q ∷ rs) (suc k) r h at_k = Missing-at y rs k r h.1 at_k

-- In a list without repetition the id tells the router.
pub Distinct-same :
    (rs : List Router) (k m : ℕ) (a b : Router)
    → Distinct rs
    → get_elem? rs k ≡ some a
    → get_elem? rs m ≡ some b
    → a.router_id ≡ b.router_id
    → a ≡ b
Distinct-same [] k m a b apart h g e = cc
Distinct-same (r ∷ rs) zero zero a b apart h g e = cc
Distinct-same (r ∷ rs) zero (suc m) a b apart h g e =
    let same : r ≡ a = cc in absurd (Missing-at r.router_id rs m b apart.0 g (sym e ∙ rw same))
Distinct-same (r ∷ rs) (suc k) zero a b apart h g e =
    let same : r ≡ b = cc in absurd (Missing-at r.router_id rs k a apart.0 h (e ∙ rw same))
Distinct-same (r ∷ rs) (suc k) (suc m) a b apart h g e = Distinct-same rs k m a b apart.1 h g e

pub is_destination-listed :
    (rs : List Router) (m : ℕ) (d : Router)
    → get_elem? rs m ≡ some d
    → is_self d.type ≡ false
    → is_destination d.router_id rs ≡ true
is_destination-listed [] m d h other = cc
is_destination-listed (r ∷ rs) zero d h other =
    let same : r ≡ d = cc in rw same (ground (arith, other))
is_destination-listed (r ∷ rs) (suc m) d h other =
    ground (arith, is_destination-listed rs m d h other)

is_destination-Missing : (y : ℕ) (rs : List Router) → Missing y rs → is_destination y rs ≡ false
is_destination-Missing y [] h = refl
is_destination-Missing y (r ∷ rs) h = ground (arith, is_destination-Missing y rs h.1, h.0)

-- This router is no destination of its own.
pub is_destination_self :
    (rs : List Router) (k : ℕ) (me : Router)
    → Distinct rs
    → get_elem? rs k ≡ some me
    → is_self me.type ≡ true
    → is_destination me.router_id rs ≡ false
is_destination_self [] k me apart h s = cc
is_destination_self (r ∷ rs) zero me apart h s =
    let same : r ≡ me = cc in
    let others = is_destination-Missing me.router_id rs (rw same at apart.0) in
    rw same (ground (arith, others))
is_destination_self (r ∷ rs) (suc k) me apart h s =
    let later = is_destination_self rs k me apart.1 h s in
    let other : (r.router_id == me.router_id) ≡ false =
      ground (arith, Missing-at r.router_id rs k me apart.0 h) in
    rw (later, other) (ground arith)
