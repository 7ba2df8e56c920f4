-- ===== src/Routing/Network/Loops.antt =====
-- Ways that come back to a router, and ways that do not.
use native.Mathlib.Decide.{ℕ_discrete}
use distance_vector_routing.Common.{
  ℕ, suc, ◌≡◌, ◌≢◌, refl, sym, ap, subst, ◌∙◌, ◌+◌, ◌<◌, ◌≤◌, ◌⊎◌, inl, inr, List, [], ◌∷◌, arith,
  All, Any, length,
}
use distance_vector_routing.Routing.Quiet.{link, IsLinked, Walk, arrived, hop}
use distance_vector_routing.Routing.Network.{Network}
use distance_vector_routing.Routing.Network.Ways.{hops}

abbrev pub Has : ℕ → List ℕ → Type 0
Has x xs = Any (λ y. x ≡ y) xs

abbrev Lacks : ℕ → List ℕ → Type 0
Lacks x xs = All (λ y. x ≢ y) xs

abbrev AllApart : List ℕ → Type 0
AllApart [] = Unit
AllApart (x ∷ xs) = Lacks x xs × AllApart xs

Has-dec : (x : ℕ) (xs : List ℕ) → Has x xs ⊎ Lacks x xs
Has-dec x [] = inr tt
Has-dec x (y ∷ xs) = elim (ℕ_discrete x y) [
  | yes e ↦ inl (inl e)
  | no h ↦ elim (Has-dec x xs) [ inl later ↦ inl (inr later) | inr none ↦ inr (h, none) ]
]

-- The list without its first `x`.
remove : ℕ → List ℕ → List ℕ
remove x [] = []
remove x (y ∷ ys) = elim (ℕ_discrete x y) [ yes _ ↦ ys | no _ ↦ y ∷ remove x ys ]

length-remove : (x : ℕ) (ys : List ℕ) → Has x ys → suc (length (remove x ys)) ≡ length ys
unfolding remove
length-remove x [] h = absurd h
length-remove x (y ∷ ys) h =
    elim (ℕ_discrete x y)
      as (λ d. suc (length (elim d [ yes _ ↦ ys | no _ ↦ y ∷ remove x ys ])) ≡ suc (length ys)) [
        | yes e ↦ refl
        | no other ↦
            ap suc (length-remove x ys (elim h [ inl e ↦ absurd (other e) | inr later ↦ later ]))
      ]

Has-remove : (x z : ℕ) (ys : List ℕ) → x ≢ z → Has z ys → Has z (remove x ys)
unfolding remove
Has-remove x z [] apart h = absurd h
Has-remove x z (y ∷ ys) apart h =
    elim (ℕ_discrete x y) as (λ d. Has z (elim d [ yes _ ↦ ys | no _ ↦ y ∷ remove x ys ])) [
      | yes e ↦ elim h [ inl f ↦ absurd (apart (e ∙ sym f)) | inr later ↦ later ]
      | no other ↦ elim h [ inl f ↦ inl f | inr later ↦ inr (Has-remove x z ys apart later) ]
    ]

All-Has-remove :
    (x : ℕ) (xs ys : List ℕ)
    → Lacks x xs
    → All (λ z. Has z ys) xs
    → All (λ z. Has z (remove x ys)) xs
All-Has-remove x [] ys l h = tt
All-Has-remove x (z ∷ xs) ys l h = (Has-remove x z ys l.0 h.0, All-Has-remove x xs ys l.1 h.1)

-- Numbers that are all apart and stand in a list are no more than the list is long.
length-le_of_apart : (xs ys : List ℕ) → AllApart xs → All (λ z. Has z ys) xs → length xs ≤ length ys
length-le_of_apart [] ys a h = omega arith
length-le_of_apart (x ∷ xs) ys a h = omega (
  arith,
  length-le_of_apart xs (remove x ys) a.1 (All-Has-remove x xs ys a.0 h.1),
  length-remove x ys h.0,
)

module _ (net : Network) (d : ℕ) where
  -- The routers of a way, its ends among them.
  visits : {a total : ℕ} → Walk net d a total → List ℕ
  visits (arrived a _ same zero_cost) = a ∷ []
  visits (hop a n rest _ l way sum) = a ∷ visits way

  length-visits : {a total : ℕ} (way : Walk net d a total) → length (visits way) ≡ suc (hops way)
  unfolding visits hops
  length-visits (arrived a _ same zero_cost) = refl
  length-visits (hop a n rest _ l way sum) = ap suc (length-visits way)

  -- A way that costs no more and visits no router twice.
  record Straight (a total : ℕ) : Type 0 where
    cost : ℕ
    way : Walk net d a cost
    cheaper : cost ≤ total
    apart : AllApart (visits way)

  -- What is left of a way behind a router on it.
  suffix :
      {n total : ℕ} (x : ℕ) (way : Walk net d n total)
      → AllApart (visits way)
      → Has x (visits way)
      → Straight x total
  unfolding visits
  suffix x (arrived a total same zero_cost) apart (inl e) = record {
    cost = total;
    way = arrived x total (e ∙ same) zero_cost;
    cheaper = omega arith;
    apart = (tt, tt);
  }
  suffix x (arrived a total same zero_cost) apart (inr h) = absurd h
  suffix x (hop a n rest total l way sum) apart (inl e) =
      subst (λ y. Straight y total) (sym e)
        (record {
          cost = total;
          way = hop a n rest total l way sum;
          cheaper = omega arith;
          apart = apart;
        })
  suffix x (hop a n rest total l way sum) apart (inr h) =
      let s = suffix x way apart.1 h in
      record { cost = s.cost; way = s.way; cheaper = omega (arith, s.cheaper); apart = s.apart }

  straighten : {a total : ℕ} → Walk net d a total → Straight a total
  unfolding visits
  straighten (arrived a total same zero_cost) = record {
    cost = total;
    way = arrived a total same zero_cost;
    cheaper = omega arith;
    apart = (tt, tt);
  }
  straighten (hop a n rest total l way sum) =
      let s = straighten way in
      elim (Has-dec a (visits s.way)) [
        | inl again ↦
            let t = suffix a s.way s.apart again in
            record {
              cost = t.cost;
              way = t.way;
              cheaper = omega (arith, t.cheaper, s.cheaper);
              apart = t.apart;
            }
        | inr new ↦ record {
          cost = link net a n + s.cost;
          way = hop a n s.cost (link net a n + s.cost) l s.way refl;
          cheaper = omega (arith, s.cheaper);
          apart = (new, s.apart);
        }
      ]

  visits-Has :
      (IsNode : ℕ → Type 0) (nodes : List ℕ)
      → ((x : ℕ) → IsNode x → Has x nodes)
      → ((a n : ℕ) → IsNode a → IsLinked net a n → IsNode n)
      → {a total : ℕ} (way : Walk net d a total) → IsNode a
      → All (λ z. Has z nodes) (visits way)
  unfolding visits
  visits-Has IsNode nodes has inside (arrived a total same zero_cost) is_a = (has a is_a, tt)
  visits-Has IsNode nodes has inside (hop a n rest total l way sum) is_a =
      (has a is_a, visits-Has IsNode nodes has inside way (inside a n is_a l))

  -- For every way there is one that costs no more and has fewer links than there are routers.
  pub few_hops :
      (IsNode : ℕ → Type 0) (nodes : List ℕ)
      → ((x : ℕ) → IsNode x → Has x nodes)
      → ((a n : ℕ) → IsNode a → IsLinked net a n → IsNode n)
      → (a total : ℕ) → IsNode a
      → Walk net d a total
      → (cost : ℕ) × (way : Walk net d a cost) × (cost ≤ total) × (hops way < length nodes)
  few_hops IsNode nodes has inside a total is_a w =
      let s = straighten w in
      (
        s.cost,
        s.way,
        s.cheaper,
        omega (
          arith,
          length-visits s.way,
          length-le_of_apart (visits s.way) nodes s.apart
              (visits-Has IsNode nodes has inside s.way is_a),
        ),
      )
