-- ===== src/Routing/Network/Tests.antt =====
-- Two rounds in the line of three routers.
use native.Mathlib.Decide.{ℕ_discrete}
use distance_vector_routing.Common.{
  ℕ, ◌≡◌, ◌≢◌, refl, ◌∙◌, ◌==◌, if◌then◌else◌, [], ◌∷◌, some, arith,
}
use distance_vector_routing.OrdMap.{lookup, at}
use distance_vector_routing.Routing.{inf, no_route}
use distance_vector_routing.Routing.Vectors.{cell}
use distance_vector_routing.Routing.Recompute.Best.{
  best_cost, best_route, first_hop, candidate_cost,
}
use distance_vector_routing.Routing.Quiet.{route_cost, arrived}
use distance_vector_routing.Routing.Network.{Network, deliver_all, deliver_rounds}
use distance_vector_routing.Routing.Network.Alike.{AllAlike-refl}
use distance_vector_routing.Routing.Network.Known.{Runs}
use distance_vector_routing.Routing.Network.Rounds.{IsNear, deliver_rounds-le}
use distance_vector_routing.Routing.Network.Truth.{
  IsHonest, HasTrueRoutes, deliver_all-HasTrueRoutes,
}
use distance_vector_routing.Routing.Network.Started.{parse_init-IsHonest}
use distance_vector_routing.Routing.Network.Exact.{
  HasShortestRoutes, deliver_rounds-HasShortestRoutes,
}
use distance_vector_routing.Routing.Network.Routed.{IsRouted, deliver_rounds-IsRouted}
use distance_vector_routing.Routing.Network.LineRounds.{
  round, round-IsAlong, round-IsRound, nodes, line-IsBounded, line-IsAddressed, link-positive,
}
use distance_vector_routing.Routing.Network.Told.{line-IsStarted}
use distance_vector_routing.Routing.Network.Line.{
  line, ip_of, IsNode, all_nodes, all_links, linked, Adjacent, line-IsNetwork,
}

abbrev IsSolved : ℕ → ℕ → Type 0
IsSolved a d =
    a ≢ d
    → at no_route d (line a).routing_table
      ≡ best_route (line a).distance_vectors a (line a).rs.routers d

line-IsSolved : (a d : ℕ) → IsNode a → IsNode d → IsSolved a d
unfolding best_route best_cost first_hop candidate_cost cell lookup at
line-IsSolved a d is_a =
    all_nodes (λ a. IsNode d → IsSolved a d)
      (all_nodes (IsSolved 1) (λ h. absurd (h refl)) (λ h. refl) (λ h. refl) d)
      (all_nodes (IsSolved 2) (λ h. refl) (λ h. absurd (h refl)) (λ h. refl) d)
      (all_nodes (IsSolved 3) (λ h. refl) (λ h. refl) (λ h. absurd (h refl)) d) a is_a

line_own : (a : ℕ) → IsNode a → route_cost (line a) a ≡ 0
unfolding lookup at
line_own = all_nodes (λ a. route_cost (line a) a ≡ 0) refl refl refl

line-Runs : (a : ℕ) → IsNode a → Runs line IsNode a (line a)
line-Runs a is_a = record {
  alike = AllAlike-refl (line a).rs.routers;
  self = refl;
  count = refl;
  links = λ n. refl;
  own = line_own a is_a;
  solved = λ d is_d. line-IsSolved a d is_a is_d;
}

abbrev IsFresh : ℕ → ℕ → ℕ → Type 0
IsFresh d a n = cell (line a).distance_vectors n d ≡ (if n == d then 0 else inf)

line-IsFresh : (a n d : ℕ) → Adjacent a n → IsNode d → IsFresh d a n
unfolding cell lookup at
line-IsFresh a n d l is_d =
    all_nodes (λ d. IsFresh d a n) (all_links (IsFresh 1) refl refl refl refl a n l)
      (all_links (IsFresh 2) refl refl refl refl a n l)
      (all_links (IsFresh 3) refl refl refl refl a n l) d is_d

line-IsHonest : IsHonest line IsNode line
line-IsHonest = record {
  runs = line-Runs;
  told = λ a n is_a l d is_d finite.
      let fresh = line-IsFresh a n d (linked a n is_a l) is_d in
      elim (ℕ_discrete n d) [
        | yes same ↦ (0, arrived n 0 same refl, fresh ∙ ground (arith, same))
        | no other ↦ absurd (finite (fresh ∙ ground (arith, other)))
      ];
}

deliver_rounds-le_example :
    (node : Network) × (deliver_rounds (round ∷ round ∷ []) line ≡ some node)
    × IsNear line IsNode 2 node
deliver_rounds-le_example =
    deliver_rounds-le line IsNode line-IsNetwork (round ∷ round ∷ [])
      (round-IsRound, (round-IsRound, tt)) line-Runs

deliver_all-HasTrueRoutes_example :
    (node : Network) × (deliver_all round line ≡ some node) × HasTrueRoutes line IsNode node
deliver_all-HasTrueRoutes_example =
    deliver_all-HasTrueRoutes line IsNode line-IsNetwork round round-IsAlong line-IsHonest

parse_init-IsHonest_example : IsHonest line IsNode line
parse_init-IsHonest_example = parse_init-IsHonest line IsNode line-IsNetwork line-IsStarted

deliver_rounds-HasShortestRoutes_example :
    (node : Network) × (deliver_rounds (round ∷ round ∷ []) line ≡ some node)
    × HasShortestRoutes line IsNode node
deliver_rounds-HasShortestRoutes_example =
    deliver_rounds-HasShortestRoutes line IsNode nodes 7 line-IsNetwork line-IsBounded
      (round ∷ round ∷ []) (round-IsRound, (round-IsRound, tt)) (omega arith) line-IsStarted

deliver_rounds-IsRouted_example :
    (node : Network) × (deliver_rounds (round ∷ round ∷ []) line ≡ some node)
    × IsRouted line IsNode nodes ip_of node
deliver_rounds-IsRouted_example =
    deliver_rounds-IsRouted line IsNode nodes 7 line-IsNetwork line-IsBounded ip_of line-IsAddressed
      link-positive (round ∷ round ∷ []) (round-IsRound, (round-IsRound, tt)) (omega arith)
      line-IsStarted
