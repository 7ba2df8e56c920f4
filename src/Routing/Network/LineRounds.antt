-- ===== src/Routing/Network/LineRounds.antt =====
-- What is told in the line of three routers, and its bounds.
use distance_vector_routing.Common.{
  ◌<◌, ℕ, ◌≡◌, refl, inl, inr, ◌≤◌, List, [], ◌∷◌, some, arith, All, Any,
}
use distance_vector_routing.OrdMap.{lookup, at}
use distance_vector_routing.Routing.{Router, get_self}
use distance_vector_routing.Routing.Vectors.{cell}
use distance_vector_routing.Routing.Quiet.{link, IsLinked}
use distance_vector_routing.Routing.Samples.{at_second}
use distance_vector_routing.Routing.Network.{Delivery}
use distance_vector_routing.Routing.Network.Rounds.{IsAlong, IsFrom, IsRound}
use distance_vector_routing.Routing.Network.Loops.{Has}
use distance_vector_routing.Routing.Network.Room.{IsBounded}
use distance_vector_routing.Routing.Forward.{route_key}
use distance_vector_routing.Routing.Network.Follow.{IsAddressed}
use distance_vector_routing.Routing.Network.Line.{
  line, ip_of, IsNode, all_nodes, one, two, three, all_links, linked, Adjacent, seen,
}

abbrev from_to : ℕ → ℕ → Delivery
from_to n a = record { now = at_second 200; sender = n; receiver = a }

abbrev pub round : List Delivery
round = from_to 2 1 ∷ from_to 2 3 ∷ from_to 3 2 ∷ from_to 1 2 ∷ []

-- The four links, in the order of the round.
middle_first : IsLinked line 1 2
unfolding cell lookup at
middle_first = record {
  index = 1;
  router = seen 1 2;
  listed = refl;
  is_neighbour = refl;
  id = refl;
  up = λ e. omega arith;
}

middle_third : IsLinked line 3 2
unfolding cell lookup at
middle_third = record {
  index = 1;
  router = seen 3 2;
  listed = refl;
  is_neighbour = refl;
  id = refl;
  up = λ e. omega arith;
}

third_middle : IsLinked line 2 3
unfolding cell lookup at
third_middle = record {
  index = 2;
  router = seen 2 3;
  listed = refl;
  is_neighbour = refl;
  id = refl;
  up = λ e. omega arith;
}

first_middle : IsLinked line 2 1
unfolding cell lookup at
first_middle = record {
  index = 0;
  router = seen 2 1;
  listed = refl;
  is_neighbour = refl;
  id = refl;
  up = λ e. omega arith;
}

pub round-IsAlong : All (IsAlong line IsNode) round
round-IsAlong =
    ((one, middle_first), ((three, middle_third), ((two, third_middle), ((two, first_middle), tt))))

pub round-IsRound : IsRound line IsNode round
round-IsRound = record {
  along = round-IsAlong;
  complete = λ a n is_a l.
      all_links (λ a n. Any (IsFrom n a) round) (inl (refl, refl)) (inr (inl (refl, refl)))
        (inr (inr (inr (inl (refl, refl))))) (inr (inr (inl (refl, refl)))) a n (linked a n is_a l);
}

abbrev pub nodes : List ℕ
nodes = 1 ∷ 2 ∷ 3 ∷ []

link-le_seven : (a n : ℕ) → Adjacent a n → link line a n ≤ 7
unfolding cell lookup at
link-le_seven =
    all_links (λ a n. link line a n ≤ 7) (omega arith) (omega arith) (omega arith) (omega arith)

pub line-IsBounded : IsBounded line IsNode nodes 7
line-IsBounded = record {
  inside = (one, (two, (three, tt)));
  has = all_nodes (λ x. Has x nodes) (inl refl) (inr (inl refl)) (inr (inr (inl refl)));
  link_le = λ a n is_a l. link-le_seven a n (linked a n is_a l);
  fits = omega arith;
}

addressed : (a d : ℕ) → IsNode a → IsNode d → route_key (ip_of d) (line a).rs.routers ≡ some d
unfolding route_key
addressed a d is_a =
    all_nodes (λ a. IsNode d → route_key (ip_of d) (line a).rs.routers ≡ some d)
      (all_nodes (λ d. route_key (ip_of d) (line 1).rs.routers ≡ some d) refl refl refl d)
      (all_nodes (λ d. route_key (ip_of d) (line 2).rs.routers ≡ some d) refl refl refl d)
      (all_nodes (λ d. route_key (ip_of d) (line 3).rs.routers ≡ some d) refl refl refl d) a is_a

own_address : (a : ℕ) (me : Router) → IsNode a → get_self (line a) ≡ some me → me.ip ≡ ip_of a
own_address a me is_a =
    all_nodes (λ a. get_self (line a) ≡ some me → me.ip ≡ ip_of a) (λ h. ground (arith, h))
      (λ h. ground (arith, h)) (λ h. ground (arith, h)) a is_a

pub line-IsAddressed : IsAddressed line IsNode ip_of
line-IsAddressed = record { found = addressed; own = own_address }

adjacent-positive : (a n : ℕ) → Adjacent a n → 0 < link line a n
unfolding cell lookup at
adjacent-positive =
    all_links (λ a n. 0 < link line a n) (omega arith) (omega arith) (omega arith) (omega arith)

pub link-positive : (a n : ℕ) → IsNode a → IsLinked line a n → 0 < link line a n
link-positive a n is_a l = adjacent-positive a n (linked a n is_a l)
