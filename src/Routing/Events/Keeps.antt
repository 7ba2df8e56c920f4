-- ===== src/Routing/Events/Keeps.antt =====
-- What every event of the routing part keeps of its state.
use distance_vector_routing.Common.{ℕ, ◌≡◌, some, true, get_elem?}
use distance_vector_routing.Routing.{is_inactive, Router, Routing}
use distance_vector_routing.Routing.Timeout.Interval.{IsReady}

-- The state is set up, and every router that was inactive in `st` is so.
pub record Keeps (st st' : Routing) : Type 0 where
  pub ready : IsReady st'
  pub gone :
      (j : ℕ) (r : Router)
      → get_elem? st.rs.routers j ≡ some r
      → is_inactive r.status ≡ true
      → (r' : Router) × (get_elem? st'.rs.routers j ≡ some r') × (is_inactive r'.status ≡ true)

pub Keeps-same : {st st' : Routing} → IsReady st → st' ≡ st → Keeps st st'
Keeps-same {st} ready same = rw same (record { ready = ready; gone = λ j r h e. (r, h, e) })
