-- ===== src/Routing/Update.antt =====
-- `find_by_port_ip`, `find_by_id` and `process_update` of src/routing.cpp.
pub mod Process
pub mod Forgotten
use distance_vector_routing.Common.{
  ℕ, zero, suc, ◌&&◌, Bool, List, [], ◌∷◌, Option, none, some, ◌==◌, if◌then◌else◌, set,
}
use distance_vector_routing.OrdMap.{OrdMap}
use distance_vector_routing.Routing.{
  RouterStatus, initialized, active, inactive, is_inactive, Timeval, Router, Routers,
  DistanceVector, Routing,
}
use distance_vector_routing.Routing.Vectors.{set_cell, clear_row}
use distance_vector_routing.Routing.Recompute.{recompute_routing_table}

-- A pointer into the vector of routers: the index, with the router that it points to.
abbrev pub RouterPointer : Type 0
RouterPointer = Option (ℕ × Router)

abbrev next_pointer : RouterPointer → RouterPointer
next_pointer none = none
next_pointer (some (i, r)) = some (suc i, r)

unfoldable pub find_by_port_ip : ℕ → ℕ → List Router → RouterPointer
find_by_port_ip port ip [] = none
find_by_port_ip port ip (r ∷ rs) =
    if r.router_port == port && r.ip == ip
    then some (zero, r)
    else next_pointer (find_by_port_ip port ip rs)

unfoldable pub find_by_id : ℕ → List Router → RouterPointer
find_by_id id [] = none
find_by_id id (r ∷ rs) =
    if r.router_id == id then some (zero, r) else next_pointer (find_by_id id rs)

-- The fields of a `ROUTING_UPDATE_HEADER` and of a `ROUTING_UPDATE_ENTRY`.
pub record UpdateHeader : Type 0 where
  pub update_size : ℕ
  pub src_port : ℕ
  pub src_ip_addr : ℕ

pub record UpdateEntry : Type 0 where
  pub ip_addr : ℕ
  pub port : ℕ
  pub padding : ℕ
  pub id : ℕ
  pub cost : ℕ

abbrev pub with_routers : Routing → List Router → Routing
with_routers st routers = record st { rs = rs' }
  where
    rs' : Routers
    rs' = record {
      router_count = st.rs.router_count;
      update_interval = st.rs.update_interval;
      routers = routers;
    }

-- A router that was only initialised becomes active.
abbrev pub activate : RouterStatus → RouterStatus
activate initialized = active
activate active = active
activate inactive = inactive

pub store_updates : ℕ → List UpdateEntry → OrdMap DistanceVector → OrdMap DistanceVector
store_updates src [] v = v
store_updates src (u ∷ us) v = store_updates src us (set_cell v src u.id u.cost)

-- The work on an update from the router `src`, which stands at `i`.
pub accept_update : Timeval → ℕ → Router → List UpdateEntry → Routing → Routing
unfolding store_updates
accept_update now i src updates st = record heard {
  distance_vectors =
      store_updates src.router_id updates (clear_row st.distance_vectors src.router_id);
}
  where
    heard : Routing
    heard =
        with_routers st
          (set st.rs.routers i (record src { status = activate src.status; last_update = now }))

process_from : Timeval → RouterPointer → List UpdateEntry → Routing → Option Routing
unfolding accept_update
process_from now none updates st = some st
process_from now (some (i, src)) updates st =
    if is_inactive src.status
    then some st
    else recompute_routing_table (accept_update now i src updates st)

-- `now` is what `gettimeofday` returns.
unfoldable pub process_update : Timeval → UpdateHeader → List UpdateEntry → Routing → Option Routing
unfolding process_from
process_update now header updates st =
    process_from now (find_by_port_ip header.src_port header.src_ip_addr st.rs.routers) updates st
