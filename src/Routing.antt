-- ===== src/Routing.antt =====
-- The data of include/routing.h and the static variables of src/routing.cpp. Ids, ports, costs and
-- addresses are numbers; seconds of the clock do not wrap.
pub mod Vectors
pub mod Recompute
pub mod Shape
pub mod Update
pub mod Payload
pub mod Timeout
pub mod Init
pub mod Control
pub mod Forward
pub mod Events
pub mod Network
pub mod Quiet
pub mod Samples
mod Tests
use distance_vector_routing.Common.{ℕ, Bool, true, false, List, Option, none, some, ℤ, get_elem?}
use distance_vector_routing.OrdMap.{OrdMap}
use Prim.Native.String.{String}

-- `(uint16_t) INFINITY`: the compiler converts the constant to the largest value.
abbrev pub inf : ℕ
inf = 65535

pub data RouterType : Type 0 where
  neighbour self_router non_neighbour : RouterType

pub data RouterStatus : Type 0 where
  initialized active inactive : RouterStatus

abbrev pub is_neighbour : RouterType → Bool
is_neighbour neighbour = true
is_neighbour self_router = false
is_neighbour non_neighbour = false

abbrev pub is_self : RouterType → Bool
is_self neighbour = false
is_self self_router = true
is_self non_neighbour = false

abbrev pub is_inactive : RouterStatus → Bool
is_inactive initialized = false
is_inactive active = false
is_inactive inactive = true

pub record Timeval : Type 0 where
  pub tv_sec : ℕ
  pub tv_usec : ℕ

pub record Router : Type 0 where
  pub router_id : ℕ
  pub router_port : ℕ
  pub data_port : ℕ
  pub cost : ℕ
  pub ip : ℕ
  pub ip_str : String
  pub type : RouterType
  pub status : RouterStatus
  pub last_update : Timeval
  pub data_socket_fd : ℤ

pub record Routers : Type 0 where
  pub router_count : ℕ
  pub update_interval : ℕ
  pub routers : List Router

pub record Route : Type 0 where
  pub cost : ℕ
  pub next_hop_id : ℕ

-- What `routing_table[k]` refers to where the key is missing: a value-initialised `route`.
abbrev pub no_route : Route
no_route = record { cost = 0; next_hop_id = 0 }

abbrev pub DistanceVector : Type 0
DistanceVector = OrdMap ℕ

-- The static variables. `self` points into the vector of routers: it is an index, or null.
pub record Routing : Type 0 where
  pub self : Option ℕ
  pub rs : Routers
  pub update_counter : ℕ
  pub routing_table : OrdMap Route
  pub distance_vectors : OrdMap DistanceVector

-- `*self`; null faults.
abbrev pub self_at : List Router → Option ℕ → Option Router
self_at rs none = none
self_at rs (some i) = get_elem? rs i

abbrev pub get_self : Routing → Option Router
get_self st = self_at st.rs.routers st.self
