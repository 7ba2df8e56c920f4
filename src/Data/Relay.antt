-- ===== src/Data/Relay.antt =====
-- A router that packets go through: `receive` and `write_handler` of src/data_routing.cpp, in whatever
-- order `select` finds the descriptors ready.
pub mod Queues
pub mod Transit
pub mod Leaving
pub mod Order
pub mod Chain
pub mod File
pub mod Origin
pub mod Whole
mod Tests
use distance_vector_routing.Common.{
  ℕ, ◌+◌, ◌%◌, take, drop, List, [], ◌∷◌, ◌++◌, Option, some, ◌>>=◌, map, ℤ,
}
use distance_vector_routing.Routing.{Routing}
use distance_vector_routing.Routing.Timeout.{Network}
use distance_vector_routing.Data.{packet_header_size, DataState}
use distance_vector_routing.Data.Receive.{receive}
use distance_vector_routing.Data.Write.{Message, write_handler}

-- A packet comes in by a descriptor, or a descriptor can be written to.
pub data Ready : Type 0 where
  comes : ℤ → List ℕ → Ready
  writable : ℤ → Ready

-- The state of a router, and the messages that have left it.
pub record Relayed : Type 0 where
  pub routing : Routing
  pub state : DataState
  pub sent : List Message

module _ (net : Network) (peer : ℤ → ℕ) where
  unfoldable pub handle : Ready → Routing → DataState → Option Relayed
  handle (comes fd packet) st d = do
    r ←
        receive net fd (some (take packet_header_size packet))
          (some (drop packet_header_size packet)) st d
    some (record { routing = r.routing; state = r.state; sent = [] })
  handle (writable fd) st d = do
    (d', sent) ← write_handler peer fd st.rs.routers d
    some (record { routing = st; state = d'; sent = sent })

  unfoldable pub handle_all : List Ready → Routing → DataState → Option Relayed
  unfolding handle
  handle_all [] st d = some (record { routing = st; state = d; sent = [] })
  handle_all (e ∷ es) st d = do
    r ← handle e st d
    r' ← handle_all es r.routing r.state
    some (record r' { sent = r.sent ++ r'.sent })

abbrev pub bytes_of : List Message → List (List ℕ)
bytes_of sent = map (λ m. m.bytes) sent

-- The packet with its TTL, the sixth byte, one lower.
abbrev pub lower_ttl : List ℕ → List ℕ
lower_ttl packet =
    take 5 packet ++ (map (λ b. (b + 255) % 256) (take 1 (drop 5 packet)) ++ drop 6 packet)

-- The packets that came, each with its TTL one lower.
abbrev pub passed_on : List Ready → List (List ℕ)
passed_on [] = []
passed_on (comes fd packet ∷ es) = lower_ttl packet ∷ passed_on es
passed_on (writable fd ∷ es) = passed_on es
