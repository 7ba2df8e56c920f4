-- ===== src/Routing/Network.antt =====
-- A network of routers, each with its own state, that tell each other their routes.
pub mod Alike
pub mod Known
pub mod Heard
pub mod Deliver
pub mod Ways
pub mod Rounds
pub mod Truth
pub mod Loops
pub mod Room
pub mod Falling
pub mod Closer
pub mod Exact
pub mod Follow
pub mod Routed
pub mod Started
pub mod Told
pub mod Line
pub mod LineRounds
mod Tests
use distance_vector_routing.Common.{
  ℕ, ◌==◌, if◌then◌else◌, Option, some, ◌>>=◌, List, [], ◌∷◌, take,
}
use distance_vector_routing.Routing.{Timeval, Routing}
use distance_vector_routing.Routing.Payload.{header_size, routing_payload, receive_update}

abbrev pub Network : Type 0
Network = ℕ → Routing

-- A datagram from one router to another, and the time at which it comes.
pub record Delivery : Type 0 where
  pub now : Timeval
  pub sender : ℕ
  pub receiver : ℕ

abbrev pub put : ℕ → Routing → Network → Network
put a st node x = if a == x then st else node x

-- The sender packs its payload, and the receiver takes it in, with nothing in between: a datagram that
-- is delayed or comes twice is not covered.
unfoldable pub deliver : Delivery → Network → Option Network
deliver d node = do
  (payload, sender) ← routing_payload (node d.sender)
  receiver ← receive_update d.now (some (take header_size payload)) (some payload) (node d.receiver)
  some (put d.receiver receiver (put d.sender sender node))

unfoldable pub deliver_all : List Delivery → Network → Option Network
unfolding deliver
deliver_all [] node = some node
deliver_all (d ∷ ds) node = do node' ← deliver d node; deliver_all ds node'

-- One round after another.
unfoldable pub deliver_rounds : List (List Delivery) → Network → Option Network
unfolding deliver_all
deliver_rounds [] node = some node
deliver_rounds (ds ∷ rounds) node = do node' ← deliver_all ds node; deliver_rounds rounds node'
