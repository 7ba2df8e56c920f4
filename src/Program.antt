-- ===== src/Program.antt =====
-- The state of the whole program, what the system answers, and what leaves the program.
pub mod Ensures
pub mod Samples
use Prim.Native.Char.{code}
use Prim.Native.String.{String}
use distance_vector_routing.Common.{ℕ, Bool, List, [], ◌∷◌, ◌++◌, Option, none, some, ◌>>=◌, ℤ}
use distance_vector_routing.Sockets.{Attempt}
use distance_vector_routing.Routing.{Timeval, Routing}
use distance_vector_routing.Routing.Init.{Host}
use distance_vector_routing.Routing.Timeout.{Network, Datagram}
use distance_vector_routing.Data.{DataState}
use distance_vector_routing.Data.Receive.{WrittenFile}
use distance_vector_routing.Data.Write.{Message}

-- The bytes of an ASCII text.
abbrev pub codes : String → List ℕ
codes String.[] = []
codes (String.◌∷◌ c s) = code c ∷ codes s

-- The static variables of the three namespaces, with those of src/Router.cpp; `data_write_fds` and
-- `max_fd` stand in the state of the data plane.
pub record Program : Type 0 where
  pub routing : Routing
  pub traffic : DataState
  pub controller_fds : List ℤ
  pub control_socket : ℤ
  pub router_socket : ℤ
  pub data_socket : ℤ
  pub all_fd : List ℤ

-- What the system answers while one descriptor is served: the network, the host, the clock, the
-- address behind a descriptor, the files; for a port, the addresses to bind to, and whether `listen`
-- succeeds; what `accept` returns; and what the two reads of a message give, `none` for a failure.
pub record System : Type 0 where
  pub net : Network
  pub host : Host
  pub now : Timeval
  pub peer : ℤ → ℕ
  pub read_file : List ℕ → Option (List ℕ)
  pub passive : ℕ → Option (List Attempt)
  pub listens : ℕ → Bool
  pub accepted : ℤ → ℤ
  pub first_read : ℤ → Option (List ℕ)
  pub second_read : ℤ → Option (List ℕ)

-- What leaves the program, in order.
pub data Action : Type 0 where
  sends : Message → Action
  sends_to : Datagram → Action
  writes : WrittenFile → Action

-- The program goes on, or it exits with a status.
pub data Turn : Type 0 where
  goes_on : Program → List Action → Turn
  exits : ℕ → List Action → Turn

-- What a later part does comes after what has left already.
abbrev pub after : List Action → Turn → Turn
after sent (goes_on p later) = goes_on p (sent ++ later)
after sent (exits status later) = exits status (sent ++ later)

abbrev continue_turn : Turn → (Program → Option Turn) → Option Turn
continue_turn (goes_on p sent) next = (do t ← next p; some (after sent t))
continue_turn (exits status sent) next = some (exits status sent)

-- One part after another, unless the first one exits or faults.
infixl 5 ◌then_do◌
abbrev pub ◌then_do◌ : Option Turn → (Program → Option Turn) → Option Turn
m then_do next = (do t ← m; continue_turn t next)
