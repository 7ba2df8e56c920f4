-- ===== src/Sockets.antt =====
-- `connect_to`, `bind_to`, `bind_listen_on` and `udp_socket` of src/Util.cpp: the walk over the addresses
-- that `getaddrinfo` returns. What the system calls answer for an address is given with it.
pub mod Walk
pub mod Leaks
mod Tests
use distance_vector_routing.Common.{
  ℤ, is_error, Bool, true, false, not, ◌&&◌, ◌||◌, List, [], ◌∷◌, Option, none, some, if◌then◌else◌,
}

-- One address: the result of `socket`, and whether `setsockopt` and then `connect` (or `bind`)
-- succeed on it.
pub record Attempt : Type 0 where
  pub socket_fd : ℤ
  pub reuse_ok : Bool
  pub joined : Bool

-- `*sock_fd` and the return value, with the descriptors that were closed, the last one first.
pub record Opened : Type 0 where
  pub sock_fd : ℤ
  pub success : Bool
  pub closed : List ℤ

-- An address is left behind: without a socket there is nothing to close.
close_failed : Attempt → List ℤ → List ℤ
close_failed a closed = if is_error a.socket_fd then closed else a.socket_fd ∷ closed

unfoldable pub walk : List Attempt → ℤ → List ℤ → Opened
unfolding close_failed
walk [] fd closed = record { sock_fd = fd; success = false; closed = closed }
walk (a ∷ as') fd closed =
    let rest = walk as' a.socket_fd (close_failed a closed) in
    if is_error a.socket_fd || not a.reuse_ok || not a.joined
    then rest
    else record { sock_fd = a.socket_fd; success = true; closed = closed }

-- `none`: `getaddrinfo` fails, and `*sock_fd` is not written.
unfoldable pub connect_to : Option (List Attempt) → ℤ → Opened
unfolding walk
connect_to none fd = record { sock_fd = fd; success = false; closed = [] }
connect_to (some result) fd = walk result fd []

unfoldable pub bind_to : Option (List Attempt) → ℤ → Opened
unfolding walk
bind_to none fd = record { sock_fd = fd; success = false; closed = [] }
bind_to (some result) fd = walk result fd []

-- A bound socket is then made to listen; if that fails, it stays open.
unfoldable pub bind_listen_on : Option (List Attempt) → Bool → ℤ → Opened
unfolding walk
bind_listen_on none listens fd = record { sock_fd = fd; success = false; closed = [] }
bind_listen_on (some result) listens fd =
    let bound = walk result fd [] in
    if bound.success && not listens then record bound { success = false } else bound

-- The walk that tries `socket` alone.
udp_walk : List ℤ → ℤ → Opened
udp_walk [] fd = record { sock_fd = fd; success = false; closed = [] }
udp_walk (s ∷ ss) fd =
    let rest = udp_walk ss s in
    if is_error s then rest else record { sock_fd = s; success = true; closed = [] }

unfoldable pub udp_socket : Option (List ℤ) → ℤ → Opened
unfolding udp_walk
udp_socket none fd = record { sock_fd = fd; success = false; closed = [] }
udp_socket (some result) fd = udp_walk result fd
