-- ===== src/Sockets/Walk.antt =====
-- Which descriptor the walk over the addresses leaves behind.
use distance_vector_routing.Common.{ℤ, is_zero, false, List, [], ◌∷◌, some, ◌≡◌, arith, All}
use distance_vector_routing.Sockets.{Attempt, walk, close_failed, connect_to}

-- The system hands out no descriptor 0, which stands for the standard input.
pub record NonZero (a : Attempt) : Type 0 where
  pub nonzero : is_zero a.socket_fd ≡ false

walk-nonzero :
    (as' : List Attempt) (fd : ℤ) (closed : List ℤ)
    → All NonZero as'
    → is_zero fd ≡ false
    → is_zero (walk as' fd closed).sock_fd ≡ false
unfolding walk
walk-nonzero [] fd closed h e = e
walk-nonzero (a ∷ as') fd closed h e =
    ground (arith, walk-nonzero as' a.socket_fd (close_failed a closed) h.1 h.0.nonzero)

-- Once `getaddrinfo` finds an address, the caller's descriptor is overwritten with one that is not
-- 0, whether the walk succeeds or fails.
pub connect_to-nonzero :
    (a : Attempt) (as' : List Attempt) (fd : ℤ)
    → All NonZero (a ∷ as')
    → is_zero (connect_to (some (a ∷ as')) fd).sock_fd ≡ false
unfolding connect_to walk
connect_to-nonzero a as' fd h =
    ground (arith, walk-nonzero as' a.socket_fd (close_failed a []) h.1 h.0.nonzero)
