-- ===== src/Select/Accept.antt =====
-- A connection that cannot be accepted.
use distance_vector_routing.Common.{ℕ, ◌≡◌, ◌&&◌, ◌||◌, not, true, none, ℤ, negsuc, arith}
use distance_vector_routing.Data.Fds.{eq_fd}
use distance_vector_routing.Program.{Program, System}
use distance_vector_routing.Watch.{watch}
use distance_vector_routing.Controller.{accept}
use distance_vector_routing.Select.{new_data_conn, accept_controller, accept_data, read_ready}

watch-negative : (n : ℕ) (p : Program) → watch (negsuc n) p ≡ none
unfolding watch
watch-negative n p = ground arith

-- Where `accept` fails on one of the two listening sockets, the program faults in every state: the
-- negative result is put into the set of descriptors.
pub read_ready-accept_fails :
    (sys : System) (fd : ℤ) (p : Program) (n : ℕ)
    → (eq_fd fd p.control_socket || not (eq_fd fd p.router_socket) && eq_fd fd p.data_socket) ≡ true
    → sys.accepted fd ≡ negsuc n
    → read_ready sys fd p ≡ none
unfolding read_ready accept_controller accept_data
read_ready-accept_fails sys fd p n listens fails = rw fails (
    ground (
      arith,
      watch-negative n (accept (negsuc n) p),
      watch-negative n (new_data_conn (negsuc n) p),
    ))
