-- ===== src/Select.antt =====
-- The loop of src/Router.cpp around `select`, with `new_data_conn` of src/data_routing.cpp,
-- `do_bind_listen` of src/controller.cpp and `main` of src/wasifale_assignment3.cpp.
pub mod Ready
pub mod Bounds
pub mod Accept
mod Tests
use Prim.Native.String.{String}
use distance_vector_routing.Common.{
  ℕ, zero, suc, ◌+◌, ◌==◌, Bool, true, false, List, [], ◌∷◌, ◌++◌, map, Option, none, some, ◌>>=◌,
  if◌then◌else◌, ℤ, pos, neg_part, ltb_ℤ, length,
}
use distance_vector_routing.Sockets.{Attempt, Opened, bind_listen_on}
use distance_vector_routing.Routing.{Routing}
use distance_vector_routing.Routing.Payload.{receive_update}
use distance_vector_routing.Routing.Timeout.{Datagram, timeout_handler}
use distance_vector_routing.Data.{DataState}
use distance_vector_routing.Data.Fds.{eq_fd, is_set}
use distance_vector_routing.Data.Receive.{Received, receive as receive_packet}
use distance_vector_routing.Data.Write.{Message, write_handler}
use distance_vector_routing.Program.{
  Program, System, Action, sends, sends_to, writes, Turn, goes_on, exits, ◌then_do◌,
}
use distance_vector_routing.Data.Fds.{fd_setsize}
use distance_vector_routing.Watch.{add_fd, watch, unwatch}
use distance_vector_routing.Controller.{accept, with_routing, sent_updates, receive}

-- A failure, a negative number, is returned too.
unfoldable pub new_data_conn : ℤ → Program → Program
unfolding add_fd
new_data_conn new_data_fd p =
    if neg_part new_data_fd == 0
    then record p {
      traffic = record p.traffic { data_fds = add_fd new_data_fd p.traffic.data_fds };
    }
    else p

-- A connection on one of the two listening sockets is accepted and watched.
accept_controller : ℤ → Program → Option Turn
accept_controller fd p = do p' ← watch fd (accept fd p); some (goes_on p' [])

accept_data : ℤ → Program → Option Turn
accept_data fd p = do p' ← watch fd (new_data_conn fd p); some (goes_on p' [])

hear : System → ℤ → Program → Option Turn
hear sys fd p = do
  st ← receive_update sys.now (sys.first_read fd) (sys.second_read fd) p.routing
  some (goes_on (with_routing p st) [])

-- The descriptor is no longer watched when its connection is closed.
abbrev pub clear_closed : ℤ → Bool → Program → Option Turn
clear_closed fd true p = some (goes_on p [])
clear_closed fd false p = some (goes_on (unwatch fd p) [])

serve_controller : System → ℤ → Program → Option Turn
serve_controller sys fd p = do
  (turn, watched) ← receive sys fd p
  some turn then_do clear_closed fd watched

abbrev pub with_received : Program → Received → Program
with_received p r = record p { routing = r.routing; traffic = r.state }

serve_data : System → ℤ → Program → Option Turn
serve_data sys fd p = do
  r ← receive_packet sys.net fd (sys.first_read fd) (sys.second_read fd) p.routing p.traffic
  some (goes_on (with_received p r) (map writes r.written)) then_do clear_closed fd r.watched

-- A descriptor that can be read.
unfoldable pub read_ready : System → ℤ → Program → Option Turn
unfolding accept_controller accept_data hear serve_controller serve_data
read_ready sys fd p =
    if eq_fd fd p.control_socket
    then accept_controller (sys.accepted fd) p
    else if eq_fd fd p.router_socket
    then hear sys fd p
    else if eq_fd fd p.data_socket
    then accept_data (sys.accepted fd) p
    else if is_set fd p.controller_fds
    then serve_controller sys fd p
    else if is_set fd p.traffic.data_fds
    then serve_data sys fd p
    else some (goes_on p [])

-- A descriptor that can be written.
unfoldable pub write_ready : System → ℤ → Program → Option Turn
write_ready sys fd p = do
  (d, sent) ← write_handler sys.peer fd p.routing.rs.routers p.traffic
  some (goes_on (record p { traffic = d }) (map sends sent))

-- One round of the `for` loop. `reads` and `writable` are the sets that `select` leaves.
unfoldable pub serve : System → List ℤ → List ℤ → ℤ → Program → Option Turn
unfolding read_ready write_ready is_set
serve sys reads writable fd p =
    if is_set fd reads
    then read_ready sys fd p
    else if is_set fd writable
    then write_ready sys fd p
    else some (goes_on p [])

-- The `for` loop from descriptor `i` on; the bound `max_fd` is read in each round. FD_ISSET reads
-- outside the set when the loop reaches FD_SETSIZE, after `n` more rounds.
unfoldable pub serve_from : (ℕ → System) → List ℤ → List ℤ → ℕ → ℕ → Program → Option Turn
unfolding serve
serve_from sys reads writable zero i p =
    if ltb_ℤ p.traffic.max_fd (pos i) then some (goes_on p []) else none
serve_from sys reads writable (suc n) i p =
    let rest =
      serve (sys i) reads writable (pos i) p then_do serve_from sys reads writable n (i + 1) in
    if ltb_ℤ p.traffic.max_fd (pos i) then some (goes_on p []) else rest

-- What `select` returns: an error, a timeout, or the descriptors that are ready.
pub data Selected : Type 0 where
  failed timed_out : Selected
  ready : List ℤ → List ℤ → Selected

-- One round of the `while` loop; `sys i` is what the system answers while `i` is served.
unfoldable pub select_round : (ℕ → System) → Selected → Program → Option Turn
unfolding serve_from
select_round sys failed p = some (goes_on p [])
select_round sys timed_out p = do
  r ← timeout_handler (sys 0).now (sys 0).net p.routing
  some (sent_updates p r)
select_round sys (ready reads writable) p = serve_from sys reads writable fd_setsize 0 p

-- The `while` loop over the rounds that are given.
unfoldable pub select_loop : List ((ℕ → System) × Selected) → Program → Option Turn
unfolding select_round
select_loop [] p = some (goes_on p [])
select_loop ((sys, selected) ∷ rounds) p = select_round sys selected p then_do select_loop rounds

abbrev exit_failure : ℕ
exit_failure = 1

-- The program at its start; the sets are cleared, and the static variables are zero.
abbrev pub started : Program
started = record {
  routing = record {
    self = none;
    rs = record { router_count = 0; update_interval = 0; routers = [] };
    update_counter = 0;
    routing_table = [];
    distance_vectors = [];
  };
  traffic = record {
    data_fds = [];
    stats = [];
    last = none;
    penultimate = none;
    file_data = [];
    send_buffer = [];
    write_fds = [];
    max_fd = pos 0;
  };
  controller_fds = [];
  control_socket = pos 0;
  router_socket = pos 0;
  data_socket = pos 0;
  all_fd = [];
}

-- The program exits where no socket can be bound.
do_bind_listen : System → ℕ → (ℤ → Option Turn) → Option Turn
do_bind_listen sys control_port next =
    let opened = bind_listen_on (sys.passive control_port) (sys.listens control_port) (pos 0) in
    if opened.success then next opened.sock_fd else some (exits exit_failure [])

-- `max_fd` is set to the first descriptor, whatever it was.
abbrev pub start_with : ℤ → Option Turn
start_with control_socket = do
  p ← watch control_socket (record started { control_socket = control_socket })
  some (goes_on (record p { traffic = record p.traffic { max_fd = control_socket } }) [])

-- `Router::start` up to the loop.
unfoldable pub start : System → ℕ → Option Turn
unfolding do_bind_listen
start sys control_port = do_bind_listen sys control_port start_with

-- The port is the text of the second argument, which `getaddrinfo` reads.
unfoldable pub main : System → (String → ℕ) → List String → Option Turn
unfolding start
main sys port_of (name ∷ port ∷ []) = start sys (port_of port)
main sys port_of argv = some (exits exit_failure [])
