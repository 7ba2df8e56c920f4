-- ===== src/Controller.antt =====
-- src/controller.cpp, with `author_response` of src/author.cpp: the requests of the controllers.
pub mod Bounds
pub mod Requests
mod Tests
use Prim.Native.String.{String}
use distance_vector_routing.Common.{
  ℕ, zero, suc, ◌%◌, ◌++◌, Bool, true, false, List, [], ◌∷◌, map, Option, none, some, ◌>>=◌, ◌==◌,
  if◌then◌else◌, ℤ, pos, negsuc, neg_part, length,
}
use distance_vector_routing.Bytes.{ntohs, load8, load16}
use distance_vector_routing.Sockets.{Attempt, Opened, bind_to, bind_listen_on}
use distance_vector_routing.Routing.{Routing, Router, get_self}
use distance_vector_routing.Routing.Init.{parse_init}
use distance_vector_routing.Routing.Timeout.{Datagram, send_routing_updates}
use distance_vector_routing.Routing.Control.{
  MessageType, author, init, routing_table, update, crash, sendfile, sendfile_stats,
  last_data_packet, penultimate_data_packet, create_response_header, routing_table_response,
  update_cost,
}
use distance_vector_routing.Data.{DataState}
use distance_vector_routing.Data.Fds.{is_set, remove_fd}
use distance_vector_routing.Data.Sendfile.{sendfile as send_file}
use distance_vector_routing.Data.Reports.{send_stats, last_data_pkt, penultimate_data_pkt}
use distance_vector_routing.Data.Write.{Message}
use distance_vector_routing.Program.{
  codes, Program, System, Action, sends, sends_to, Turn, goes_on, exits, ◌then_do◌,
}
use distance_vector_routing.Watch.{add_fd, set_router_socket, set_data_socket}

-- `accept`: a failure, a negative number, is returned too.
unfoldable pub accept : ℤ → Program → Program
unfolding add_fd
accept new_controller_fd p =
    if neg_part new_controller_fd == 0
    then record p { controller_fds = add_fd new_controller_fd p.controller_fds }
    else p

unfoldable pub close_controller : ℤ → Program → Program
unfolding remove_fd
close_controller fd p = record p { controller_fds = remove_fd fd p.controller_fds }

-- AUTHOR_STATEMENT.
abbrev author_statement : String
author_statement = "I, wasifale, have read and understood the course academic integrity policy."

unfoldable pub author_response : ℕ → List ℕ
author_response peer =
    create_response_header peer author 0 (length (codes author_statement)) ++ codes author_statement

abbrev pub with_routing : Program → Routing → Program
with_routing p st = record p { routing = st }

abbrev pub reply : ℤ → List ℕ → Action
reply fd bytes = sends (record { fd = fd; bytes = bytes })

-- What does not close: the result of a request that only replies.
abbrev pub replies : ℤ → Option (List ℕ) → Program → Turn
replies fd none p = goes_on p []
replies fd (some bytes) p = goes_on p (reply fd bytes ∷ [])

abbrev pub sent_updates : Program → Routing × List Datagram → Turn
sent_updates p (st, sent) = goes_on (with_routing p st) (map sends_to sent)

-- The socket for the updates, where one can be bound; the first updates leave then.
open_router_socket : System → Router → Program → Option Turn
open_router_socket sys self p =
    let opened = bind_to (sys.passive self.router_port) (pos 0) in
    if opened.success
    then (do
      p' ← set_router_socket opened.sock_fd p
      r ← send_routing_updates sys.net p'.routing
      some (sent_updates p' r))
    else some (goes_on p [])

open_data_socket : System → Router → Program → Option Turn
open_data_socket sys self p =
    let opened = bind_listen_on (sys.passive self.data_port) (sys.listens self.data_port) (pos 0) in
    if opened.success
    then (do p' ← set_data_socket opened.sock_fd p; some (goes_on p' []))
    else some (goes_on p [])

-- The reply leaves first. `self` is dereferenced.
unfoldable pub init_response : System → ℤ → List ℕ → Program → Option Turn
unfolding open_router_socket open_data_socket
init_response sys fd payload p =
    some (goes_on p (reply fd (create_response_header (sys.peer fd) init 0 0) ∷ [])) then_do λ p.
    (do
      st ← parse_init sys.host payload p.routing
      self ← get_self st
      open_router_socket sys self (with_routing p st) then_do open_data_socket sys self)

abbrev exit_success : ℕ
exit_success = 0

unfoldable pub crash_now : System → ℤ → Turn
crash_now sys fd =
    exits exit_success (reply fd (create_response_header (sys.peer fd) crash 0 0) ∷ [])

-- `static_cast<message_type>`; the `switch` passes other codes over.
abbrev pub message_type : ℕ → Option MessageType
message_type code =
    if code == 0
    then some author
    else if code == 1
    then some init
    else if code == 2
    then some routing_table
    else if code == 3
    then some update
    else if code == 4
    then some crash
    else if code == 5
    then some sendfile
    else if code == 6
    then some sendfile_stats
    else if code == 7
    then some last_data_packet
    else if code == 8
    then some penultimate_data_packet
    else none

-- INIT counts once.
abbrev pub answer_init : System → ℤ → Option ℕ → Option (List ℕ) → Program → Option Turn
answer_init sys fd none payload p = (do bytes ← payload; init_response sys fd bytes p)
answer_init sys fd (some i) payload p = some (goes_on p [])

abbrev pub updated : ℤ → Program → Routing × List ℕ → Turn
updated fd p (st, bytes) = goes_on (with_routing p st) (reply fd bytes ∷ [])

abbrev pub sent_file : Program → Routing × DataState → Turn
sent_file p (st, d) = goes_on (record p { routing = st; traffic = d }) []

abbrev pub reported : ℤ → Program → Option (List ℕ) × DataState → Turn
reported fd p (bytes, d) = replies fd bytes (record p { traffic = d })

-- The cases of the `switch`. `payload` is what the pointer to the payload is good for: `none` where
-- it was never set, or is freed already; using it then is a fault.
unfoldable pub answer : System → ℤ → Option MessageType → Option (List ℕ) → Program → Option Turn
unfolding author_response crash_now
answer sys fd (some author) payload p = some (replies fd (some (author_response (sys.peer fd))) p)
answer sys fd (some init) payload p = answer_init sys fd p.routing.self payload p
answer sys fd (some routing_table) payload p = do
  bytes ← routing_table_response (sys.peer fd) p.routing
  some (replies fd (some bytes) p)
answer sys fd (some update) payload p = do
  bytes ← payload
  r ← update_cost (sys.peer fd) bytes p.routing
  some (updated fd p r)
answer sys fd (some crash) payload p = some (crash_now sys fd)
answer sys fd (some sendfile) payload p = do
  bytes ← payload
  r ← send_file sys.read_file sys.net fd bytes (p.routing, p.traffic)
  some (sent_file p r)
answer sys fd (some sendfile_stats) payload p = do
  bytes ← payload
  r ← send_stats (sys.peer fd) bytes p.traffic
  some (reported fd p r)
answer sys fd (some last_data_packet) payload p = do
  bytes ← last_data_pkt (sys.peer fd) p.traffic
  some (replies fd bytes p)
answer sys fd (some penultimate_data_packet) payload p = do
  bytes ← penultimate_data_pkt (sys.peer fd) p.traffic
  some (replies fd bytes p)
answer sys fd none payload p = some (goes_on p [])

-- The payload that could not be read was freed before, and `free` is called on it once more.
abbrev pub free_again : Turn → Option Turn
free_again (goes_on p sent) = none
free_again (exits status sent) = some (exits status sent)

-- With the payload that is read, or not.
abbrev pub with_command :
    System → ℤ → Option MessageType → ℕ → Option (List ℕ) → Program → Option Turn
with_command sys fd t zero payload p = answer sys fd t none p
with_command sys fd t (suc n) (some bytes) p = answer sys fd t (some bytes) p
with_command sys fd t (suc n) none p = (do
  turn ← answer sys fd t none (close_controller fd p)
  free_again turn)

abbrev pub receive_command : System → ℤ → Program → Option (List ℕ) → Option (Turn × Bool)
receive_command sys fd p none = some (goes_on (close_controller fd p) [], false)
receive_command sys fd p (some header) = do
  control_code ← load8 header 4
  payload_len ← load16 header 6
  turn ← with_command sys fd (message_type control_code) (ntohs payload_len) (sys.second_read fd) p
  some (turn, true)

-- The turn, and the return value: whether the descriptor is still watched.
unfoldable pub receive : System → ℤ → Program → Option (Turn × Bool)
unfolding answer close_controller
receive sys fd p = receive_command sys fd p (sys.first_read fd)
