-- ===== src/Controller/Bounds.antt =====
-- The descriptors that are watched after a request of a controller (src/controller.cpp).
use distance_vector_routing.Common.{
  ℕ, zero, suc, ◌==◌, List, [], ◌∷◌, Option, none, some, ℤ, pos, neg_part, Bool-cases, inl, inr,
  arith,
}
use distance_vector_routing.Sockets.{bind_to, bind_listen_on}
use distance_vector_routing.Routing.{Routing, Router, get_self}
use distance_vector_routing.Routing.Init.{parse_init}
use distance_vector_routing.Routing.Timeout.{send_routing_updates}
use distance_vector_routing.Routing.Control.{
  MessageType, author, init, routing_table, update, crash, sendfile, sendfile_stats,
  last_data_packet, penultimate_data_packet, create_response_header, routing_table_response,
  update_cost,
}
use distance_vector_routing.Data.{DataState}
use distance_vector_routing.Data.Fds.Laws.{is_set-remove_fd, Covers}
use distance_vector_routing.Data.Fds.Covers.{sendfile-Covers, send_stats-Covers}
use distance_vector_routing.Data.Sendfile.{sendfile as send_file}
use distance_vector_routing.Data.Reports.{send_stats, last_data_pkt, penultimate_data_pkt}
use distance_vector_routing.Program.{Program, System, Turn, goes_on, exits}
use distance_vector_routing.Program.Ensures.{Ensures, Ensures-bind, Ensures-then_do}
use distance_vector_routing.Watch.{set_router_socket, set_data_socket}
use distance_vector_routing.Watch.Bounds.{
  IsWatched, IsWatchedBut, IsWatched-but, is_set-add_fd, set_router_socket-IsWatched,
  set_data_socket-IsWatched,
}
use distance_vector_routing.Controller.{
  accept, close_controller, with_routing, reply, replies, open_router_socket, open_data_socket,
  init_response, answer_init, answer, with_command, free_again,
}

-- Other routes and a data plane that covers as much change nothing.
pub with-IsWatched :
    (p : Program) (st : Routing) (d : DataState)
    → IsWatched p
    → Covers p.traffic d
    → IsWatched (record p { routing = st; traffic = d })
with-IsWatched p st d w c = record {
  bounded = λ x h. c x (w.bounded x h);
  listening = w.listening;
  controllers = w.controllers;
}

pub with_routing-IsWatched :
    (p : Program) (st : Routing) → IsWatched p → IsWatched (with_routing p st)
with_routing-IsWatched p st w = with-IsWatched p st p.traffic w (λ x c. c)

pub accept-IsWatchedBut : (fd : ℤ) (p : Program) → IsWatched p → IsWatchedBut fd (accept fd p)
unfolding accept
accept-IsWatchedBut fd p w = elim (Bool-cases (neg_part fd == 0)) [
  | inr failed ↦ rw failed (IsWatched-but fd p w)
  | inl ok ↦ rw ok (record {
    bounded = w.bounded;
    listening = ground (arith, w.listening);
    controllers = λ x h. ground (arith, is_set-add_fd x fd p.controller_fds, w.controllers x);
  })
]

pub close_controller-IsWatched :
    (fd : ℤ) (p : Program) → IsWatched p → IsWatched (close_controller fd p)
unfolding close_controller
close_controller-IsWatched fd p w = record {
  bounded = w.bounded;
  listening = w.listening;
  controllers = λ x h. w.controllers x (ground (arith, is_set-remove_fd x fd p.controller_fds));
}

open_router_socket-IsWatched :
    (sys : System) (self : Router) (p : Program)
    → IsWatched p
    → Ensures IsWatched (open_router_socket sys self p)
unfolding open_router_socket
open_router_socket-IsWatched sys self p w =
    elim (Bool-cases (bind_to (sys.passive self.router_port) (pos 0)).success) [
      | inr failed ↦ rw failed w
      | inl ok ↦ rw ok (
          Ensures-bind IsWatched (set_router_socket _ p) _ λ p' e.
            Ensures-bind IsWatched (send_routing_updates sys.net p'.routing) _
              λ r sent. with_routing-IsWatched p' r.0 (set_router_socket-IsWatched _ p p' w e))
    ]

open_data_socket-IsWatched :
    (sys : System) (self : Router) (p : Program)
    → IsWatched p
    → Ensures IsWatched (open_data_socket sys self p)
unfolding open_data_socket
open_data_socket-IsWatched sys self p w =
    elim (Bool-cases
      (bind_listen_on (sys.passive self.data_port) (sys.listens self.data_port) (pos 0)).success) [
        | inr failed ↦ rw failed w
        | inl ok ↦ rw ok (
            Ensures-bind IsWatched (set_data_socket _ p) _
              λ p' e. set_data_socket-IsWatched _ p p' w e)
      ]

init_response-IsWatched :
    (sys : System) (fd : ℤ) (payload : List ℕ) (p : Program)
    → IsWatched p
    → Ensures IsWatched (init_response sys fd payload p)
unfolding init_response
init_response-IsWatched sys fd payload p w =
    Ensures-then_do IsWatched IsWatched
      (some (goes_on p (reply fd (create_response_header (sys.peer fd) init 0 0) ∷ []))) _ w
      λ p w. Ensures-bind IsWatched (parse_init sys.host payload p.routing) _ λ st e1.
        Ensures-bind IsWatched (get_self st) _ λ self e2.
          Ensures-then_do IsWatched IsWatched (open_router_socket sys self (with_routing p st)) _
            (open_router_socket-IsWatched sys self (with_routing p st)
              (with_routing-IsWatched p st w))
            (open_data_socket-IsWatched sys self)

replies-IsWatched :
    (fd : ℤ) (bytes : Option (List ℕ)) (p : Program)
    → IsWatched p
    → Ensures IsWatched (some (replies fd bytes p))
replies-IsWatched fd none p w = w
replies-IsWatched fd (some bytes) p w = w

answer_init-IsWatched :
    (sys : System) (fd : ℤ) (self : Option ℕ) (payload : Option (List ℕ)) (p : Program)
    → IsWatched p
    → Ensures IsWatched (answer_init sys fd self payload p)
answer_init-IsWatched sys fd (some i) payload p w = w
answer_init-IsWatched sys fd none none p w = tt
answer_init-IsWatched sys fd none (some bytes) p w = init_response-IsWatched sys fd bytes p w

answer-IsWatched :
    (sys : System) (fd : ℤ) (t : Option MessageType) (payload : Option (List ℕ)) (p : Program)
    → IsWatched p
    → Ensures IsWatched (answer sys fd t payload p)
unfolding answer
answer-IsWatched sys fd none payload p w = w
answer-IsWatched sys fd (some author) payload p w = w
answer-IsWatched sys fd (some init) payload p w =
    answer_init-IsWatched sys fd p.routing.self payload p w
answer-IsWatched sys fd (some routing_table) payload p w =
    Ensures-bind IsWatched (routing_table_response (sys.peer fd) p.routing) _ λ bytes e. w
answer-IsWatched sys fd (some update) payload p w = Ensures-bind IsWatched payload _ λ bytes e.
    Ensures-bind IsWatched (update_cost (sys.peer fd) bytes p.routing) _
      λ r e1. with_routing-IsWatched p r.0 w
answer-IsWatched sys fd (some crash) payload p w = tt
answer-IsWatched sys fd (some sendfile) payload p w = Ensures-bind IsWatched payload _ λ bytes e.
    Ensures-bind IsWatched (send_file sys.read_file sys.net fd bytes (p.routing, p.traffic)) _
      λ r e1.
        with-IsWatched p r.0 r.1 w
          (sendfile-Covers sys.read_file sys.net fd bytes p.routing p.traffic r e1)
answer-IsWatched sys fd (some sendfile_stats) payload p w =
    Ensures-bind IsWatched payload _ λ bytes e.
      Ensures-bind IsWatched (send_stats (sys.peer fd) bytes p.traffic) _ λ r e1.
        replies-IsWatched fd r.0 (record p { traffic = r.1 })
          (with-IsWatched p p.routing r.1 w (send_stats-Covers (sys.peer fd) bytes p.traffic r e1))
answer-IsWatched sys fd (some last_data_packet) payload p w =
    Ensures-bind IsWatched (last_data_pkt (sys.peer fd) p.traffic) _
      λ bytes e. replies-IsWatched fd bytes p w
answer-IsWatched sys fd (some penultimate_data_packet) payload p w =
    Ensures-bind IsWatched (penultimate_data_pkt (sys.peer fd) p.traffic) _
      λ bytes e. replies-IsWatched fd bytes p w

free_again-IsWatched : (t : Turn) → Ensures IsWatched (free_again t)
free_again-IsWatched (goes_on p sent) = tt
free_again-IsWatched (exits status sent) = tt

pub with_command-IsWatched :
    (sys : System) (fd : ℤ) (t : Option MessageType) (n : ℕ) (payload : Option (List ℕ))
    (p : Program)
    → IsWatched p
    → Ensures IsWatched (with_command sys fd t n payload p)
with_command-IsWatched sys fd t zero payload p w = answer-IsWatched sys fd t none p w
with_command-IsWatched sys fd t (suc n) (some bytes) p w =
    answer-IsWatched sys fd t (some bytes) p w
with_command-IsWatched sys fd t (suc n) none p w =
    Ensures-bind IsWatched (answer sys fd t none (close_controller fd p)) free_again
      λ turn e. free_again-IsWatched turn
