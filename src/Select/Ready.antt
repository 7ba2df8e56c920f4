-- ===== src/Select/Ready.antt =====
-- The descriptors that are watched after one that could be read was served (src/Router.cpp).
use distance_vector_routing.Common.{
  ◌≡◌, ◌∙◌, ◌==◌, Bool, true, false, map, Option, none, some, ◌>>=◌, ℤ, neg_part, Bool-cases,
  Option-cases, inl, inr,
}
use distance_vector_routing.Bytes.{ntohs, load8, load16}
use distance_vector_routing.Routing.Payload.{receive_update}
use distance_vector_routing.Data.Fds.{eq_fd, is_set}
use distance_vector_routing.Data.Fds.Laws.{eq_fd_refl, is_set-remove_fd}
use distance_vector_routing.Data.Fds.Covers.{receive-Covers}
use distance_vector_routing.Data.Receive.{receive as receive_packet}
use distance_vector_routing.Program.{Program, System, Turn, goes_on, exits, writes, ◌then_do◌}
use distance_vector_routing.Program.Ensures.{Ensures, Ensures-after, Ensures-bind}
use distance_vector_routing.Watch.{watch}
use distance_vector_routing.Watch.Bounds.{
  IsWatched, IsWatchedBut, IsWatched-but, watch-IsWatched, unwatch-IsWatched,
}
use distance_vector_routing.Controller.{
  accept, close_controller, with_command, message_type, receive,
}
use distance_vector_routing.Controller.Bounds.{
  with-IsWatched, with_routing-IsWatched, accept-IsWatchedBut, close_controller-IsWatched,
  with_command-IsWatched,
}
use distance_vector_routing.Select.{
  new_data_conn, accept_controller, accept_data, hear, clear_closed, serve_controller,
  with_received, serve_data, read_ready,
}

accept_controller-IsWatched :
    (fd : ℤ) (p : Program) → IsWatched p → Ensures IsWatched (accept_controller fd p)
unfolding accept_controller
accept_controller-IsWatched fd p w =
    Ensures-bind IsWatched (watch fd (accept fd p)) _
      λ p' e. watch-IsWatched fd (accept fd p) p' (accept-IsWatchedBut fd p w) e

new_data_conn-IsWatchedBut :
    (fd : ℤ) (p : Program) → IsWatched p → IsWatchedBut fd (new_data_conn fd p)
unfolding new_data_conn
new_data_conn-IsWatchedBut fd p w = elim (Bool-cases (neg_part fd == 0)) [
  | inr bad ↦ rw bad (IsWatched-but fd p w)
  | inl ok ↦ rw ok (IsWatched-but fd _ (with-IsWatched p p.routing _ w (λ x c. c)))
]

accept_data-IsWatched : (fd : ℤ) (p : Program) → IsWatched p → Ensures IsWatched (accept_data fd p)
unfolding accept_data
accept_data-IsWatched fd p w =
    Ensures-bind IsWatched (watch fd (new_data_conn fd p)) _
      λ p' e. watch-IsWatched fd (new_data_conn fd p) p' (new_data_conn-IsWatchedBut fd p w) e

hear-IsWatched :
    (sys : System) (fd : ℤ) (p : Program) → IsWatched p → Ensures IsWatched (hear sys fd p)
unfolding hear
hear-IsWatched sys fd p w =
    Ensures-bind IsWatched
      (receive_update sys.now (sys.first_read fd) (sys.second_read fd) p.routing) _
      λ st e. with_routing-IsWatched p st w

-- A command that leaves its descriptor watched.
serve_kept :
    (fd : ℤ) (m : Option Turn)
    → Ensures IsWatched m
    → Ensures IsWatched
        ((m >>= λ t. some (t, true)) >>= λ (r : Turn × Bool). some r.0 then_do clear_closed fd r.1)
serve_kept fd none h = tt
serve_kept fd (some (goes_on p sent)) h = h
serve_kept fd (some (exits status sent)) h = tt

-- A connection that was closed is no controller's any more when it is taken out.
serve_controller-IsWatched :
    (sys : System) (fd : ℤ) (p : Program)
    → IsWatched p
    → eq_fd fd p.control_socket ≡ false
    → Ensures IsWatched (serve_controller sys fd p)
unfolding serve_controller receive
serve_controller-IsWatched sys fd p w other = elim (Option-cases (sys.first_read fd)) [
  | inl closed ↦ rw closed (
      unwatch-IsWatched fd (close_controller fd p) (close_controller-IsWatched fd p w)
        (unfold close_controller in other)
        (unfold close_controller in is_set-remove_fd fd fd p.controller_fds ∙ rw (eq_fd_refl fd)))
  | inr (header, read) ↦ rw read (elim (Option-cases (load8 header 4)) [
    | inl bad ↦ rw bad tt
    | inr (code, is_code) ↦ rw is_code (elim (Option-cases (load16 header 6)) [
      | inl bad ↦ rw bad tt
      | inr (len, is_len) ↦ rw is_len (
          serve_kept fd (with_command sys fd (message_type code) (ntohs len) (sys.second_read fd) p)
            (with_command-IsWatched sys fd (message_type code) (ntohs len) (sys.second_read fd) p
              w))
    ])
  ])
]

clear_closed-IsWatched :
    (fd : ℤ) (watched : Bool) (p : Program)
    → IsWatched p
    → eq_fd fd p.control_socket ≡ false
    → is_set fd p.controller_fds ≡ false
    → Ensures IsWatched (clear_closed fd watched p)
clear_closed-IsWatched fd true p w other free = w
clear_closed-IsWatched fd false p w other free = unwatch-IsWatched fd p w other free

serve_data-IsWatched :
    (sys : System) (fd : ℤ) (p : Program)
    → IsWatched p
    → eq_fd fd p.control_socket ≡ false
    → is_set fd p.controller_fds ≡ false
    → Ensures IsWatched (serve_data sys fd p)
unfolding serve_data
serve_data-IsWatched sys fd p w other free =
    Ensures-bind IsWatched
      (receive_packet sys.net fd (sys.first_read fd) (sys.second_read fd) p.routing p.traffic) _
      λ r e.
        let q = with_received p r in
        let kept : IsWatched q = with-IsWatched p r.routing r.state w (
          receive-Covers sys.net fd (sys.first_read fd) (sys.second_read fd) p.routing p.traffic r
            e) in
        Ensures-after IsWatched (map writes r.written) (clear_closed fd r.watched q)
          (clear_closed-IsWatched fd r.watched q kept other free)

pub read_ready-IsWatched :
    (sys : System) (fd : ℤ) (p : Program) → IsWatched p → Ensures IsWatched (read_ready sys fd p)
unfolding read_ready
read_ready-IsWatched sys fd p w = elim (Bool-cases (eq_fd fd p.control_socket)) [
  | inl control ↦ rw control (accept_controller-IsWatched (sys.accepted fd) p w)
  | inr other ↦ rw other (elim (Bool-cases (eq_fd fd p.router_socket)) [
    | inl router ↦ rw router (hear-IsWatched sys fd p w)
    | inr no_router ↦ rw no_router (elim (Bool-cases (eq_fd fd p.data_socket)) [
      | inl incoming ↦ rw incoming (accept_data-IsWatched (sys.accepted fd) p w)
      | inr no_data ↦ rw no_data (elim (Bool-cases (is_set fd p.controller_fds)) [
        | inl controller ↦ rw controller (serve_controller-IsWatched sys fd p w other)
        | inr free ↦ rw free (elim (Bool-cases (is_set fd p.traffic.data_fds)) [
          | inl connection ↦ rw connection (serve_data-IsWatched sys fd p w other free)
          | inr unknown ↦ rw unknown w
        ])
      ])
    ])
  ])
]
