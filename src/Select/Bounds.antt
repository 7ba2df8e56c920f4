-- ===== src/Select/Bounds.antt =====
-- The descriptors that the loop of src/Router.cpp watches, and those that it reaches.
use distance_vector_routing.Common.{
  ℕ, zero, suc, ◌+◌, refl, List, [], ◌∷◌, ℤ, pos, ltb_ℤ, Bool-cases, inl, inr,
}
use distance_vector_routing.Sockets.{bind_listen_on}
use distance_vector_routing.Routing.Timeout.{timeout_handler}
use distance_vector_routing.Data.Fds.{is_set}
use distance_vector_routing.Data.Fds.Covers.{write_handler-Covers}
use distance_vector_routing.Data.Write.{write_handler}
use distance_vector_routing.Program.{Program, System, ◌then_do◌}
use distance_vector_routing.Program.Ensures.{Ensures, Ensures-bind, Ensures-then_do}
use distance_vector_routing.Data.Fds.{fd_setsize}
use distance_vector_routing.Watch.{watch}
use distance_vector_routing.Watch.Bounds.{IsWatched, watch_first-IsWatched}
use distance_vector_routing.Controller.Bounds.{with-IsWatched, with_routing-IsWatched}
use distance_vector_routing.Select.{
  write_ready, serve, serve_from, Selected, failed, timed_out, ready, select_round, select_loop,
  started, start,
}
use distance_vector_routing.Select.Ready.{read_ready-IsWatched}

write_ready-IsWatched :
    (sys : System) (fd : ℤ) (p : Program) → IsWatched p → Ensures IsWatched (write_ready sys fd p)
unfolding write_ready
write_ready-IsWatched sys fd p w =
    Ensures-bind IsWatched (write_handler sys.peer fd p.routing.rs.routers p.traffic) _ λ r e.
      with-IsWatched p p.routing r.0 w
        (write_handler-Covers sys.peer fd p.routing.rs.routers p.traffic r e)

serve-IsWatched :
    (sys : System) (reads writable : List ℤ) (fd : ℤ) (p : Program)
    → IsWatched p
    → Ensures IsWatched (serve sys reads writable fd p)
unfolding serve
serve-IsWatched sys reads writable fd p w = elim (Bool-cases (is_set fd reads)) [
  | inl can_read ↦ rw can_read (read_ready-IsWatched sys fd p w)
  | inr no_read ↦ rw no_read (elim (Bool-cases (is_set fd writable)) [
    | inl can_write ↦ rw can_write (write_ready-IsWatched sys fd p w)
    | inr idle ↦ rw idle w
  ])
]

serve_from-IsWatched :
    (sys : ℕ → System) (reads writable : List ℤ) (n i : ℕ) (p : Program)
    → IsWatched p
    → Ensures IsWatched (serve_from sys reads writable n i p)
unfolding serve_from
serve_from-IsWatched sys reads writable zero i p w =
    elim (Bool-cases (ltb_ℤ p.traffic.max_fd (pos i))) [
      | inl end ↦ rw end w
      | inr beyond ↦ rw beyond tt
    ]
serve_from-IsWatched sys reads writable (suc n) i p w =
    elim (Bool-cases (ltb_ℤ p.traffic.max_fd (pos i))) [
      | inl end ↦ rw end w
      | inr within ↦ rw within (
          Ensures-then_do IsWatched IsWatched (serve (sys i) reads writable (pos i) p)
            (serve_from sys reads writable n (i + 1))
            (serve-IsWatched (sys i) reads writable (pos i) p w)
            (serve_from-IsWatched sys reads writable n (i + 1)))
    ]

-- A round of `select`, whatever it returns and whatever the system answers, ends the program, faults,
-- or leaves no watched descriptor above `max_fd`, and the listening socket of the controllers and
-- every connection of a controller watched.
pub select_round-IsWatched :
    (sys : ℕ → System) (selected : Selected) (p : Program)
    → IsWatched p
    → Ensures IsWatched (select_round sys selected p)
unfolding select_round
select_round-IsWatched sys failed p w = w
select_round-IsWatched sys timed_out p w =
    Ensures-bind IsWatched (timeout_handler (sys 0).now (sys 0).net p.routing) _
      λ r e. with_routing-IsWatched p r.0 w
select_round-IsWatched sys (ready reads writable) p w =
    serve_from-IsWatched sys reads writable fd_setsize 0 p w

select_loop-IsWatched :
    (rounds : List ((ℕ → System) × Selected)) (p : Program)
    → IsWatched p
    → Ensures IsWatched (select_loop rounds p)
unfolding select_loop
select_loop-IsWatched [] p w = w
select_loop-IsWatched ((sys, selected) ∷ rounds) p w =
    Ensures-then_do IsWatched IsWatched (select_round sys selected p) (select_loop rounds)
      (select_round-IsWatched sys selected p w) (select_loop-IsWatched rounds)

-- The first descriptor of all is watched, and `max_fd` is set to it.
start-IsWatched : (sys : System) (control_port : ℕ) → Ensures IsWatched (start sys control_port)
unfolding start
start-IsWatched sys control_port =
    let opened = bind_listen_on (sys.passive control_port) (sys.listens control_port) (pos 0) in
    elim (Bool-cases opened.success) [
      | inr closed ↦ rw closed tt
      | inl listening ↦ rw listening (
          Ensures-bind IsWatched
            (watch opened.sock_fd (record started { control_socket = opened.sock_fd })) _
            λ p e. watch_first-IsWatched opened.sock_fd started p refl refl e)
    ]

-- From its start on, whatever the system answers, for as many rounds as the program goes on without
-- a fault: no watched descriptor lies above `max_fd`, so that the loop reaches it, and the listening
-- socket of the controllers and every connection of a controller is watched.
pub select_loop-start-IsWatched :
    (sys : System) (control_port : ℕ) (rounds : List ((ℕ → System) × Selected))
    → Ensures IsWatched (start sys control_port then_do select_loop rounds)
select_loop-start-IsWatched sys control_port rounds =
    Ensures-then_do IsWatched IsWatched (start sys control_port) (select_loop rounds)
      (start-IsWatched sys control_port) (select_loop-IsWatched rounds)
