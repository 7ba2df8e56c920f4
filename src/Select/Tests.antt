-- ===== src/Select/Tests.antt =====
-- The program from its start, and a connection that cannot be accepted.
use distance_vector_routing.Common.{◌≡◌, refl, [], ◌∷◌, none, pos, negsuc}
use distance_vector_routing.Program.{Program, System, ◌then_do◌}
use distance_vector_routing.Program.Ensures.{Ensures}
use distance_vector_routing.Program.Samples.{system}
use distance_vector_routing.Watch.Bounds.{IsWatched}
use distance_vector_routing.Select.{
  failed, timed_out, ready, select_loop, started, start, read_ready,
}
use distance_vector_routing.Select.Bounds.{select_loop-start-IsWatched}
use distance_vector_routing.Select.Accept.{read_ready-accept_fails}

-- A controller connects, and leaves again.
select_loop-start-IsWatched_example : Ensures IsWatched (
    start system 4000
    then_do select_loop (
        ((λ i. system), failed)
        ∷ ((λ i. system), ready (pos 3 ∷ []) [])
        ∷ ((λ i. system), ready (pos 7 ∷ []) [])
        ∷ ((λ i. system), timed_out)
        ∷ []))
select_loop-start-IsWatched_example = select_loop-start-IsWatched system 4000 (
    ((λ i. system), failed)
    ∷ ((λ i. system), ready (pos 3 ∷ []) [])
    ∷ ((λ i. system), ready (pos 7 ∷ []) [])
    ∷ ((λ i. system), timed_out)
    ∷ [])

-- No more descriptors are to be had.
abbrev exhausted : System
exhausted = record system { accepted = λ fd. negsuc 0 }

abbrev listening : Program
listening = record started { control_socket = pos 3; all_fd = pos 3 ∷ [] }

read_ready-accept_fails_example : read_ready exhausted (pos 3) listening ≡ none
read_ready-accept_fails_example = read_ready-accept_fails exhausted (pos 3) listening 0 refl refl
