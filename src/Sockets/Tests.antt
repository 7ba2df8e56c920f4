-- ===== src/Sockets/Tests.antt =====
-- Two addresses, of which the first refuses.
use distance_vector_routing.Common.{pos, true, false, [], ◌∷◌, List, some, ◌≡◌, refl, if◌then◌else◌}
use distance_vector_routing.Sockets.{Attempt, bind_listen_on, connect_to, walk}
use distance_vector_routing.Sockets.Leaks.{
  some_works, opened_from, connect_to-opened_from, bind_listen_on-leak,
}

abbrev two_addresses : List Attempt
two_addresses =
    record { socket_fd = pos 4; reuse_ok = true; joined = false }
    ∷ record { socket_fd = pos 5; reuse_ok = true; joined = true }
    ∷ []

connect_to-opened_from_example :
    ((connect_to (some two_addresses) (pos 0)).success ≡ some_works two_addresses)
    × ((if some_works two_addresses
          then (connect_to (some two_addresses) (pos 0)).sock_fd
            ∷ (connect_to (some two_addresses) (pos 0)).closed
          else (connect_to (some two_addresses) (pos 0)).closed)
        ≡ opened_from two_addresses [])
connect_to-opened_from_example = connect_to-opened_from two_addresses (pos 0)

bind_listen_on-leak_example :
    ((bind_listen_on (some two_addresses) false (pos 0)).success ≡ false)
    × (opened_from two_addresses []
        ≡ (bind_listen_on (some two_addresses) false (pos 0)).sock_fd
          ∷ (bind_listen_on (some two_addresses) false (pos 0)).closed)
bind_listen_on-leak_example =
    bind_listen_on-leak two_addresses (pos 0) (unfold bind_listen_on walk in refl)
