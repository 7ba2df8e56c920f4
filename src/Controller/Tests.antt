-- ===== src/Controller/Tests.antt =====
-- Requests before INIT, after it, and cut short.
use distance_vector_routing.Common.{
  ℕ, ◌≡◌, refl, List, [], ◌∷◌, true, none, some, ◌==◌, if◌then◌else◌, pos,
}
use distance_vector_routing.Bytes.{ntohs, load8, load16}
use distance_vector_routing.Routing.Samples.{sample}
use distance_vector_routing.Data.Samples.{quiet}
use distance_vector_routing.Program.{Program, System, goes_on}
use distance_vector_routing.Program.Samples.{system}
use distance_vector_routing.Controller.{crash_now, receive}
use distance_vector_routing.Controller.Requests.{
  IsHeader, receive-unread_payload, receive-second_init,
}

-- UPDATE with four bytes of payload, and INIT with as many.
abbrev update_header : List ℕ
update_header = 0 ∷ 0 ∷ 0 ∷ 0 ∷ 3 ∷ 0 ∷ 0 ∷ 4 ∷ []

abbrev init_header : List ℕ
init_header = 0 ∷ 0 ∷ 0 ∷ 0 ∷ 1 ∷ 0 ∷ 0 ∷ 4 ∷ []

update_header-IsHeader : IsHeader update_header 3 4
unfolding load8 load16 ntohs
update_header-IsHeader = record { has_code = refl; has_len = (1024, refl, refl) }

init_header-IsHeader : IsHeader init_header 1 4
unfolding load8 load16 ntohs
init_header-IsHeader = record { has_code = refl; has_len = (1024, refl, refl) }

abbrev set_up : Program
set_up = record {
  routing = sample;
  traffic = quiet;
  controller_fds = pos 7 ∷ [];
  control_socket = pos 3;
  router_socket = pos 4;
  data_socket = pos 5;
  all_fd = pos 3 ∷ pos 4 ∷ pos 5 ∷ pos 7 ∷ pos 9 ∷ [];
}

abbrev cut_short : System
cut_short = record system { first_read = λ fd. some update_header }

receive-unread_payload_example :
    receive cut_short (pos 7) set_up
    ≡ (if 3 == 4 then some (crash_now cut_short (pos 7), true) else none)
receive-unread_payload_example =
    receive-unread_payload cut_short (pos 7) set_up update_header 3 3 refl update_header-IsHeader
      refl

abbrev repeated : System
repeated = record system {
  first_read = λ fd. some init_header;
  second_read = λ fd. some (0 ∷ 0 ∷ 0 ∷ 2 ∷ []);
}

second_init-passed_over : receive repeated (pos 7) set_up ≡ some (goes_on set_up [], true)
second_init-passed_over =
    receive-second_init repeated (pos 7) set_up init_header (0 ∷ 0 ∷ 0 ∷ 2 ∷ []) 4 0 refl refl
      init_header-IsHeader refl
