-- ===== src/Controller/Requests.antt =====
-- Which requests the program cannot take, and which it passes over.
use distance_vector_routing.Common.{
  ℕ, zero, suc, ◌≡◌, refl, ◌∙◌, ◌==◌, Bool, true, false, List, [], Option, none, some, ◌>>=◌, ℤ,
  if◌then◌else◌, arith,
}
use distance_vector_routing.Bytes.{ntohs, load8, load16}
use distance_vector_routing.Routing.Control.{
  MessageType, author, init, routing_table, update, crash, sendfile, sendfile_stats,
  last_data_packet, penultimate_data_packet, routing_table_response,
}
use distance_vector_routing.Data.Reports.{last_data_pkt, penultimate_data_pkt}
use distance_vector_routing.Program.{Program, System, goes_on}
use distance_vector_routing.Controller.{
  close_controller, crash_now, message_type, replies, answer_init, answer, free_again, with_command,
  receive,
}

-- The header of a command: its code, and the length of its payload.
pub record IsHeader (header : List ℕ) (code len : ℕ) : Type 0 where
  pub has_code : load8 header 4 ≡ some code
  pub has_len : (raw : ℕ) × (load16 header 6 ≡ some raw) × (ntohs raw ≡ len)

receive-with_command :
    (sys : System) (fd : ℤ) (p : Program) (header : List ℕ) (code len : ℕ)
    → sys.first_read fd ≡ some header
    → IsHeader header code len
    → receive sys fd p ≡ (
        with_command sys fd (message_type code) len (sys.second_read fd) p >>= λ turn.
        some (turn, true))
unfolding receive
receive-with_command sys fd p header code len read h =
    let (raw, loaded, is_len) = h.has_len in rw (read, h.has_code, loaded, is_len)

abbrev is_crash : Option MessageType → Bool
is_crash (some crash) = true
is_crash _ = false

free-replies :
    (fd : ℤ) (p : Program) (m : Option (Option (List ℕ)))
    → ((m >>= λ bytes. some (replies fd bytes p)) >>= free_again) ≡ none
free-replies fd p none = refl
free-replies fd p (some none) = refl
free-replies fd p (some (some bytes)) = refl

free-table :
    (fd : ℤ) (p : Program) (m : Option (List ℕ))
    → ((m >>= λ bytes. some (replies fd (some bytes) p)) >>= free_again) ≡ none
free-table fd p none = refl
free-table fd p (some bytes) = refl

free-init :
    (sys : System) (fd : ℤ) (self : Option ℕ) (p : Program)
    → (answer_init sys fd self none p >>= free_again) ≡ none
free-init sys fd none p = refl
free-init sys fd (some i) p = refl

-- Whatever an answer without a payload does, only an exit comes before the second `free`.
free-answer :
    (sys : System) (fd : ℤ) (t : Option MessageType) (p : Program)
    → (answer sys fd t none p >>= free_again)
      ≡ (if is_crash t then some (crash_now sys fd) else none)
unfolding answer
free-answer sys fd none p = refl
free-answer sys fd (some author) p = refl
free-answer sys fd (some init) p = free-init sys fd p.routing.self p
free-answer sys fd (some routing_table) p =
    free-table fd p (routing_table_response (sys.peer fd) p.routing)
free-answer sys fd (some update) p = refl
free-answer sys fd (some crash) p = refl
free-answer sys fd (some sendfile) p = refl
free-answer sys fd (some sendfile_stats) p = refl
free-answer sys fd (some last_data_packet) p =
    free-replies fd p (last_data_pkt (sys.peer fd) p.traffic)
free-answer sys fd (some penultimate_data_packet) p =
    free-replies fd p (penultimate_data_pkt (sys.peer fd) p.traffic)

is_crash-message_type : (code : ℕ) → is_crash (message_type code) ≡ (code == 4)
is_crash-message_type code = ground arith

-- A payload that cannot be read makes the program fault, whatever the command and the state, unless
-- the command is CRASH: then it exits with success all the same.
pub receive-unread_payload :
    (sys : System) (fd : ℤ) (p : Program) (header : List ℕ) (code n : ℕ)
    → sys.first_read fd ≡ some header
    → IsHeader header code (suc n)
    → sys.second_read fd ≡ none
    → receive sys fd p ≡ (if code == 4 then some (crash_now sys fd, true) else none)
receive-unread_payload sys fd p header code n read h unread =
    let freed = free-answer sys fd (message_type code) (close_controller fd p) in
    receive-with_command sys fd p header code (suc n) read h
    ∙ rw (unread, freed, is_crash-message_type code) (ground arith)

answer_init-known :
    (sys : System) (fd : ℤ) (payload : Option (List ℕ)) (p : Program) (i : ℕ)
    → p.routing.self ≡ some i
    → answer sys fd (some init) payload p ≡ some (goes_on p [])
unfolding answer
answer_init-known sys fd payload p i known = rw known

-- A second INIT whose payload can be read is passed over: nothing changes and nothing is sent.
pub receive-second_init :
    (sys : System) (fd : ℤ) (p : Program) (header payload : List ℕ) (len i : ℕ)
    → sys.first_read fd ≡ some header
    → sys.second_read fd ≡ some payload
    → IsHeader header 1 len
    → p.routing.self ≡ some i
    → receive sys fd p ≡ some (goes_on p [], true)
receive-second_init sys fd p header payload zero i read read_payload h known =
    receive-with_command sys fd p header 1 zero read h
    ∙ rw (answer_init-known sys fd none p i known)
receive-second_init sys fd p header payload (suc n) i read read_payload h known =
    receive-with_command sys fd p header 1 (suc n) read h
    ∙ rw (read_payload, answer_init-known sys fd (some payload) p i known)
