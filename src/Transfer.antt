-- ===== src/Transfer.antt =====
-- The loops of src/network_util.cpp and `send_buff` of src/Util.cpp, which repeat a system call until all
-- bytes have passed. Each
-- list holds what the calls return, the first one first.
pub mod Loop
pub mod Buffer
mod Tests
use distance_vector_routing.Common.{
  ℕ, ◌+◌, ltb, true, false, pos_part, ℤ, pos, negsuc, is_zero, is_error, ◌+ℤ◌, ltb_ℤ, ◌||◌, Bool,
  List, [], ◌∷◌, if◌then◌else◌,
}

-- What the function returns; or the loop still goes on when the list is used up.
pub data Outcome : Type 0 where
  returns : ℤ → Outcome
  goes_on : Outcome

-- `while (bytes < nbytes) bytes += recv(…)`.
pub transfer_loop : ℕ → ℤ → List ℤ → Outcome
transfer_loop nbytes bytes [] = if ltb_ℤ bytes (pos nbytes) then goes_on else returns bytes
transfer_loop nbytes bytes (r ∷ rs) =
    let rest = transfer_loop nbytes (bytes +ℤ r) rs in
    if ltb_ℤ bytes (pos nbytes) then rest else returns bytes

transfer_all : ℕ → List ℤ → Outcome
unfolding transfer_loop
transfer_all nbytes [] = goes_on
transfer_all nbytes (r ∷ rs) =
    if is_zero r || is_error r then returns (negsuc 0) else transfer_loop nbytes r rs

-- The four functions differ in the call that they repeat.
unfoldable pub recv_all : ℕ → List ℤ → Outcome
unfolding transfer_all
recv_all nbytes results = transfer_all nbytes results

unfoldable pub send_all : ℕ → List ℤ → Outcome
unfolding transfer_all
send_all nbytes results = transfer_all nbytes results

unfoldable pub recv_from_all : ℕ → List ℤ → Outcome
unfolding transfer_all
recv_from_all nbytes results = transfer_all nbytes results

unfoldable pub send_to_all : ℕ → List ℤ → Outcome
unfolding transfer_all
send_to_all nbytes results = transfer_all nbytes results

-- Whether all of the buffer was sent; or the loop still goes on when the list is used up.
pub data Sending : Type 0 where
  ends : Bool → Sending
  sends_on : Sending

send_loop : ℕ → ℕ → List ℤ → Sending
send_loop size total [] = if ltb total size then sends_on else ends true
send_loop size total (n ∷ ns) =
    let rest = send_loop size (total + pos_part n) ns in
    if ltb total size then (if is_error n then ends false else rest) else ends true

unfoldable pub send_buff : ℕ → List ℤ → Sending
unfolding send_loop
send_buff size results = send_loop size 0 results
