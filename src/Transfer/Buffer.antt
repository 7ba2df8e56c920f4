-- ===== src/Transfer/Buffer.antt =====
-- How `send_buff` ends.
use distance_vector_routing.Common.{
  ℕ, ◌+◌, ◌≡◌, ◌∙◌, leb, ℤ, pos, negsuc, List, [], ◌∷◌, ◌++◌, map, arith,
}
use distance_vector_routing.Transfer.{ends, send_loop, send_buff}
use distance_vector_routing.Transfer.Loop.{sum}

send_loop-ends :
    (size total : ℕ) (parts : List ℕ) (later : List ℤ)
    → send_loop size total (map pos parts ++ negsuc 0 ∷ later) ≡ ends (leb size (total + sum parts))
unfolding send_loop
send_loop-ends size total [] later = ground arith
send_loop-ends size total (p ∷ parts) later =
    let same : total + p + sum parts ≡ total + (p + sum parts) = omega arith in
    ground (arith, send_loop-ends size (total + p) parts later)

-- Where some calls of `send_buff` send bytes and the next one fails, it returns, and tells true exactly
-- if all bytes had been sent before, whatever later calls would do.
pub send_buff-ends :
    (size : ℕ) (parts : List ℕ) (later : List ℤ)
    → send_buff size (map pos parts ++ negsuc 0 ∷ later) ≡ ends (leb size (sum parts))
unfolding send_buff
send_buff-ends size parts later = send_loop-ends size 0 parts later ∙ ground arith
