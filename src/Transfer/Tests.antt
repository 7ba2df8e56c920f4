-- ===== src/Transfer/Tests.antt =====
-- Runs of the transfer loops, and the theorems at them.
use distance_vector_routing.Common.{◌+◌, ◌-◌, ◌++◌, ◌≡◌, pos, negsuc, [], ◌∷◌, map, arith, leb}
use distance_vector_routing.Transfer.{returns, goes_on, recv_all, ends, send_buff}
use distance_vector_routing.Transfer.Buffer.{send_buff-ends}
use distance_vector_routing.Transfer.Loop.{
  sum, recv_all-sum, recv_all-closed, recv_all-error, replicate,
}

recv_all-sum_example : recv_all 1024 (map pos (500 ∷ 20 ∷ 504 ∷ []) ++ []) ≡ returns (pos 1024)
recv_all-sum_example = recv_all-sum 1024 500 (20 ∷ 504 ∷ []) [] (omega arith) (omega arith)

recv_all-closed_example : recv_all 12 (pos 5 ∷ replicate 3 (pos 0)) ≡ goes_on
recv_all-closed_example = recv_all-closed 12 5 3 (omega arith) (omega arith)

recv_all-error_example : recv_all 12 (pos 5 ∷ negsuc 0 ∷ pos (12 - 5 + 1) ∷ []) ≡ returns (pos 12)
recv_all-error_example = recv_all-error 12 5 (omega arith) (omega arith)

send_buff-ends_example :
    send_buff 12 (map pos (5 ∷ 4 ∷ []) ++ negsuc 0 ∷ []) ≡ ends (leb 12 (sum (5 ∷ 4 ∷ [])))
send_buff-ends_example = send_buff-ends 12 (5 ∷ 4 ∷ []) []
