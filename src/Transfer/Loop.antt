-- ===== src/Transfer/Loop.antt =====
-- When the transfer loops end, and when they do not.
use distance_vector_routing.Common.{
  ℕ, zero, suc, ◌+◌, ◌-◌, ◌<◌, ◌≡◌, ℤ, pos, negsuc, List, [], ◌∷◌, ◌++◌, map, arith, All,
}
use distance_vector_routing.Transfer.{returns, goes_on, transfer_loop, recv_all}

abbrev pub sum : List ℕ → ℕ
sum [] = 0
sum (n ∷ ns) = n + sum ns

abbrev IsPositive : ℕ → Type 0
IsPositive n = 0 < n

transfer_loop-sum :
    (nbytes b : ℕ) (parts : List ℕ) (later : List ℤ)
    → All IsPositive parts
    → b + sum parts ≡ nbytes
    → transfer_loop nbytes (pos b) (map pos parts ++ later) ≡ returns (pos nbytes)
unfolding transfer_loop
transfer_loop-sum nbytes b [] [] h e = ground arith
transfer_loop-sum nbytes b [] (l ∷ later) h e = ground arith
transfer_loop-sum nbytes b (p ∷ parts) later h e =
    ground (arith, transfer_loop-sum nbytes (b + p) parts later h.1)

-- Where every call moves some bytes, and together they move as many as were asked for, `recvALL`
-- returns that number, and makes no call after the last of them.
pub recv_all-sum :
    (nbytes part : ℕ) (parts : List ℕ) (later : List ℤ)
    → All IsPositive (part ∷ parts)
    → sum (part ∷ parts) ≡ nbytes
    → recv_all nbytes (map pos (part ∷ parts) ++ later) ≡ returns (pos nbytes)
unfolding recv_all
recv_all-sum nbytes (zero) parts later h e = absurd (omega arith)
recv_all-sum nbytes (suc n) parts later h e = transfer_loop-sum nbytes (suc n) parts later h.1 e

abbrev pub replicate : {A : Type 0} → ℕ → A → List A
replicate zero a = []
replicate (suc n) a = a ∷ replicate n a

transfer_loop-closed :
    (nbytes b calls : ℕ)
    → b < nbytes
    → transfer_loop nbytes (pos b) (replicate calls (pos 0)) ≡ goes_on
unfolding transfer_loop
transfer_loop-closed nbytes b zero h = ground arith
transfer_loop-closed nbytes b (suc n) h =
    let e : b + 0 ≡ b = omega arith in ground (arith, transfer_loop-closed nbytes b n h)

-- Where the peer closes the connection in the middle of a message, so that every later call returns
-- 0, `recvALL` does not return after any number of calls.
pub recv_all-closed :
    (nbytes part calls : ℕ)
    → 0 < part
    → part < nbytes
    → recv_all nbytes (pos part ∷ replicate calls (pos 0)) ≡ goes_on
unfolding recv_all
recv_all-closed nbytes zero calls some_bytes h = absurd (omega arith)
recv_all-closed nbytes (suc n) calls some_bytes h = transfer_loop-closed nbytes (suc n) calls h

-- An error in the middle of a message is not reported: it takes a byte off the count, and `recvALL`
-- asks for that byte once more.
pub recv_all-error :
    (nbytes part : ℕ)
    → 0 < part
    → part < nbytes
    → recv_all nbytes (pos part ∷ negsuc 0 ∷ pos (nbytes - part + 1) ∷ []) ≡ returns (pos nbytes)
unfolding recv_all transfer_loop
recv_all-error nbytes zero some_bytes h = absurd (omega arith)
recv_all-error nbytes (suc n) some_bytes h = ground arith
