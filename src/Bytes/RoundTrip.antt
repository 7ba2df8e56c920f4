-- ===== src/Bytes/RoundTrip.antt =====
-- What is read back of the bytes that were laid down in a buffer.
use native.Mathlib.Nat.{add_assoc, add-zero}
use distance_vector_routing.Common.{
  ℕ, zero, suc, ◌≡◌, refl, ap, ◌+◌, ◌<◌, ◌^◌, List, [], ◌∷◌, ◌++◌, some, arith, length, get_elem?,
}
use distance_vector_routing.Bytes.{
  htons, ntohs, bytes16, ntohui16, load16, load32, zeros, overwrite, write_at,
}

pub ntohs-htons : (x : ℕ) → x < 65536 → ntohs (htons x) ≡ x
unfolding ntohs htons
ntohs-htons x h = omega arith

pub htons-lt : (x : ℕ) → htons x < 65536
unfolding htons
htons-lt x = omega arith

get_elem?-append :
    (front back : List ℕ) (i : ℕ) → get_elem? (front ++ back) (length front + i) ≡ get_elem? back i
get_elem?-append [] back i = let e : 0 + i ≡ i = omega arith in rw e
get_elem?-append (x ∷ front) back i =
    let e : suc (length front) + i ≡ suc (length front + i) = omega arith in
    rw e (get_elem?-append front back i)

-- Bytes in front of a buffer move every offset.
pub load16-append :
    (front back : List ℕ) (k : ℕ) → load16 (front ++ back) (length front + k) ≡ load16 back k
unfolding load16
load16-append front back k =
    rw (add_assoc, get_elem?-append front back k, get_elem?-append front back (k + 1))

pub load32-append :
    (front back : List ℕ) (k : ℕ) → load32 (front ++ back) (length front + k) ≡ load32 back k
unfolding load32
load32-append front back k = simp (add_assoc, get_elem?-append front back)

pub length-zeros : (n : ℕ) → length (zeros n) ≡ n
unfolding zeros
length-zeros zero = refl
length-zeros (suc n) = ap suc (length-zeros n)

pub zeros-add : (m n : ℕ) → zeros (m + n) ≡ zeros m ++ zeros n
unfolding zeros
zeros-add zero n = let e : 0 + n ≡ n = omega arith in rw e
zeros-add (suc m) n =
    let e : suc m + n ≡ suc (m + n) = omega arith in rw e (ap (λ l. 0 ∷ l) (zeros-add m n))

overwrite-append :
    (bs old back : List ℕ) → length old ≡ length bs → overwrite (old ++ back) bs ≡ some (bs ++ back)
unfolding overwrite
overwrite-append [] [] back h = refl
overwrite-append [] (x ∷ old) back h = absurd (omega arith)
overwrite-append (b ∷ bs) [] back h = absurd (omega arith)
overwrite-append (b ∷ bs) (x ∷ old) back h = rw (overwrite-append bs old back (omega arith))

-- A copy into a buffer replaces as many bytes as it has, and no others.
pub write_at-append :
    (front bs old back : List ℕ)
    → length old ≡ length bs
    → write_at (length front) bs (front ++ (old ++ back)) ≡ some (front ++ (bs ++ back))
unfolding write_at
write_at-append [] bs old back h = overwrite-append bs old back h
write_at-append (x ∷ front) bs old back h = rw (write_at-append front bs old back h)

-- A number behind any front, in network byte order.
pub ntohui16-bytes :
    (front back : List ℕ) (seq_no : ℕ)
    → seq_no < 2 ^ 16
    → ntohui16 (front ++ (bytes16 (htons seq_no) ++ back)) (length front)
      ≡ some (seq_no, length front + 2)
unfolding ntohui16
ntohui16-bytes front back seq_no fits =
    let bytes = bytes16 (htons seq_no) ++ back in
    let at_front : load16 (front ++ bytes) (length front) ≡ load16 bytes 0 =
      rw (add-zero (length front)) at (load16-append front bytes 0) in
    let value : load16 bytes 0 ≡ some (htons seq_no) =
      unfold load16 in ground (arith, htons-lt seq_no) in
    ground (arith, at_front, value, ntohs-htons seq_no fits)
