-- ===== src/Bytes.antt =====
-- Buffers of bytes: the readers of src/Util.cpp (`toui8`, `ntohui16`, `toui32`), the byte order of
-- `htons` and `ntohs`, and `memcpy`. Integers lie in memory with the low byte first, as on the x86
-- hosts of the program. An access outside a buffer faults.
pub mod RoundTrip
use distance_vector_routing.Common.{
  ℕ, zero, suc, ◌+◌, ◌*◌, ◌/◌, ◌%◌, List, [], ◌∷◌, Option, none, some, ◌>>=◌, get_elem?,
}

-- The two bytes of a `uint16_t` change places.
pub swap16 : ℕ → ℕ
swap16 x = x % 256 * 256 + x / 256 % 256

unfoldable pub htons : ℕ → ℕ
unfolding swap16
htons x = swap16 x

unfoldable pub ntohs : ℕ → ℕ
unfolding swap16
ntohs x = swap16 x

-- The memory of a `uint16_t` and of a `uint32_t`.
abbrev pub bytes16 : ℕ → List ℕ
bytes16 x = (x % 256) ∷ (x / 256 % 256) ∷ []

abbrev pub bytes32 : ℕ → List ℕ
bytes32 x = (x % 256) ∷ (x / 256 % 256) ∷ (x / 65536 % 256) ∷ (x / 16777216 % 256) ∷ []

unfoldable pub load8 : List ℕ → ℕ → Option ℕ
load8 buffer offset = get_elem? buffer offset

unfoldable pub load16 : List ℕ → ℕ → Option ℕ
unfolding load8
load16 buffer offset = do
  b0 ← load8 buffer offset
  b1 ← load8 buffer (offset + 1)
  some (b0 + 256 * b1)

unfoldable pub load32 : List ℕ → ℕ → Option ℕ
unfolding load8
load32 buffer offset = do
  b0 ← load8 buffer offset
  b1 ← load8 buffer (offset + 1)
  b2 ← load8 buffer (offset + 2)
  b3 ← load8 buffer (offset + 3)
  some (b0 + 256 * b1 + 65536 * b2 + 16777216 * b3)

-- The readers return the value and the offset behind it.
unfoldable pub toui8 : List ℕ → ℕ → Option (ℕ × ℕ)
unfolding load8
toui8 buffer offset = do ui8 ← load8 buffer offset; some (ui8, offset + 1)

unfoldable pub ntohui16 : List ℕ → ℕ → Option (ℕ × ℕ)
unfolding load16 ntohs
ntohui16 buffer offset = do ui16 ← load16 buffer offset; some (ntohs ui16, offset + 2)

unfoldable pub toui32 : List ℕ → ℕ → Option (ℕ × ℕ)
unfolding load32
toui32 buffer offset = do ui32 ← load32 buffer offset; some (ui32, offset + 4)

-- `new char[n]` and `bzero`.
unfoldable pub zeros : ℕ → List ℕ
zeros zero = []
zeros (suc n) = 0 ∷ zeros n

-- The bytes `bs` over the front of the buffer.
unfoldable pub overwrite : List ℕ → List ℕ → Option (List ℕ)
overwrite buffer [] = some buffer
overwrite [] (b ∷ bs) = none
overwrite (x ∷ buffer) (b ∷ bs) = do rest ← overwrite buffer bs; some (b ∷ rest)

-- `memcpy(buffer + offset, bs, …)`.
unfoldable pub write_at : ℕ → List ℕ → List ℕ → Option (List ℕ)
unfolding overwrite
write_at zero bs buffer = overwrite buffer bs
write_at (suc offset) bs [] = none
write_at (suc offset) bs (x ∷ buffer) = do rest ← write_at offset bs buffer; some (x ∷ rest)
