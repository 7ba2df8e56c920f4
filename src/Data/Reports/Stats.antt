-- ===== src/Data/Reports/Stats.antt =====
-- What the controller reads in the reply to SENDFILE_STATS.
use distance_vector_routing.Common.{ℕ, zero, suc, ◌^◌, ◌<◌, List, [], ◌∷◌, Option, some, ◌>>=◌}
use distance_vector_routing.Bytes.{ntohui16}
use distance_vector_routing.Data.{Stat}

-- How the controller reads `n` sequence numbers.
unfoldable pub read_seq_nos : List ℕ → ℕ → ℕ → Option (List ℕ)
read_seq_nos buffer zero offset = some []
read_seq_nos buffer (suc n) offset = do
  (seq_no, behind) ← ntohui16 buffer offset
  later ← read_seq_nos buffer n behind
  some (seq_no ∷ later)

-- The sequence number fits its field.
pub record FitsStat (s : Stat) : Type 0 where
  pub seq_fits : s.1 < 2 ^ 16
