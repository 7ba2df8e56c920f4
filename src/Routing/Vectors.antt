-- ===== src/Routing/Vectors.antt =====
-- `distance_vectors[a][b]`: reads, writes and the clearing of a row, with the entries that
-- `operator[]` inserts where a key is missing.
use distance_vector_routing.Common.{ℕ, ◌≡◌, ◌&&◌, [], arith, ◌==◌, if◌then◌else◌}
use distance_vector_routing.OrdMap.{OrdMap, insert, at, touch, at-insert, at-nil, at-touch}
use distance_vector_routing.Routing.{DistanceVector}

abbrev pub Vectors : Type 0
Vectors = OrdMap DistanceVector

unfoldable pub row : Vectors → ℕ → DistanceVector
unfolding at
row m a = at [] a m

-- The value that is read: 0 where there is no entry.
unfoldable pub cell : Vectors → ℕ → ℕ → ℕ
unfolding row at
cell m a b = at 0 b (row m a)

-- The vectors after a read.
unfoldable pub touch_cell : Vectors → ℕ → ℕ → Vectors
touch_cell m a b = insert a (touch 0 b (row m a)) m

unfoldable pub set_cell : Vectors → ℕ → ℕ → ℕ → Vectors
set_cell m a b c = insert a (insert b c (row m a)) m

pub clear_row : Vectors → ℕ → Vectors
clear_row m a = insert a [] m

pub cell-touch_cell : (m : Vectors) (a b x y : ℕ) → cell (touch_cell m a b) x y ≡ cell m x y
unfolding cell touch_cell
cell-touch_cell m a b x y =
    ground (arith, at-insert [] x a (touch 0 b (row m a)) m, at-touch 0 y b (row m a))

pub cell-set_cell :
    (m : Vectors) (a b c x y : ℕ)
    → cell (set_cell m a b c) x y ≡ (if (a == x) && (b == y) then c else cell m x y)
unfolding cell set_cell
cell-set_cell m a b c x y =
    ground (arith, at-insert [] x a (insert b c (row m a)) m, at-insert 0 y b c (row m a))

pub cell-clear_row :
    (m : Vectors) (a x y : ℕ) → cell (clear_row m a) x y ≡ (if a == x then 0 else cell m x y)
unfolding cell clear_row
cell-clear_row m a x y = ground (arith, at-insert [] x a [] m, at-nil {V = ℕ} 0 y)
