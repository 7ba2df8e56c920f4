-- ===== src/Data/Fds/Laws.antt =====
-- Membership in a set of descriptors after a change to it.
use distance_vector_routing.Common.{◌≡◌, ◌&&◌, not, true, false, List, [], ◌∷◌, ℤ, ltb_ℤ, arith}
use distance_vector_routing.Data.{DataState}
use distance_vector_routing.Data.Fds.{eq_fd, is_set, remove_fd, enabled}

pub eq_fd_sound : (a b : ℤ) → eq_fd a b ≡ true → a ≡ b
eq_fd_sound a b h = ground arith

pub eq_fd_refl : (a : ℤ) → eq_fd a a ≡ true
eq_fd_refl a = ground arith

pub is_set-remove_fd :
    (x fd : ℤ) (fds : List ℤ) → is_set x (remove_fd fd fds) ≡ (not (eq_fd fd x) && is_set x fds)
unfolding is_set remove_fd
is_set-remove_fd x fd [] = ground arith
is_set-remove_fd x fd (y ∷ ys) = ground (arith, is_set-remove_fd x fd ys)

-- A greater bound covers whatever the smaller one does.
abbrev pub Covers : DataState → DataState → Type 0
Covers d d' = (x : ℤ) → ltb_ℤ d.max_fd x ≡ false → ltb_ℤ d'.max_fd x ≡ false

pub enabled-Covers : (fd : ℤ) (d : DataState) → Covers d (enabled fd d)
unfolding enabled
enabled-Covers fd d x h = ground arith
