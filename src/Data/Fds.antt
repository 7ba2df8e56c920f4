-- ===== src/Data/Fds.antt =====
-- The sets of descriptors: `enable_write` and `disable_write` of src/Router.cpp, and `data_fds`.
pub mod Laws
pub mod Covers
use distance_vector_routing.Common.{
  ℕ, Option, none, some, ltb, ◌==◌, ◌&&◌, ◌||◌, Bool, false, List, [], ◌∷◌, ℤ, pos_part, neg_part,
  ltb_ℤ, if◌then◌else◌,
}
use distance_vector_routing.Data.{DataState}

abbrev pub eq_fd : ℤ → ℤ → Bool
eq_fd a b = pos_part a == pos_part b && neg_part a == neg_part b

-- FD_ISSET, and `count` of a set.
unfoldable pub is_set : ℤ → List ℤ → Bool
is_set fd [] = false
is_set fd (x ∷ xs) = eq_fd x fd || is_set fd xs

-- FD_CLR, and `erase`.
unfoldable pub remove_fd : ℤ → List ℤ → List ℤ
remove_fd fd [] = []
remove_fd fd (x ∷ xs) = if eq_fd x fd then remove_fd fd xs else x ∷ remove_fd fd xs

-- FD_SETSIZE of the system: the macros take descriptors below it.
abbrev pub fd_setsize : ℕ
fd_setsize = 1024

-- Whether the macros are defined at a descriptor: outside this range they reach outside the set.
abbrev pub fits_set : ℤ → Bool
fits_set fd = neg_part fd == 0 && ltb (pos_part fd) fd_setsize

-- What `enable_write` does within the range.
unfoldable pub enabled : ℤ → DataState → DataState
unfolding is_set
enabled fd d = if is_set fd d.write_fds then d else record d {
  write_fds = fd ∷ d.write_fds;
  max_fd = if ltb_ℤ d.max_fd fd then fd else d.max_fd;
}

-- `next_hop->data_socket_fd` may be out of range, such as the -1 of a failed `connect_to`.
unfoldable pub enable_write : ℤ → DataState → Option DataState
unfolding enabled
enable_write fd d = if fits_set fd then some (enabled fd d) else none

-- Its descriptor is one that the loop of src/Router.cpp found in the set, so within the range.
unfoldable pub disable_write : ℤ → DataState → DataState
unfolding remove_fd
disable_write fd d = record d { write_fds = remove_fd fd d.write_fds }

unfoldable pub close_fd : ℤ → DataState → DataState
unfolding remove_fd
close_fd fd d = record d { data_fds = remove_fd fd d.data_fds }
