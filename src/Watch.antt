-- ===== src/Watch.antt =====
-- The descriptor sets of src/Router.cpp that `select` reads: `set_router_socket` and
-- `set_data_socket`.
pub mod Bounds
use distance_vector_routing.Common.{
  ℕ, ◌==◌, ◌&&◌, Bool, List, [], ◌∷◌, Option, none, some, ◌>>=◌, ltb, ℤ, pos_part, neg_part, ltb_ℤ,
  if◌then◌else◌,
}
use distance_vector_routing.Data.{DataState}
use distance_vector_routing.Data.Fds.{is_set, remove_fd, fits_set}
use distance_vector_routing.Program.{Program}

-- FD_SET, and `insert` into a set.
unfoldable pub add_fd : ℤ → List ℤ → List ℤ
unfolding is_set
add_fd fd fds = if is_set fd fds then fds else fd ∷ fds

abbrev pub raise_max : ℤ → DataState → DataState
raise_max fd d = record d { max_fd = if ltb_ℤ d.max_fd fd then fd else d.max_fd }

-- `FD_SET(fd, &all_fd); if (fd > max_fd) max_fd = fd;`
unfoldable pub watch : ℤ → Program → Option Program
unfolding add_fd
watch fd p =
    if fits_set fd
    then some (record p { all_fd = add_fd fd p.all_fd; traffic = raise_max fd p.traffic })
    else none

-- `FD_CLR(fd, &all_fd)`.
unfoldable pub unwatch : ℤ → Program → Program
unfolding remove_fd
unwatch fd p = record p { all_fd = remove_fd fd p.all_fd }

unfoldable pub set_router_socket : ℤ → Program → Option Program
unfolding watch
set_router_socket fd p = watch fd (record p { router_socket = fd })

unfoldable pub set_data_socket : ℤ → Program → Option Program
unfolding watch
set_data_socket fd p = watch fd (record p { data_socket = fd })
