-- ===== src/Watch/Bounds.antt =====
-- The descriptors that `select` is asked about.
use mathlib.Core.Option.{some-injective}
use distance_vector_routing.Common.{
  ◌≡◌, refl, ◌∙◌, subst, ◌||◌, true, false, List, [], ℤ, some, ltb_ℤ, Bool-cases, inl, inr, arith,
}
use distance_vector_routing.Data.{DataState}
use distance_vector_routing.Data.Fds.{eq_fd, is_set}
use distance_vector_routing.Data.Fds.Laws.{eq_fd_sound, eq_fd_refl, is_set-remove_fd, Covers}
use distance_vector_routing.Program.{Program}
use distance_vector_routing.Data.Fds.{fits_set}
use distance_vector_routing.Watch.{
  add_fd, raise_max, watch, unwatch, set_router_socket, set_data_socket,
}

-- No watched descriptor lies above `max_fd`, so the loop reaches it; the listening socket of the
-- controllers is watched, and so is every connection of a controller.
pub record IsWatched (p : Program) : Type 0 where
  pub bounded : (x : ℤ) → is_set x p.all_fd ≡ true → ltb_ℤ p.traffic.max_fd x ≡ false
  pub listening : is_set p.control_socket p.all_fd ≡ true
  pub controllers : (x : ℤ) → is_set x p.controller_fds ≡ true → is_set x p.all_fd ≡ true

pub is_set-add_fd :
    (x fd : ℤ) (fds : List ℤ) → is_set x (add_fd fd fds) ≡ (eq_fd fd x || is_set x fds)
unfolding add_fd
is_set-add_fd x fd fds = elim (Bool-cases (is_set fd fds)) [
  | inr new ↦ rw new (unfold is_set in refl)
  | inl old ↦ elim (Bool-cases (eq_fd fd x)) [
    | inr other ↦ rw (old, other)
    | inl same ↦
        let there : is_set x fds ≡ true = rw (eq_fd_sound fd x same) at old in rw (old, same, there)
  ]
]

raise_max-Covers : (fd : ℤ) (d : DataState) → Covers d (raise_max fd d)
raise_max-Covers fd d x h = ground arith

raise_max-covers_self : (fd : ℤ) (d : DataState) → ltb_ℤ (raise_max fd d).max_fd fd ≡ false
raise_max-covers_self fd d = ground arith

-- The invariant but for one descriptor, which is to be watched next.
pub record IsWatchedBut (fd : ℤ) (p : Program) : Type 0 where
  pub bounded : (x : ℤ) → is_set x p.all_fd ≡ true → ltb_ℤ p.traffic.max_fd x ≡ false
  pub listening : (eq_fd fd p.control_socket || is_set p.control_socket p.all_fd) ≡ true
  pub controllers :
      (x : ℤ) → is_set x p.controller_fds ≡ true → (eq_fd fd x || is_set x p.all_fd) ≡ true

pub IsWatched-but : (fd : ℤ) (p : Program) → IsWatched p → IsWatchedBut fd p
IsWatched-but fd p w = record {
  bounded = w.bounded;
  listening = ground (arith, w.listening);
  controllers = λ x h. ground (arith, w.controllers x h);
}

raise_max-IsWatched :
    (fd : ℤ) (p : Program)
    → IsWatchedBut fd p
    → IsWatched (record p { all_fd = add_fd fd p.all_fd; traffic = raise_max fd p.traffic })
raise_max-IsWatched fd p w = record {
  bounded = λ x h. elim (Bool-cases (eq_fd fd x)) [
    | inl same ↦ rw (← eq_fd_sound fd x same) (raise_max-covers_self fd p.traffic)
    | inr other ↦
        raise_max-Covers fd p.traffic x (w.bounded x (ground (arith, is_set-add_fd x fd p.all_fd)))
  ];
  listening = is_set-add_fd p.control_socket fd p.all_fd ∙ w.listening;
  controllers = λ x h. is_set-add_fd x fd p.all_fd ∙ w.controllers x h;
}

-- Watching the descriptor that was left out restores the invariant.
pub watch-IsWatched :
    (fd : ℤ) (p p' : Program) → IsWatchedBut fd p → watch fd p ≡ some p' → IsWatched p'
unfolding watch
watch-IsWatched fd p p' w e = elim (Bool-cases (fits_set fd)) [
  | inr bad ↦ cc (rw bad at e)
  | inl good ↦ subst IsWatched (some-injective _ _ (rw good at e)) (raise_max-IsWatched fd p w)
]

pub set_router_socket-IsWatched :
    (fd : ℤ) (p p' : Program) → IsWatched p → set_router_socket fd p ≡ some p' → IsWatched p'
unfolding set_router_socket
set_router_socket-IsWatched fd p p' w e =
    watch-IsWatched fd (record p { router_socket = fd }) p'
      (record {
        bounded = w.bounded;
        listening = ground (arith, w.listening);
        controllers = λ x h. ground (arith, w.controllers x h);
      })
      e

pub set_data_socket-IsWatched :
    (fd : ℤ) (p p' : Program) → IsWatched p → set_data_socket fd p ≡ some p' → IsWatched p'
unfolding set_data_socket
set_data_socket-IsWatched fd p p' w e =
    watch-IsWatched fd (record p { data_socket = fd }) p'
      (record {
        bounded = w.bounded;
        listening = ground (arith, w.listening);
        controllers = λ x h. ground (arith, w.controllers x h);
      })
      e

-- A descriptor that is neither the listening socket nor a controller's may go.
pub unwatch-IsWatched :
    (fd : ℤ) (p : Program)
    → IsWatched p
    → eq_fd fd p.control_socket ≡ false
    → is_set fd p.controller_fds ≡ false
    → IsWatched (unwatch fd p)
unfolding unwatch
unwatch-IsWatched fd p w other free = record {
  bounded = λ x h. w.bounded x (ground (arith, is_set-remove_fd x fd p.all_fd));
  listening = is_set-remove_fd p.control_socket fd p.all_fd ∙ rw (other, w.listening);
  controllers = λ x h. is_set-remove_fd x fd p.all_fd ∙ elim (Bool-cases (eq_fd fd x)) [
    | inl same ↦ cc (rw (eq_fd_sound fd x same) at free, h)
    | inr apart ↦ rw (apart, w.controllers x h)
  ];
}

-- The first descriptor, whatever `max_fd` was.
pub watch_first-IsWatched :
    (fd : ℤ) (p p' : Program)
    → p.all_fd ≡ []
    → p.controller_fds ≡ []
    → watch fd (record p { control_socket = fd }) ≡ some p'
    → IsWatched (record p' { traffic = record p'.traffic { max_fd = fd } })
unfolding watch
watch_first-IsWatched fd p p' no_fds none_yet e = elim (Bool-cases (fits_set fd)) [
  | inr bad ↦ cc (rw bad at e)
  | inl good ↦
      subst (λ (q : Program). IsWatched (record q { traffic = record q.traffic { max_fd = fd } }))
        (some-injective _ _ (rw good at e))
        (record {
          bounded = λ x h.
              let same : eq_fd fd x ≡ true =
                unfold is_set in ground (arith, is_set-add_fd x fd p.all_fd, no_fds, h) in
              rw (← eq_fd_sound fd x same) (ground arith);
          listening = is_set-add_fd fd fd p.all_fd ∙ rw (eq_fd_refl fd);
          controllers = λ x h. unfold is_set in ground (arith, none_yet, h);
        })
]
