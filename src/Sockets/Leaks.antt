-- ===== src/Sockets/Leaks.antt =====
-- What becomes of the sockets that are opened on the way to a connection.
use distance_vector_routing.Common.{
  ℤ, is_error, Bool, true, false, not, ◌&&◌, List, [], ◌∷◌, some, ◌||◌, subst, ◌≡◌, refl, sym,
  arith, Bool-cases, if◌then◌else◌, inl, inr, ◌∙◌,
}
use distance_vector_routing.Sockets.{Attempt, Opened, walk, connect_to, bind_listen_on}

-- Whether an address can be used.
abbrev pub works : Attempt → Bool
works a = not (is_error a.socket_fd) && a.reuse_ok && a.joined

-- The sockets that `socket` returned up to the first address that can be used, the last one first, on
-- top of `before`.
unfoldable pub opened_from : List Attempt → List ℤ → List ℤ
opened_from [] before = before
opened_from (a ∷ as') before =
    let here = if is_error a.socket_fd then before else a.socket_fd ∷ before in
    if works a then here else opened_from as' here

-- What is left to the caller, on top of what was closed.
abbrev pub accounted : Opened → List ℤ
accounted o = if o.success then o.sock_fd ∷ o.closed else o.closed

walk-opened_from :
    (as' : List Attempt) (fd : ℤ) (closed : List ℤ)
    → accounted (walk as' fd closed) ≡ opened_from as' closed
unfolding walk opened_from
walk-opened_from [] fd closed = refl
walk-opened_from (a ∷ as') fd closed = elim (Bool-cases (is_error a.socket_fd)) [
  | inl bad ↦ ground (arith, bad, walk-opened_from as' a.socket_fd closed)
  | inr good ↦ ground (arith, good, walk-opened_from as' a.socket_fd (a.socket_fd ∷ closed))
]

-- Whether some address can be used.
abbrev pub some_works : List Attempt → Bool
some_works [] = false
some_works (a ∷ as') = works a || some_works as'

walk-some_works :
    (as' : List Attempt) (fd : ℤ) (closed : List ℤ) → (walk as' fd closed).success ≡ some_works as'
unfolding walk
walk-some_works [] fd closed = refl
walk-some_works (a ∷ as') fd closed = elim (Bool-cases (is_error a.socket_fd)) [
  | inl bad ↦ ground (arith, bad, walk-some_works as' a.socket_fd closed)
  | inr good ↦ ground (arith, good, walk-some_works as' a.socket_fd (a.socket_fd ∷ closed))
]

-- `connect_to` succeeds exactly if it finds an address that can be connected to; then its socket
-- for the first of those is left to the caller, and all sockets that it opened before are closed,
-- in order; otherwise all that it opened are closed.
pub connect_to-opened_from :
    (result : List Attempt) (fd : ℤ)
    → let o = connect_to (some result) fd in
      (o.success ≡ some_works result)
      × ((if some_works result then o.sock_fd ∷ o.closed else o.closed) ≡ opened_from result [])
unfolding connect_to
connect_to-opened_from result fd =
    let works = walk-some_works result fd [] in
    (
      works,
      subst
          (λ b.
            (if b
              then (walk result fd []).sock_fd ∷ (walk result fd []).closed
              else (walk result fd []).closed)
            ≡ opened_from result [])
          works (walk-opened_from result fd []),
    )

-- Where a socket is bound but cannot be made to listen, `bind_listen_on` fails, and of the sockets
-- that it opened that one alone stays open.
pub bind_listen_on-leak :
    (result : List Attempt) (fd : ℤ)
    → (bind_listen_on (some result) true fd).success ≡ true
    → let o = bind_listen_on (some result) false fd in
      (o.success ≡ false) × (opened_from result [] ≡ o.sock_fd ∷ o.closed)
unfolding bind_listen_on
bind_listen_on-leak result fd bound =
    let all_opened = walk-opened_from result fd [] in
    let yes : (walk result fd []).success ≡ true = ground arith in (rw yes, sym all_opened ∙ rw yes)
