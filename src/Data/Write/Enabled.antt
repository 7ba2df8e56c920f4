-- ===== src/Data/Write/Enabled.antt =====
-- Whether a descriptor stays enabled for writing after `write_handler`.
use distance_vector_routing.Common.{
  ℕ, ◌≡◌, refl, not, ◌&&◌, ◌||◌, Bool, true, false, List, [], ◌∷◌, map, some, if◌then◌else◌,
  Bool-cases, inl, inr, ℤ, All, arith,
}
use distance_vector_routing.Routing.{Router}
use distance_vector_routing.Data.{FileChunk, DataState, update_last_data_packet}
use distance_vector_routing.Data.Fds.{eq_fd, is_set, remove_fd, disable_write}
use distance_vector_routing.Data.Write.{Message, Writing, send_chunk, write_handler}
use distance_vector_routing.Data.Write.Fronts.{
  HasHop, advance, all_leaving, send_chunks, send_queues_lem,
}

is_set-remove_fd : (fd : ℤ) (fds : List ℤ) → is_set fd (remove_fd fd fds) ≡ false
unfolding is_set remove_fd
is_set-remove_fd fd [] = refl
is_set-remove_fd fd (x ∷ xs) = elim (Bool-cases (eq_fd x fd)) [
  | inl same ↦ rw same (is_set-remove_fd fd xs)
  | inr other ↦ rw (other, other) (is_set-remove_fd fd xs)
]

abbrev pub ends_file : List FileChunk → Bool
ends_file [] = false
ends_file (c ∷ cs) = c.header.fin || ends_file cs

abbrev pub is_empty : List FileChunk → Bool
is_empty [] = true
is_empty (c ∷ cs) = false

send_chunk-write_fds :
    (peer : ℤ → ℕ) (fd : ℤ) (c : FileChunk) (w : Writing)
    → is_set fd (send_chunk peer fd c w).state.write_fds
      ≡ (is_set fd w.state.write_fds && not c.header.fin)
unfolding send_chunk update_last_data_packet disable_write
send_chunk-write_fds peer fd c w = ground (arith, is_set-remove_fd fd w.state.write_fds)

send_chunks-write_fds :
    (peer : ℤ → ℕ) (fd : ℤ) (cs : List FileChunk) (w : Writing)
    → is_set fd (send_chunks peer fd cs w).state.write_fds
      ≡ (is_set fd w.state.write_fds && not (ends_file cs))
send_chunks-write_fds peer fd [] w = ground arith
send_chunks-write_fds peer fd (c ∷ cs) w = ground (
  arith,
  send_chunks-write_fds peer fd cs (send_chunk peer fd c w),
  send_chunk-write_fds peer fd c w,
)

send_chunks-happened :
    (peer : ℤ → ℕ) (fd : ℤ) (cs : List FileChunk) (w : Writing)
    → (send_chunks peer fd cs w).happened ≡ (w.happened || not (is_empty cs))
unfolding send_chunk
send_chunks-happened peer fd [] w = ground arith
send_chunks-happened peer fd (c ∷ cs) w =
    ground (arith, send_chunks-happened peer fd cs (send_chunk peer fd c w))

-- Where every queue's next hop is in the vector, the descriptor is enabled for writing after
-- `write_handler` exactly if it was so before, some packet left and none of those that left was the
-- last one of its file, whatever packets other transfers still have waiting for it.
pub write_handler-write_fds :
    (peer : ℤ → ℕ) (fd : ℤ) (routers : List Router) (d : DataState)
    → All (HasHop routers) d.send_buffer
    → let cs = all_leaving fd routers d.send_buffer in
      (d' : DataState) × (sent : List Message) × (write_handler peer fd routers d ≡ some (d', sent))
      × (is_set fd d'.write_fds
          ≡ (is_set fd d.write_fds && not (is_empty cs) && not (ends_file cs)))
unfolding write_handler disable_write
write_handler-write_fds peer fd routers d h =
    let w : Writing = record { state = d; sent = []; happened = false } in
    let cs = all_leaving fd routers d.send_buffer in
    let w' = send_chunks peer fd cs w in
    let d' : DataState = record w'.state { send_buffer = map (advance fd routers) d.send_buffer } in
    (
      if w'.happened then d' else disable_write fd d',
      w'.sent,
      rw (send_queues_lem peer fd routers d.send_buffer w h),
      ground (
        arith,
        send_chunks-happened peer fd cs w,
        send_chunks-write_fds peer fd cs w,
        is_set-remove_fd fd w'.state.write_fds,
      ),
    )
