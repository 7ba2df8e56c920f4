-- ===== src/Data/Relay/Order.antt =====
-- The order in which packets leave a router that they go through: `receive` and `write_handler` of
-- src/data_routing.cpp.
use mathlib.Core.List.{append_assoc, append-nil, map-append}
use distance_vector_routing.Common.{
  ℕ, zero, suc, ◌≡◌, refl, sym, ap, ◌∙◌, ◌≤◌, ◌==◌, true, false, List, [], ◌∷◌, ◌++◌, some, map,
  length, ℤ, arith, get_elem?, All,
}
use distance_vector_routing.Routing.{Router, Routing, get_self}
use distance_vector_routing.Routing.Timeout.{Network}
use distance_vector_routing.Routing.Forward.{next_hop_for}
use distance_vector_routing.Data.{packet_header_bytes, DataState, push_chunk}
use distance_vector_routing.Data.Fds.{fits_set}
use distance_vector_routing.Data.Sendfile.Queue.{enabled-send_buffer}
use distance_vector_routing.Data.Receive.{decrement}
use distance_vector_routing.Data.Receive.Hops.{on_its_way, queued_for, receive-forwarded}
use distance_vector_routing.Data.Write.Fronts.{
  advance, all_leaving, messages_of, write_handler-fronts,
}
use distance_vector_routing.Data.Relay.{
  Ready, comes, writable, Relayed, handle, handle_all, bytes_of, lower_ttl, passed_on,
}
use distance_vector_routing.Data.Relay.Transit.{
  IsPacket, IsTransit, HoldsTransit, lower_ttl-bytes, push_chunk-HoldsTransit, passed_on_cons,
}
use distance_vector_routing.Data.Relay.Queues.{payloads}
use distance_vector_routing.Data.Relay.Leaving.{leaves, leaves_one}

length-zero : (l : List (List ℕ)) → length l ≤ 0 → l ≡ []
length-zero [] h = refl
length-zero (x ∷ l) h = absurd (omega arith)

-- The descriptor can be written to, `k` times.
abbrev pub calls : ℕ → ℤ → List Ready
calls zero fd = []
calls (suc k) fd = writable fd ∷ calls k fd

-- The router after any events: the packets that came have left it, once each and in order, but for
-- those that wait, and these leave as soon as the descriptor of the hop was ready often enough.
pub record InOrder (net : Network) (peer : ℤ → ℕ) (hop_fd : ℤ) (es : List Ready) (d : DataState)
    (r : Relayed) : Type 0 where
  pub order :
      bytes_of r.sent ++ payloads r.state.send_buffer ≡ payloads d.send_buffer ++ passed_on es
  pub drained :
      (k : ℕ)
      → length (payloads r.state.send_buffer) ≤ k
      → (r' : Relayed) × (handle_all net peer (calls k hop_fd) r.routing r.state ≡ some r')
        × (bytes_of r'.sent ≡ payloads r.state.send_buffer)
        × (payloads r'.state.send_buffer ≡ [])

module _ (net : Network) (peer : ℤ → ℕ) (st : Routing) (me hop : Router) (dest id index : ℕ)
    (hop_fd : ℤ) (is_me : get_self st ≡ some me) (other : (me.ip == dest) ≡ false)
    (way : next_hop_for net dest st ≡ (some (index, hop_fd), st))
    (listed : get_elem? st.rs.routers index ≡ some hop) (in_range : fits_set hop_fd ≡ true) where
  -- The router later on: what has left it, and what waits in it.
  record Keeps (es : List Ready) (d : DataState) (r : Relayed) : Type 0 where
    same : r.routing ≡ st
    holds : HoldsTransit st.rs.routers id index r.state.send_buffer
    order : bytes_of r.sent ++ payloads r.state.send_buffer ≡ payloads d.send_buffer ++ passed_on es

  handle-comes :
      (fd : ℤ) (packet : List ℕ) (d : DataState)
      → IsPacket dest id 1 packet
      → HoldsTransit st.rs.routers id index d.send_buffer
      → (r : Relayed) × (handle net peer (comes fd packet) st d ≡ some r)
        × Keeps (comes fd packet ∷ []) d r
  unfolding handle queued_for packet_header_bytes
  handle-comes fd packet d p holds =
      let h = p.header in
      let c = on_its_way (decrement h) p.body in
      let (held, order) =
        push_chunk-HoldsTransit st.rs.routers id index c d.send_buffer refl holds in
      let d' = queued_for (decrement h) p.body index hop_fd d in
      let queued : d'.send_buffer ≡ push_chunk id index c d.send_buffer =
        enabled-send_buffer hop_fd _ ∙ ap (λ i. push_chunk i index c d.send_buffer) p.of_transfer in
      (
        record { routing = st; state = d'; sent = [] },
        rw (
          p.bytes,
          receive-forwarded net fd h p.body st st d me index hop_fd is_me (rw (p.to_dest) other)
              p.fits p.alive in_range (rw (p.to_dest) way),
        ),
        record {
          same = refl;
          holds = rw queued held;
          order =
              rw queued order
              ∙ ap (λ b. payloads d.send_buffer ++ b ∷ [])
                  (sym (
                    ap lower_ttl p.bytes
                    ∙ lower_ttl-bytes h p.body p.fits (omega (arith, p.alive))));
        },
      )

  handle-writable :
      (fd : ℤ) (d : DataState)
      → HoldsTransit st.rs.routers id index d.send_buffer
      → (r : Relayed) × (handle net peer (writable fd) st d ≡ some r)
        × Keeps (writable fd ∷ []) d r
        × (r.state.send_buffer ≡ map (advance fd st.rs.routers) d.send_buffer)
  unfolding handle
  handle-writable fd d holds =
      let l = leaves peer st.rs.routers hop id index listed fd d.send_buffer holds in
      let (d', run, rest) = write_handler-fronts peer fd st.rs.routers d l.hops in
      (
        record {
          routing = st;
          state = d';
          sent = messages_of peer fd (all_leaving fd st.rs.routers d.send_buffer);
        },
        rw run refl,
        record {
          same = refl;
          holds = rw rest l.holds;
          order = rw rest (l.order) ∙ sym (append-nil (payloads d.send_buffer));
        },
        rest,
      )

  handle-Keeps :
      (e : Ready) (d : DataState)
      → IsTransit dest id e
      → HoldsTransit st.rs.routers id index d.send_buffer
      → (r : Relayed) × (handle net peer e st d ≡ some r) × Keeps (e ∷ []) d r
  handle-Keeps (comes fd packet) d p holds = handle-comes fd packet d p holds
  handle-Keeps (writable fd) d t holds =
      let (r, run, k, rest) = handle-writable fd d holds in (r, run, k)

  handle_all-Keeps :
      (es : List Ready) (d : DataState)
      → All (IsTransit dest id) es
      → HoldsTransit st.rs.routers id index d.send_buffer
      → (r : Relayed) × (handle_all net peer es st d ≡ some r) × Keeps es d r
  unfolding handle_all
  handle_all-Keeps [] d t holds = (
    record { routing = st; state = d; sent = [] },
    refl,
    record { same = refl; holds = holds; order = sym (append-nil (payloads d.send_buffer)) },
  )
  handle_all-Keeps (e ∷ es) d t holds =
      let (r, run, k) = handle-Keeps e d t.0 holds in
      let (r', run', k') = handle_all-Keeps es r.state t.1 k.holds in
      (
        record r' { sent = r.sent ++ r'.sent },
        rw (run, k.same, run') refl,
        record {
          same = k'.same;
          holds = k'.holds;
          order =
              ap (λ l. l ++ payloads r'.state.send_buffer)
                (map-append (λ m. m.bytes) r.sent r'.sent)
              ∙ append_assoc (bytes_of r.sent) (bytes_of r'.sent) (payloads r'.state.send_buffer)
              ∙ ap (λ l. bytes_of r.sent ++ l) k'.order
              ∙ sym (append_assoc (bytes_of r.sent) (payloads r.state.send_buffer) (passed_on es))
              ∙ ap (λ l. l ++ passed_on es) k.order
              ∙ append_assoc (payloads d.send_buffer) (passed_on (e ∷ [])) (passed_on es)
              ∙ ap (λ l. payloads d.send_buffer ++ l) (passed_on_cons e es);
        },
      )

  -- As many calls as packets wait, or more, take them all out.
  drains :
      (k : ℕ) (d : DataState)
      → hop.data_socket_fd ≡ hop_fd
      → HoldsTransit st.rs.routers id index d.send_buffer
      → length (payloads d.send_buffer) ≤ k
      → (r : Relayed) × (handle_all net peer (calls k hop_fd) st d ≡ some r)
        × (bytes_of r.sent ≡ payloads d.send_buffer)
        × (payloads r.state.send_buffer ≡ [])
  unfolding handle_all handle
  drains zero d same holds small =
      let empty : payloads d.send_buffer ≡ [] = length-zero (payloads d.send_buffer) small in
      (record { routing = st; state = d; sent = [] }, refl, sym empty, empty)
  drains (suc k) d same holds small =
      let (r, run, one, rest) = handle-writable hop_fd d holds in
      let (r', run', sent, empty) = drains k r.state same one.holds (
        rw rest (
          leaves_one peer st.rs.routers hop id index listed hop_fd k d.send_buffer same holds
            small)) in
      (
        record r' { sent = r.sent ++ r'.sent },
        rw (run, one.same, run') refl,
        map-append (λ m. m.bytes) r.sent r'.sent
            ∙ ap (λ l. bytes_of r.sent ++ l) sent
            ∙ one.order
            ∙ append-nil (payloads d.send_buffer),
        empty,
      )

  pub handle_all-InOrder :
      (es : List Ready) (d : DataState)
      → All (IsTransit dest id) es
      → HoldsTransit st.rs.routers id index d.send_buffer
      → hop.data_socket_fd ≡ hop_fd
      → (r : Relayed) × (handle_all net peer es st d ≡ some r) × InOrder net peer hop_fd es d r
  handle_all-InOrder es d transit holds same =
      let (r, run, k) = handle_all-Keeps es d transit holds in
      (
        r,
        run,
        record {
          order = k.order;
          drained = λ n enough. rw (k.same) (drains n r.state same k.holds enough);
        },
      )
