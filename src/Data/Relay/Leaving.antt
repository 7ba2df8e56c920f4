-- ===== src/Data/Relay/Leaving.antt =====
-- What `write_handler` takes out of the queues of a router that packets go through.
use distance_vector_routing.Common.{
  ℕ, suc, ◌≡◌, refl, ◌≤◌, true, false, Bool-cases, inl, inr, List, [], ◌∷◌, ◌++◌, some, map, take,
  drop, length, ℤ, arith, get_elem?, All,
}
use distance_vector_routing.OrdMap.{OrdMap}
use distance_vector_routing.Routing.{Router}
use distance_vector_routing.Data.{FileChunk, SendQueue}
use distance_vector_routing.Data.Fds.{eq_fd}
use distance_vector_routing.Data.Fds.Laws.{eq_fd_refl}
use distance_vector_routing.Data.Write.Fronts.{HasHop, advance, all_leaving, messages_of}
use distance_vector_routing.Data.Relay.{bytes_of}
use distance_vector_routing.Data.Relay.Queues.{payloads, payloads-Holds, takes_one}
use distance_vector_routing.Data.Relay.Transit.{
  HoldsTransit, messages_of-passing, front_back, All-take_drop,
}

module _ (peer : ℤ → ℕ) (routers : List Router) (hop : Router) (id index : ℕ)
    (listed : get_elem? routers index ≡ some hop) where
  -- What one call of `write_handler` takes out.
  pub record Leaves (fd : ℤ) (m : OrdMap SendQueue) : Type 0 where
    pub hops : All (HasHop routers) m
    pub holds : HoldsTransit routers id index (map (advance fd routers) m)
    pub order :
        bytes_of (messages_of peer fd (all_leaving fd routers m))
          ++ payloads (map (advance fd routers) m)
        ≡ payloads m

  pub leaves : (fd : ℤ) (m : OrdMap SendQueue) → HoldsTransit routers id index m → Leaves fd m
  leaves fd m (cs, passing, holds) =
      let t = takes_one routers id index hop listed fd cs m holds in
      let waits = payloads-Holds routers id index cs m holds in
      let (front, back) = All-take_drop (λ c. c.is_origin ≡ false) cs passing in
      elim (Bool-cases (eq_fd hop.data_socket_fd fd)) [
        | inr away ↦
            let left = rw away at t.left in
            record {
              hops = t.hops;
              holds = (cs, passing, left);
              order = rw (t.taken, away, payloads-Holds routers id index cs _ left, waits) refl;
            }
        | inl here ↦
            let left = rw here at t.left in
            record {
              hops = t.hops;
              holds = (drop 1 cs, back, left);
              order =
                  rw
                    (
                      t.taken,
                      here,
                      payloads-Holds routers id index (drop 1 cs) _ left,
                      messages_of-passing peer fd (take 1 cs) front,
                      waits,
                    )
                    (front_back cs);
            }
      ]

  -- A call for the descriptor of the hop takes one packet out.
  pub leaves_one :
      (fd : ℤ) (k : ℕ) (m : OrdMap SendQueue)
      → hop.data_socket_fd ≡ fd
      → HoldsTransit routers id index m
      → length (payloads m) ≤ suc k
      → length (payloads (map (advance fd routers) m)) ≤ k
  leaves_one fd k m same (cs, passing, holds) small =
      let t = takes_one routers id index hop listed fd cs m holds in
      let here : eq_fd hop.data_socket_fd fd ≡ true = rw same (eq_fd_refl fd) in
      let left = rw here at t.left in
      rw (payloads-Holds routers id index (drop 1 cs) _ left)
        (shorter cs (rw (payloads-Holds routers id index cs m holds) at small))
    where
      shorter :
          {k : ℕ} (cs : List FileChunk)
          → length (map (λ c. c.payload) cs) ≤ suc k
          → length (map (λ c. c.payload) (drop 1 cs)) ≤ k
      shorter [] small = omega arith
      shorter (c ∷ cs) small = omega arith
