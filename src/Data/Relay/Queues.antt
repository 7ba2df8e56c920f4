-- ===== src/Data/Relay/Queues.antt =====
-- The queues of a router in which one transfer's packets wait, beside the empty queues that earlier
-- transfers left: src/data_routing.cpp never erases an entry of `send_buffer`.
use mathlib.Core.List.{append_assoc, append-nil}
use distance_vector_routing.Common.{
  ℕ, ℤ, ◌≡◌, refl, sym, ap, subst, ◌∙◌, ◌<◌, ◌⊎◌, inl, inr, Bool, Bool-cases, true, false, List, [],
  ◌∷◌, ◌++◌, some, none, map, take, drop, arith, get_elem?, All, if◌then◌else◌,
}
use distance_vector_routing.OrdMap.{OrdMap, insert, lookup}
use distance_vector_routing.Routing.{Router}
use distance_vector_routing.Data.{FileChunk, SendQueue, push_chunk}
use distance_vector_routing.Data.Sendfile.{push_chunks}
use distance_vector_routing.Data.Fds.{eq_fd}
use distance_vector_routing.Data.Write.Fronts.{HasHop, faces, leaving, advance, all_leaving}

-- An empty queue, towards a router in the list.
pub record IsEmpty (routers : List Router) (entry : ℕ × SendQueue) : Type 0 where
  pub nothing : entry.1.chunks ≡ []
  pub hop : HasHop routers entry

-- Empty queues of transfers with greater numbers.
abbrev pub AllAbove : List Router → ℕ → OrdMap SendQueue → Type 0
AllAbove routers id m = All (λ e. (id < e.0) × IsEmpty routers e) m

abbrev pub payloads : OrdMap SendQueue → List (List ℕ)
payloads [] = []
payloads ((k, q) ∷ m) = map (λ c. c.payload) q.chunks ++ payloads m

-- The packets `cs` of the transfer `id` wait for the hop at `index`, and the queues of all other
-- transfers are empty. Where no packets wait, the transfer may have an empty queue, or none.
abbrev pub Holds : List Router → ℕ → ℕ → List FileChunk → OrdMap SendQueue → Type 0
Holds routers id index cs [] = cs ≡ []
Holds routers id index cs ((k, q) ∷ m) =
    ((k < id) × IsEmpty routers (k, q) × Holds routers id index cs m)
    ⊎ (((k ≡ id) × (q ≡ record { next_hop = index; chunks = cs }) × AllAbove routers id m)
        ⊎ ((cs ≡ []) × AllAbove routers id ((k, q) ∷ m)))

module _ (routers : List Router) (id index : ℕ) where
  lookup-above : (m : OrdMap SendQueue) → AllAbove routers id m → lookup id m ≡ none
  unfolding lookup
  lookup-above [] h = refl
  lookup-above ((k, q) ∷ m) h = ground (arith, h.0.0, lookup-above m h.1)

  push_chunk-above :
      (c : FileChunk) (m : OrdMap SendQueue)
      → AllAbove routers id m
      → push_chunk id index c m ≡ (id, record { next_hop = index; chunks = c ∷ [] }) ∷ m
  unfolding push_chunk insert lookup
  push_chunk-above c [] h = refl
  push_chunk-above c ((k, q) ∷ m) h = rw (lookup-above ((k, q) ∷ m) h) (ground (arith, h.0.0))

  push_chunk-below :
      (c : FileChunk) (k : ℕ) (q : SendQueue) (m : OrdMap SendQueue)
      → k < id
      → push_chunk id index c ((k, q) ∷ m) ≡ (k, q) ∷ push_chunk id index c m
  unfolding push_chunk insert lookup
  push_chunk-below c k q m below = ground arith

  push_chunk-here :
      (c : FileChunk) (k : ℕ) (q : SendQueue) (m : OrdMap SendQueue)
      → k ≡ id
      → push_chunk id index c ((k, q) ∷ m) ≡ (id, record q { chunks = q.chunks ++ c ∷ [] }) ∷ m
  unfolding push_chunk insert lookup
  push_chunk-here c k q m same = rw same (ground arith)

  -- A packet goes behind those that wait.
  pub push_chunk-Holds :
      (c : FileChunk) (cs : List FileChunk) (m : OrdMap SendQueue)
      → Holds routers id index cs m
      → Holds routers id index (cs ++ c ∷ []) (push_chunk id index c m)
  push_chunk-Holds c cs [] none_wait =
      rw (none_wait, push_chunk-above c [] tt) (inr (inl (refl, refl, tt)))
  push_chunk-Holds c cs ((k, q) ∷ m) (inl (below, empty, h)) =
      rw (push_chunk-below c k q m below) (inl (below, empty, push_chunk-Holds c cs m h))
  push_chunk-Holds c cs ((k, q) ∷ m) (inr (inl (same, is_q, above))) =
      rw (push_chunk-here c k q m same, is_q) (inr (inl (refl, refl, above)))
  push_chunk-Holds c cs ((k, q) ∷ m) (inr (inr (none_wait, above))) =
      rw (none_wait, push_chunk-above c ((k, q) ∷ m) above) (inr (inl (refl, refl, above)))

  pub push_chunks-Holds :
      (ds cs : List FileChunk) (m : OrdMap SendQueue)
      → Holds routers id index cs m
      → Holds routers id index (cs ++ ds) (push_chunks id index ds m)
  unfolding push_chunks
  push_chunks-Holds [] cs m h = rw (append-nil cs) h
  push_chunks-Holds (d ∷ ds) cs m h =
      subst (λ l. Holds routers id index l (push_chunks id index ds (push_chunk id index d m)))
        (append_assoc cs (d ∷ []) ds)
        (push_chunks-Holds ds (cs ++ d ∷ []) (push_chunk id index d m) (push_chunk-Holds d cs m h))

  payloads-above : (m : OrdMap SendQueue) → AllAbove routers id m → payloads m ≡ []
  payloads-above [] h = refl
  payloads-above ((k, q) ∷ m) h = rw (h.0.1.nothing, payloads-above m h.1) refl

  -- What waits is what the queue of the transfer holds.
  pub payloads-Holds :
      (cs : List FileChunk) (m : OrdMap SendQueue)
      → Holds routers id index cs m
      → payloads m ≡ map (λ c. c.payload) cs
  payloads-Holds cs [] none_wait = rw none_wait refl
  payloads-Holds cs ((k, q) ∷ m) (inl (below, empty, h)) =
      rw (empty.nothing) (payloads-Holds cs m h)
  payloads-Holds cs ((k, q) ∷ m) (inr (inl (same, is_q, above))) =
      rw (is_q, payloads-above m above) (append-nil (map (λ c. c.payload) cs))
  payloads-Holds cs ((k, q) ∷ m) (inr (inr (none_wait, above))) =
      rw none_wait (payloads-above ((k, q) ∷ m) above)

  advance-empty :
      (fd : ℤ) (k : ℕ) (q : SendQueue) → q.chunks ≡ [] → advance fd routers (k, q) ≡ (k, q)
  advance-empty fd k q nothing = elim (Bool-cases (faces fd routers q)) [
    | inr away ↦ rw away refl
    | inl here ↦ rw here (
        ap (λ cs. (k, record q { chunks = drop 1 cs })) nothing
        ∙ ap (λ cs. (k, record q { chunks = cs })) (sym nothing))
  ]

  leaving-empty : (fd : ℤ) (q : SendQueue) → q.chunks ≡ [] → leaving fd routers q ≡ []
  leaving-empty fd q nothing = elim (Bool-cases (faces fd routers q)) [
    | inr away ↦ rw away refl
    | inl here ↦ rw (here, nothing) refl
  ]

  above-still :
      (fd : ℤ) (m : OrdMap SendQueue)
      → AllAbove routers id m
      → (All (HasHop routers) m)
        × (map (advance fd routers) m ≡ m)
        × (all_leaving fd routers m ≡ [])
  above-still fd [] h = (tt, refl, refl)
  above-still fd ((k, q) ∷ m) h =
      let (hops, still, none_leave) = above-still fd m h.1 in
      (
        (h.0.1.hop, hops),
        rw still (ap (λ e. e ∷ m) (advance-empty fd k q h.0.1.nothing)),
        rw none_leave (append-nil (leaving fd routers q) ∙ leaving-empty fd q h.0.1.nothing),
      )

  module _ (hop : Router) (listed : get_elem? routers index ≡ some hop) where
    -- What a call of `write_handler` for the descriptor takes from the queues and leaves in them.
    pub record TakesOne (fd : ℤ) (cs : List FileChunk) (m : OrdMap SendQueue) : Type 0 where
      pub hops : All (HasHop routers) m
      pub taken : all_leaving fd routers m ≡ (if eq_fd hop.data_socket_fd fd then take 1 cs else [])
      pub left :
          Holds routers id index
            (if eq_fd hop.data_socket_fd fd then drop 1 cs else cs)
            (map (advance fd routers) m)

    none_left : (b : Bool) (cs : List FileChunk) → cs ≡ [] → (if b then drop 1 cs else cs) ≡ []
    none_left true cs none_wait = rw none_wait refl
    none_left false cs none_wait = none_wait

    none_taken : (b : Bool) (cs : List FileChunk) → cs ≡ [] → [] ≡ (if b then take 1 cs else [])
    none_taken true cs none_wait = rw none_wait refl
    none_taken false cs none_wait = refl

    pub takes_one :
        (fd : ℤ) (cs : List FileChunk) (m : OrdMap SendQueue)
        → Holds routers id index cs m
        → TakesOne fd cs m
    takes_one fd cs [] none_wait = record {
      hops = tt;
      taken = none_taken (eq_fd hop.data_socket_fd fd) cs none_wait;
      left = none_left (eq_fd hop.data_socket_fd fd) cs none_wait;
    }
    takes_one fd cs ((k, q) ∷ m) (inl (below, empty, h)) =
        let t = takes_one fd cs m h in
        record {
          hops = (empty.hop, t.hops);
          taken = rw (leaving-empty fd q empty.nothing) (t.taken);
          left = rw (advance-empty fd k q empty.nothing) (inl (below, empty, t.left));
        }
    takes_one fd cs ((k, q) ∷ m) (inr (inl (same, is_q, above))) =
        let (hops, still, none_leave) = above-still fd m above in
        let has : HasHop routers (k, q) = record { hop = hop; is_hop = rw is_q listed } in
        elim (Bool-cases (eq_fd hop.data_socket_fd fd)) [
          | inl here ↦ record {
            hops = (has, hops);
            taken = rw (is_q, listed, here, none_leave) (append-nil (take 1 cs));
            left = rw (is_q, listed, here, still) (inr (inl (same, refl, above)));
          }
          | inr away ↦ record {
            hops = (has, hops);
            taken = rw (is_q, listed, away, none_leave) refl;
            left = rw (is_q, listed, away, still) (inr (inl (same, refl, above)));
          }
        ]
    takes_one fd cs ((k, q) ∷ m) (inr (inr (none_wait, above))) =
        let (hops, still, none_leave) = above-still fd ((k, q) ∷ m) above in
        record {
          hops = hops;
          taken = none_leave ∙ none_taken (eq_fd hop.data_socket_fd fd) cs none_wait;
          left =
              subst (Holds routers id index (if eq_fd hop.data_socket_fd fd then drop 1 cs else cs))
                (sym still)
                (inr (inr (none_left (eq_fd hop.data_socket_fd fd) cs none_wait, above)));
        }
