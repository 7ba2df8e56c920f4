-- ===== src/Data/Receive/Journey.antt =====
-- A packet on its way from router to router: `receive` of src/data_routing.cpp at each of them.
use distance_vector_routing.Common.{
  ℕ, suc, ◌-◌, ◌≡◌, ◌≢◌, refl, sym, ap, subst, ◌∙◌, ◌<◌, ◌++◌, true, List, [], ◌∷◌, none, some, ℤ,
  take, drop, arith, get_elem?,
}
use mathlib.Core.Option.{some-injective}
use distance_vector_routing.OrdMap.{lookup}
use distance_vector_routing.Routing.{Router, get_self}
use distance_vector_routing.Routing.Timeout
use distance_vector_routing.Routing.Forward.Steps.{AnswersAll, FitsAll, next_router-OpenHop}
use distance_vector_routing.Routing.Quiet.{Walk, arrived, hop}
use distance_vector_routing.Routing.Network.{Network}
use distance_vector_routing.Routing.Network.Alike.{AllAlike, self_at-AllAlike}
use distance_vector_routing.Routing.Network.Known.{IsNetwork, Runs, linked-IsNode}
use distance_vector_routing.Routing.Network.Ways.{hops}
use distance_vector_routing.Routing.Network.Follow.{IsAddressed, Follows}
use distance_vector_routing.Data.{
  packet_header_size, PacketHeader, packet_header_bytes, FileChunk, DataState,
}
use distance_vector_routing.Data.Receive.{Received, decrement, keep_packet, receive}
use distance_vector_routing.Data.Receive.Transfer.{FitsHeader, receive-kept}
use distance_vector_routing.Data.Receive.Hops.{
  on_its_way, queued_for-lookup, decrement-Fits, receive-forwarded,
}

module _ (system : Timeout.Network) (sock : ℕ → ℤ) (node : Network) (data_of : ℕ → DataState) where
  -- What a router does with a packet that comes to it.
  abbrev TakenIn : ℕ → List ℕ → Received → Type 0
  TakenIn a packet r =
      receive system (sock a) (some (take packet_header_size packet))
        (some (drop packet_header_size packet)) (node a) (data_of a)
      ≡ some r

  -- The packet comes to `d`, which keeps it with the header `h`: each router on the way queues it for
  -- the next one.
  pub data Arrives (d : ℕ) (h : PacketHeader) (body : List ℕ) : ℕ → List ℕ → Type 0 where
    keeps :
        (a : ℕ) (packet : List ℕ)
        → a ≡ d
        → TakenIn a packet (record {
          routing = node a;
          state = (keep_packet h body (data_of a)).0;
          written = (keep_packet h body (data_of a)).1;
          watched = true;
        })
        → Arrives d h body a packet
    passes :
        (a n index : ℕ) (packet : List ℕ) (r : Received) (c : FileChunk) (next : Router)
        → TakenIn a packet r
        → lookup h.transfer_id r.state.send_buffer
          ≡ some (record { next_hop = index; chunks = c ∷ [] })
        → get_elem? r.routing.rs.routers index ≡ some next
        → next.router_id ≡ n
        → Arrives d h body n c.payload
        → Arrives d h body a packet

FitsAll-AllAlike : (rs ss : List Router) → AllAlike rs ss → FitsAll ss → FitsAll rs
unfolding AllAlike
FitsAll-AllAlike [] [] alike fits = tt
FitsAll-AllAlike [] (s ∷ ss) alike fits = absurd alike
FitsAll-AllAlike (r ∷ rs) [] alike fits = absurd alike
FitsAll-AllAlike (r ∷ rs) (s ∷ ss) alike fits =
    (rw (alike.0.fd) (fits.0), FitsAll-AllAlike rs ss alike.1 fits.1)

lower_one :
    (h : PacketHeader) → FitsHeader h → 0 < h.ttl → decrement h ≡ record h { ttl = h.ttl - 1 }
lower_one h fits alive = ap (λ t. record h { ttl = t }) (omega (arith, fits.ttl_fits))

lower :
    (h : PacketHeader) (k : ℕ)
    → FitsHeader h
    → 0 < h.ttl
    → record (decrement h) { ttl = (decrement h).ttl - k } ≡ record h { ttl = h.ttl - suc k }
lower h k fits alive = ap (λ t. record h { ttl = t }) (omega (arith, fits.ttl_fits))

module _ (net : Network) (IsNode : ℕ → Type 0) (w : IsNetwork net IsNode) (address : ℕ → ℕ)
    (known : IsAddressed net IsNode address) (system : Timeout.Network)
    (answers : AnswersAll system) (fit : (a : ℕ) → IsNode a → FitsAll (net a).rs.routers)
    (sock : ℕ → ℤ) (node : Network) (runs : (a : ℕ) → IsNode a → Runs net IsNode a (node a))
    (data_of : ℕ → DataState) where
  still_fit : (a : ℕ) → IsNode a → FitsAll (node a).rs.routers
  still_fit a is_a =
      FitsAll-AllAlike (node a).rs.routers (net a).rs.routers (runs a is_a).alike (fit a is_a)

  -- A router knows itself by its address.
  itself : (a : ℕ) → IsNode a → (me : Router) × (get_self (node a) ≡ some me) × (me.ip ≡ address a)
  itself a is_a =
      let (me, is_me, id, fits) = w.itself a is_a in
      let r = runs a is_a in
      let (me', is_me', alike) =
        self_at-AllAlike (net a).self (node a).rs.routers (net a).rs.routers me r.alike is_me in
      (me', rw (r.self) is_me', alike.ip ∙ known.own a me is_a is_me)

  other_address : (a d : ℕ) → IsNode a → IsNode d → a ≢ d → address a ≢ address d
  other_address a d is_a is_d other same =
      other
        (some-injective _ _ (sym (known.found a a is_a is_a) ∙ rw same (known.found a d is_a is_d)))

  TakenIn-bytes :
      (a : ℕ) (h : PacketHeader) (body : List ℕ) (r : Received)
      → receive system (sock a) (some (packet_header_bytes h)) (some body) (node a) (data_of a)
        ≡ some r
      → TakenIn system sock node data_of a (packet_header_bytes h ++ body) r
  unfolding packet_header_bytes
  TakenIn-bytes a h body r run = run

  -- With hops enough left, a packet follows the way to its destination.
  pub receive-Arrives :
      (d a total : ℕ) (h : PacketHeader) (body : List ℕ) (way : Walk net d a total)
      → IsNode a
      → IsNode d
      → Follows net address node way
      → FitsHeader h
      → h.dest_ip ≡ address d
      → suc (hops way) < h.ttl
      → ((x : ℕ) → lookup h.transfer_id (data_of x).send_buffer ≡ none)
      → Arrives system sock node data_of d
          (record h { ttl = h.ttl - suc (hops way) })
          body
          a
          (packet_header_bytes h ++ body)
  unfolding Follows hops
  receive-Arrives d a total h body (arrived _ _ same zero_cost) is_a is_d f fits to_d alive fresh =
      let (me, is_me, mine) = itself a is_a in
      let here : me.ip ≡ h.dest_ip = mine ∙ ap address same ∙ sym to_d in
      let kept =
        receive-kept system (sock a) h body (node a) (data_of a) me is_me here fits alive in
      subst (λ h'. Arrives system sock node data_of d h' body a (packet_header_bytes h ++ body))
        (lower_one h fits (omega arith))
        (keeps a (packet_header_bytes h ++ body) same (TakenIn-bytes a h body _ kept))
  receive-Arrives d a total h body (hop _ n rest _ l way sum) is_a is_d f fits to_d alive fresh =
      let (me, is_me, mine) = itself a is_a in
      let o =
        next_router-OpenHop system h.dest_ip n (node a) answers (still_fit a is_a)
          (rw to_d (f.1)) in
      let other : me.ip ≢ h.dest_ip = λ e. other_address a d is_a is_d f.0 (sym mine ∙ e ∙ to_d) in
      let c = on_its_way (decrement h) body in
      let run =
        receive-forwarded system (sock a) h body (node a) o.after (data_of a) me o.index o.fd is_me
          (ground (arith, other)) fits (omega arith) o.in_range o.opened in
      subst (λ h'. Arrives system sock node data_of d h' body a (packet_header_bytes h ++ body))
        (lower h (suc (hops way)) fits (omega arith))
        (passes a n o.index (packet_header_bytes h ++ body) _ c o.router
          (TakenIn-bytes a h body _ run)
          (queued_for-lookup (decrement h) body o.index o.fd (data_of a) ∙ rw (fresh a) refl)
          o.listed o.id
          (receive-Arrives d n rest (decrement h) body way (linked-IsNode net IsNode w a n is_a l)
            is_d f.2 (decrement-Fits h fits (omega arith)) to_d (omega (arith, fits.ttl_fits))
            fresh))
