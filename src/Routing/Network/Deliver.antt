-- ===== src/Routing/Network/Deliver.antt =====
-- One datagram between two routers that are linked.
use native.Mathlib.Decide.{ℕ_discrete}
use mathlib.Core.Option.{some-injective}
use distance_vector_routing.Common.{
  ℕ, ◌≡◌, ◌≢◌, refl, sym, ap, subst, ◌∙◌, map, some, arith, List, length, take, ◌⊎◌, inl, inr,
}
use distance_vector_routing.Routing.{Router, Routing, Timeval, get_self}
use distance_vector_routing.Routing.Vectors.{cell}
use distance_vector_routing.Routing.Update.Process.{
  process_update-Accepted, last_cost, find_by_port_ip-some,
}
use distance_vector_routing.Routing.Payload.{header_size, routing_payload, receive_update}
use distance_vector_routing.Routing.Payload.RoundTrip.{
  told_entry, told_header, Packed, routing_payload-Packed, receive_update-routing_payload,
}
use distance_vector_routing.Routing.Quiet.{route_cost, IsLinked}
use distance_vector_routing.Routing.Network.{Network, Delivery, put, deliver}
use distance_vector_routing.Routing.Network.Alike.{
  length-AllAlike, told_entry-AllAlike, self_at-AllAlike, find_by_port_ip-AllAlike,
}
use distance_vector_routing.Routing.Network.Known.{
  IsNetwork, Runs, route_cost-le_inf, FitsRouter-AllAlike, linked-IsNode,
}
use distance_vector_routing.Routing.Network.Heard.{
  last_cost-listed, Accepted-kept, Accepted-told, Accepted-Runs,
}

-- The network after `n` told `a` its routes: all routers run on, `a` has the costs that `n` has, and
-- no other distance has changed.
pub record Delivered (net : Network) (IsNode : ℕ → Type 0) (n a : ℕ) (node node' : Network)
    : Type 0 where
  pub runs : (x : ℕ) → IsNode x → Runs net IsNode x (node' x)
  pub told : (d : ℕ) → IsNode d → cell (node' a).distance_vectors n d ≡ route_cost (node n) d
  pub kept :
      (x m d : ℕ)
      → (x ≢ a) ⊎ (n ≢ m)
      → cell (node' x).distance_vectors m d ≡ cell (node x).distance_vectors m d

-- Each distance stays as it was, or becomes the cost that the neighbour has.
pub Delivered-cell :
    {net : Network} {IsNode : ℕ → Type 0} {n a : ℕ} {node node' : Network}
    → Delivered net IsNode n a node node'
    → (x m d : ℕ) → IsNode d
    → (cell (node' x).distance_vectors m d ≡ cell (node x).distance_vectors m d)
      ⊎ (cell (node' x).distance_vectors m d ≡ route_cost (node m) d)
Delivered-cell {n = n} {a = a} {node = node} {node' = node'} d x m k is_k = elim (ℕ_discrete x a) [
  | no other ↦ inl (d.kept x m k (inl other))
  | yes same ↦ elim (ℕ_discrete n m) [
    | no other ↦ inl (d.kept x m k (inr other))
    | yes e ↦ inr (
        subst (λ b. cell (node' b).distance_vectors m k ≡ route_cost (node m) k) (sym same)
          (subst (λ q. cell (node' a).distance_vectors q k ≡ route_cost (node q) k) e
            (d.told k is_k)))
  ]
]

-- Packing a payload changes no route that can be read.
Packed-Runs :
    (net : Network) (IsNode : ℕ → Type 0) (n : ℕ) (st : Routing) (me : Router)
    (p : List ℕ × Routing)
    → Packed st me p
    → Runs net IsNode n st
    → Runs net IsNode n p.1
Packed-Runs net IsNode n st me p packed r = rw (packed.others) (record {
  alike = r.alike;
  self = r.self;
  count = r.count;
  links = r.links;
  own = rw (route_cost, packed.routes n) (r.own);
  solved = λ d is_d other. rw (packed.routes d) (r.solved d is_d other);
})

put_self : (a : ℕ) (st : Routing) (node : Network) → put a st node a ≡ st
put_self a st node = ground arith

-- What holds of the new state and of the other old ones holds of all.
put-all :
    (P : ℕ → Routing → Type 0) (a : ℕ) (st : Routing) (node : Network)
    → P a st
    → ((x : ℕ) → a ≢ x → P x (node x))
    → (x : ℕ) → P x (put a st node x)
put-all P a st node here others x = elim (ℕ_discrete a x) [
  | yes e ↦ subst (λ y. P y (put a st node y)) e (subst (P a) (sym (put_self a st node)) here)
  | no h ↦
      let other : put a st node x ≡ node x = ground (arith, h) in
      subst (P x) (sym other) (others x h)
]

module _ (net : Network) (IsNode : ℕ → Type 0) (w : IsNetwork net IsNode) where
  -- What a router packs is taken in by its neighbour.
  record Taken (now : Timeval) (n a : ℕ) (sender receiver : Routing) : Type 0 where
    payload : List ℕ
    sender' : Routing
    receiver' : Routing
    packs : routing_payload sender ≡ some (payload, sender')
    takes :
        receive_update now (some (take header_size payload)) (some payload) receiver
        ≡ some receiver'
    sender_runs : Runs net IsNode n sender'
    sender_same : sender'.distance_vectors ≡ sender.distance_vectors
    receiver_runs : Runs net IsNode a receiver'
    told : (d : ℕ) → IsNode d → cell receiver'.distance_vectors n d ≡ route_cost sender d
    kept :
        (m d : ℕ) → n ≢ m → cell receiver'.distance_vectors m d ≡ cell receiver.distance_vectors m d

  taken :
      (now : Timeval) (n a : ℕ) (sender receiver : Routing)
      → IsNode a
      → IsLinked net a n
      → Runs net IsNode n sender
      → Runs net IsNode a receiver
      → Taken now n a sender receiver
  taken now n a sender receiver is_a l s r =
      let is_n = linked-IsNode net IsNode w a n is_a l in
      let (me, is_me, me_id, me_fits) = w.itself n is_n in
      let (me', is_me', me_alike) =
        self_at-AllAlike (net n).self sender.rs.routers (net n).rs.routers me s.alike is_me in
      let is_sender : get_self sender ≡ some me' = rw (s.self) is_me' in
      let counted : length sender.rs.routers ≡ sender.rs.router_count =
        length-AllAlike sender.rs.routers (net n).rs.routers s.alike
        ∙ w.counted n is_n
        ∙ sym s.count in
      let fits =
        FitsRouter-AllAlike IsNode sender.routing_table sender.rs.routers (net n).rs.routers s.alike
          (λ d is_d. route_cost-le_inf net IsNode n d sender s is_d) (w.fields n is_n) in
      let (payload, sender', packs, arrives) =
        receive_update-routing_payload now sender receiver me' is_sender counted
          (rw (s.count) (w.some_router n is_n)) (rw (s.count) (w.count_fits n is_n))
          (rw (me_alike.port) (me_fits.port_fits)) (rw (me_alike.ip) (me_fits.ip_fits)) fits
          (rw (r.count) (w.some_router a is_a)) in
      let (p, packs', packed) = routing_payload-Packed sender me' is_sender counted in
      let same : p ≡ (payload, sender') = some-injective _ _ (sym packs' ∙ packs) in
      let (i, src, found, src_id, live) = w.heard a n me is_a l is_me in
      let (src', found', src_alike) =
        find_by_port_ip-AllAlike me.router_port me.ip receiver.rs.routers (net a).rs.routers i src
          r.alike found in
      let (self_a, is_self, self_id, self_fits) = w.itself a is_a in
      let (self_a', is_self', self_alike) =
        self_at-AllAlike (net a).self receiver.rs.routers (net a).rs.routers self_a r.alike
          is_self in
      let us = map (told_entry sender.routing_table) sender.rs.routers in
      let (receiver', run, heard) =
        process_update-Accepted now (told_header sender.rs.router_count me') us receiver i src'
          self_a' (rw (me_alike.port, me_alike.ip) found') (src_alike.gone ∙ live)
          (rw (r.self) is_self') in
      let at_i = (find_by_port_ip-some _ _ receiver.rs.routers i src' found').0 in
      let apart = w.apart a n is_a l in
      record {
        payload = payload;
        sender' = sender';
        receiver' = receiver';
        packs = packs;
        takes = arrives ∙ run;
        sender_runs =
            subst (λ q. Runs net IsNode n q.1) same
              (Packed-Runs net IsNode n sender me' p packed s);
        sender_same =
            subst (λ q. q.1.distance_vectors ≡ sender.distance_vectors) same
              (ap (λ st. st.distance_vectors) packed.others);
        receiver_runs =
            Accepted-Runs net IsNode w now a n i src' self_a' us receiver receiver' is_a apart
              (src_alike.id ∙ src_id) (self_alike.id ∙ self_id) at_i r heard;
        told = λ d is_d.
            let (j, q, at_j, q_id) = w.listed n d is_n is_d in
            Accepted-told net IsNode w now a n i src' self_a' us receiver receiver' is_a apart
              (src_alike.id ∙ src_id) (self_alike.id ∙ self_id) at_i r heard d
            ∙ ap (λ es. last_cost d es 0)
                (told_entry-AllAlike sender.routing_table sender.rs.routers (net n).rs.routers
                  s.alike)
            ∙ last_cost-listed sender.routing_table d 0 (net n).rs.routers j q at_j q_id;
        kept =
            Accepted-kept net IsNode w now a n i src' self_a' us receiver receiver' is_a apart
              (src_alike.id ∙ src_id) (self_alike.id ∙ self_id) at_i r heard;
      }

  kept_here :
      {now : Timeval} {n a : ℕ} {sender receiver : Routing} (t : Taken now n a sender receiver)
      (m k : ℕ)
      → (a ≢ a) ⊎ (n ≢ m)
      → cell t.receiver'.distance_vectors m k ≡ cell receiver.distance_vectors m k
  kept_here t m k (inl h) = absurd (h refl)
  kept_here t m k (inr h) = t.kept m k h

  -- Along a link, a delivery does not fault.
  pub deliver-Delivered :
      (d : Delivery) (node : Network)
      → IsNode d.receiver
      → IsLinked net d.receiver d.sender
      → ((x : ℕ) → IsNode x → Runs net IsNode x (node x))
      → (node' : Network) × (deliver d node ≡ some node')
        × Delivered net IsNode d.sender d.receiver node node'
  unfolding deliver
  deliver-Delivered d node is_a l runs =
      let a = d.receiver in
      let n = d.sender in
      let t =
        taken d.now n a (node n) (node a) is_a l (runs n (linked-IsNode net IsNode w a n is_a l))
          (runs a is_a) in
      let sent = put n t.sender' node in
      (
        put a t.receiver' sent,
        rw (t.packs, t.takes),
        record {
          runs =
              put-all (λ x st. IsNode x → Runs net IsNode x st) a t.receiver' sent
                (λ is_x. t.receiver_runs)
                (λ x _.
                  put-all (λ x st. IsNode x → Runs net IsNode x st) n t.sender' node
                    (λ is_x. t.sender_runs) (λ x _. runs x) x);
          told = λ k is_k.
              ap (λ st. cell st.distance_vectors n k) (put_self a t.receiver' sent) ∙ t.told k is_k;
          kept = λ x m k.
              put-all
                (λ x st.
                  (x ≢ a) ⊎ (n ≢ m)
                  → cell st.distance_vectors m k ≡ cell (node x).distance_vectors m k)
                a t.receiver' sent (kept_here t m k)
                (λ x _.
                  put-all
                    (λ x st.
                      (x ≢ a) ⊎ (n ≢ m)
                      → cell st.distance_vectors m k ≡ cell (node x).distance_vectors m k)
                    n t.sender' node (λ _. ap (λ v. cell v m k) t.sender_same) (λ x _ _. refl) x)
                x;
        },
      )
