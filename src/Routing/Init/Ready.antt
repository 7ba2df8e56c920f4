-- ===== src/Routing/Init/Ready.antt =====
-- What a router has after its first INIT.
use distance_vector_routing.Common.{
  ℕ, ◌≡◌, refl, sym, ap, ◌∙◌, ◌+◌, ◌^◌, ◌<◌, ◌++◌, true, List, [], ◌∷◌, Option, none, some, arith,
  ◌==◌, if◌then◌else◌, length, get_elem?, All,
}
use distance_vector_routing.OrdMap.{lookup}
use distance_vector_routing.Bytes.{htons, bytes16, ntohui16}
use distance_vector_routing.Bytes.RoundTrip.{ntohui16-bytes}
use distance_vector_routing.Routing.{inf, is_self, Router, Routers, Routing, self_at, get_self}
use distance_vector_routing.Routing.Recompute.Best.{best_route, best_route-same, is_destination}
use distance_vector_routing.Routing.Recompute.Shortest.{recompute-Recomputed}
use distance_vector_routing.Routing.Init.{
  Host, find_self, init_rows, InitTables, init_links, init_tables, parse_routers, parse_init,
}
use distance_vector_routing.Routing.Init.Message.{
  InitEntry, FitsInit, init_message, init_entries, routers_of, read_routers-entries,
}
use distance_vector_routing.Routing.Init.Tables.{
  Distinct, init_rows-cell, init_links-other, init_links-Linked,
}
use distance_vector_routing.Routing.Init.Listed.{IsSelf, find_self-found}
use distance_vector_routing.Routing.Init.First.{
  FirstRoutes, FirstDistances, routers_of-finite, first_tables, first_tables-routes,
}

init_tables_self :
    (rs : List Router) (self : Option ℕ) (me : Router) (t : InitTables)
    → self_at rs self ≡ some me
    → init_tables rs self t ≡ some (init_links me.router_id rs t)
unfolding init_tables
init_tables_self [] none me t h = cc
init_tables_self [] (some i) me t h = cc
init_tables_self (r ∷ rs) self me t h = rw h

-- The state of a router that was told of `es`.
pub record Initialised (host : Host) (update_interval : ℕ) (es : List InitEntry) (me : Router)
    (st : Routing) : Type 0 where
  pub is_me : get_self st ≡ some me
  pub own_type : is_self me.type ≡ true
  pub rs : st.rs ≡ record {
    router_count = length es;
    update_interval = update_interval;
    routers = routers_of host 0 es;
  }
  pub routes : FirstRoutes (routers_of host 0 es) me st
  pub distances : FirstDistances (routers_of host 0 es) me st.distance_vectors
  pub solved :
      (d : ℕ)
      → is_destination d st.rs.routers ≡ true
      → lookup d st.routing_table
        ≡ some (best_route st.distance_vectors me.router_id st.rs.routers d)

parse_routers-Initialised :
    (host : Host) (update_interval : ℕ) (es : List InitEntry) (st : Routing) (self : Option ℕ)
    → All FitsInit es
    → Distinct (routers_of host 0 es)
    → IsSelf (routers_of host 0 es) self
    → let routers = routers_of host 0 es in
      let rs : Routers = record {
        router_count = length es;
        update_interval = update_interval;
        routers = routers;
      } in
      (st' : Routing) × (me : Router) × (parse_routers rs self routers st ≡ some st')
      × Initialised host update_interval es me st'
unfolding parse_routers
parse_routers-Initialised host update_interval es st self fits apart s =
    let routers = routers_of host 0 es in
    let known : self_at routers self ≡ some s.me = rw (s.is_index) (s.listed) in
    let tables =
      first_tables routers s.index s.me st.distance_vectors st.routing_table apart s.listed
        s.is_self (routers_of-finite host 0 es fits) in
    let st1 : Routing = record st {
      self = self;
      rs = record {
        router_count = length es;
        update_interval = update_interval;
        routers = routers;
      };
      distance_vectors = tables.vectors;
      routing_table = tables.table;
    } in
    let start : InitTables = record {
      vectors = init_rows routers 0 routers st.distance_vectors;
      table = st.routing_table;
    } in
    let (st', run, r) = recompute-Recomputed st1 s.me known in
    (
      st',
      s.me,
      rw (init_tables_self routers self s.me start known) run,
      record {
        is_me = rw (r.rs, r.self) known;
        own_type = s.is_self;
        rs = r.rs;
        routes =
            first_tables-routes routers s.index s.me st.distance_vectors st.routing_table apart
              s.listed s.is_self (routers_of-finite host 0 es fits) st1 st' refl refl refl r;
        distances = record {
          own_row = λ k q at_k.
              r.vectors s.me.router_id q.router_id
              ∙ (init_links-Linked s.me.router_id routers start k q apart at_k).cost;
          other_rows = λ k m n d at_k at_m other.
              r.vectors n.router_id d.router_id
              ∙ init_links-other s.me.router_id routers start n.router_id d.router_id other
              ∙ init_rows-cell routers 0 routers st.distance_vectors k m n d apart apart at_k at_m
              ∙ ap (λ x. if x == m then 0 else inf) (omega arith);
        };
        solved = λ d dest.
            r.table d
            ∙ rw (r.rs) (
                rw (rw (r.rs) at dest) (
                  ap some (
                    sym (
                      best_route-same st'.distance_vectors tables.vectors s.me.router_id d r.vectors
                        routers))));
      },
    )

-- The message is read as it was laid out.
parse_init-message :
    (host : Host) (update_interval : ℕ) (es : List InitEntry) (st : Routing)
    → st.rs.routers ≡ []
    → length es < 2 ^ 16
    → update_interval < 2 ^ 16
    → All FitsInit es
    → let routers = routers_of host 0 es in
      parse_init host (init_message update_interval es) st
      ≡ parse_routers
          (record {
            router_count = length es;
            update_interval = update_interval;
            routers = routers;
          })
          (find_self 0 st.self routers)
          routers
          st
unfolding parse_init
parse_init-message host update_interval es st fresh few interval_fits fits =
    let message = init_message update_interval es in
    let count : ntohui16 message 0 ≡ some (length es, 2) =
      ntohui16-bytes [] (bytes16 (htons update_interval) ++ init_entries es) (length es) few in
    let interval : ntohui16 message 2 ≡ some (update_interval, 4) =
      ntohui16-bytes (bytes16 (htons (length es))) (init_entries es) update_interval
        interval_fits in
    let read =
      read_routers-entries host es (bytes16 (htons (length es)) ++ bytes16 (htons update_interval))
        0 4 refl fits in
    simp (count, interval, read, fresh)

-- The first INIT, whose routers have different ids and one of whom is this one: `parse_init` reads
-- the message as it was laid out, this router knows itself and the others, the route to each
-- neighbour is its link, the route to any other router is infinite, and its own costs nothing; its
-- row of distances holds its links, any other row the way to itself alone, and the routes solve the
-- Bellman-Ford equation.
pub parse_init-Initialised :
    (host : Host) (update_interval : ℕ) (es : List InitEntry) (st : Routing) (k : ℕ) (own : Router)
    → st.rs.routers ≡ []
    → length es < 2 ^ 16
    → update_interval < 2 ^ 16
    → All FitsInit es
    → Distinct (routers_of host 0 es)
    → get_elem? (routers_of host 0 es) k ≡ some own
    → is_self own.type ≡ true
    → (st' : Routing) × (me : Router) × (parse_init host (init_message update_interval es) st
        ≡ some st')
      × Initialised host update_interval es me st'
parse_init-Initialised host update_interval es st k own fresh few interval_fits fits apart at_k
      is_own =
    let routers = routers_of host 0 es in
    let self =
      find_self-found routers 0 st.self routers k own
        (record { at_index = λ j r h. let e : 0 + j ≡ j = omega arith in rw e h }) at_k is_own in
    let (st', me, run, i) =
      parse_routers-Initialised host update_interval es st (find_self 0 st.self routers) fits apart
        self in
    (st', me, parse_init-message host update_interval es st fresh few interval_fits fits ∙ run, i)
