-- ===== src/Routing/Init/Message.antt =====
-- The controller's INIT message, and what `parse_init` reads of it.
use native.Mathlib.Nat.{add-zero, add_assoc}
use mathlib.Core.List.{append_assoc}
use distance_vector_routing.Common.{
  ◌&&◌, ◌==◌, if◌then◌else◌, ℕ, ◌≡◌, refl, ◌∙◌, ◌+◌, ◌^◌, ◌<◌, ◌++◌, List, [], ◌∷◌, some, arith,
  length, length-append, All, pos,
}
use distance_vector_routing.Bytes.{htons, bytes16, bytes32, load16, load32, ntohui16, toui32}
use distance_vector_routing.Bytes.RoundTrip.{ntohs-htons, htons-lt, load16-append, load32-append}
use text.Mathlib.Text.{◌==◌ as str_eq}
use distance_vector_routing.Routing.{
  RouterType, non_neighbour, self_router, neighbour, is_neighbour, initialized, Router,
}
use distance_vector_routing.Routing.Init.{Host, classify, first_update, read_router, read_routers}

-- What the message tells of one router.
pub record InitEntry : Type 0 where
  pub id : ℕ
  pub port : ℕ
  pub data_port : ℕ
  pub cost : ℕ
  pub ip : ℕ

pub record FitsInit (e : InitEntry) : Type 0 where
  pub id_fits : e.id < 2 ^ 16
  pub port_fits : e.port < 2 ^ 16
  pub data_port_fits : e.data_port < 2 ^ 16
  pub cost_fits : e.cost < 2 ^ 16
  pub ip_fits : e.ip < 2 ^ 32

-- A `uint16_t` in network byte order.
abbrev net16 : ℕ → List ℕ
net16 x = bytes16 (htons x)

abbrev pub init_entry_bytes : InitEntry → List ℕ
init_entry_bytes e =
    net16 e.id ++ (net16 e.port ++ (net16 e.data_port ++ (net16 e.cost ++ bytes32 e.ip)))

abbrev pub init_entries : List InitEntry → List ℕ
init_entries [] = []
init_entries (e ∷ es) = init_entry_bytes e ++ init_entries es

abbrev pub init_message : ℕ → List InitEntry → List ℕ
init_message update_interval es = net16 (length es) ++ (net16 update_interval ++ init_entries es)

-- A router at an infinite cost is no neighbour; this router is the one at cost 0 with the address that
-- it has itself; any other is a neighbour.
abbrev pub type_of : Host → InitEntry → RouterType
type_of host e =
    if e.cost == 65535
    then non_neighbour
    else if e.cost == 0 && str_eq (host.inet_ntoa e.ip) host.primary_ip
    then self_router
    else neighbour

classify-type_of :
    (host : Host) (e : InitEntry) → FitsInit e → classify host e.cost e.ip ≡ type_of host e
unfolding classify
classify-type_of host e fits = ground (arith, fits.cost_fits)

first_update-type :
    (host : Host) (i : ℕ) (t : RouterType)
    → first_update host i t ≡ (if is_neighbour t then host.clock i else host.stale)
first_update-type host i neighbour = refl
first_update-type host i self_router = refl
first_update-type host i non_neighbour = refl

-- The router that the entry at an index stands for.
abbrev pub router_of : Host → ℕ → InitEntry → Router
router_of host i e = record {
  router_id = e.id;
  router_port = e.port;
  data_port = e.data_port;
  cost = e.cost;
  ip = e.ip;
  ip_str = host.inet_ntoa e.ip;
  type = type_of host e;
  status = initialized;
  last_update = if is_neighbour (type_of host e) then host.clock i else host.stale;
  data_socket_fd = pos 0;
}

abbrev pub routers_of : Host → ℕ → List InitEntry → List Router
routers_of host i [] = []
routers_of host i (e ∷ es) = router_of host i e ∷ routers_of host (i + 1) es

-- The five fields of an entry behind any front.
read_router-bytes :
    (host : Host) (front rest : List ℕ) (i : ℕ) (e : InitEntry)
    → FitsInit e
    → read_router host (front ++ (init_entry_bytes e ++ rest)) i (length front)
      ≡ some (router_of host i e, length front + 12)
unfolding read_router ntohui16 toui32
read_router-bytes host front rest i e h =
    let back = init_entry_bytes e ++ rest in
    let field = load16-append front back in
    let id : load16 (front ++ back) (length front) ≡ some (htons e.id) =
      rw (add-zero (length front)) at (field 0) ∙ unfold load16 in ground (arith, htons-lt e.id) in
    let port : load16 (front ++ back) (length front + 2) ≡ some (htons e.port) =
      field 2 ∙ unfold load16 in ground (arith, htons-lt e.port) in
    let data_port : load16 (front ++ back) (length front + 2 + 2) ≡ some (htons e.data_port) =
      rw (add_assoc (length front) 2 2)
        (field 4 ∙ unfold load16 in ground (arith, htons-lt e.data_port)) in
    let cost : load16 (front ++ back) (length front + 2 + 2 + 2) ≡ some (htons e.cost) =
      rw (add_assoc (length front) 2 2, add_assoc (length front) 4 2)
        (field 6 ∙ unfold load16 in ground (arith, htons-lt e.cost)) in
    let ip : load32 (front ++ back) (length front + 2 + 2 + 2 + 2) ≡ some e.ip =
      rw (add_assoc (length front) 2 2, add_assoc (length front) 4 2, add_assoc (length front) 6 2)
        (load32-append front back 8 ∙ unfold load32 in ground (arith, h.ip_fits)) in
    let type = classify-type_of host e h in
    let stamp = first_update-type host i (type_of host e) in
    ground (
      arith,
      id,
      port,
      data_port,
      cost,
      ip,
      type,
      stamp,
      ntohs-htons e.id h.id_fits,
      ntohs-htons e.port h.port_fits,
      ntohs-htons e.data_port h.data_port_fits,
      ntohs-htons e.cost h.cost_fits,
    )

-- The entries behind any front are read as the routers that they stand for.
pub read_routers-entries :
    (host : Host) (es : List InitEntry) (front : List ℕ) (i offset : ℕ)
    → length front ≡ offset
    → All FitsInit es
    → read_routers host (front ++ init_entries es) (length es) i offset
      ≡ some (routers_of host i es)
unfolding read_routers
read_routers-entries host [] front i offset len fits = refl
read_routers-entries host (e ∷ es) front i offset len fits =
    let bytes = init_entry_bytes e in
    let first : read_router host (front ++ (bytes ++ init_entries es)) i offset
        ≡ some (router_of host i e, offset + 12) =
      rw (← len) (read_router-bytes host front (init_entries es) i e fits.0) in
    let later = rw (append_assoc front bytes (init_entries es)) at (
      read_routers-entries host es (front ++ bytes) (i + 1) (offset + 12)
        (omega (arith, length-append front bytes)) fits.1) in
    rw (first, later)
