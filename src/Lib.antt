-- ===== src/Lib.antt =====
-- A model of a router that speaks a distance-vector protocol with its neighbours over UDP, forwards
-- files over TCP, and takes commands from a controller.
--
-- Parts of the program, and the files that model them:
--   src/routing.cpp with include/routing.h: the static variables and `get_self` (Routing),
--     `distance_vectors[a][b]` (Routing/Vectors), `recompute_routing_table` (Routing/Recompute),
--     `find_by_port_ip`, `find_by_id` and `process_update` (Routing/Update), `routing_payload` and
--     `receive_update` (Routing/Payload), `mark_inactive`, `send_routing_updates`,
--     `connect_data_ports` and `timeout_handler` (Routing/Timeout), `parse_init` (Routing/Init),
--     `routing_table_response` and `update_cost` (Routing/Control).
--   src/control_header_lib.cpp: `create_response_header` (Routing/Control).
--   src/network_util.cpp: the loops around `recv` and `send` (Transfer).
--   `route_for_destination` of src/routing.cpp, and the next hop that src/data_routing.cpp finds with
--     it (Routing/Forward); the events of the routing part in any order (Routing/Events).
--   src/data_routing.cpp with include/data_routing.h: the static variables and the packets (Data),
--     the descriptor sets with `enable_write` and `disable_write` of src/Router.cpp (Data/Fds),
--     `sendfile` (Data/Sendfile), `receive` (Data/Receive), `write_handler` (Data/Write),
--     `sendfile_stats`, `last_data_pkt` and `penultimate_data_pkt` (Data/Reports).
--   The routers of a network together, each with its own state: what one packs is what another takes
--     in (Routing/Network), and the network that has come to rest (Routing/Quiet). A way through the
--     network is Routing.Quiet.Walk; what holds after every delivery is in Routing/Network/Rounds,
--     Truth and Falling, the shortest ways in Exact, and the hops that packets take in Follow and
--     Routed. Data/Receive/Journey is a packet's journey over several routers, and
--     Data/Receive/Carried puts the routing and the data plane together. Data/Relay is a router that
--     takes packets in and passes them on, in whatever order its descriptors are ready, and several
--     such routers one after the other.
--   src/Util.cpp: the readers of buffers (Bytes), `connect_to`, `bind_to`, `bind_listen_on` and
--     `udp_socket` (Sockets), `primary_ip` (PrimaryIp), `send_buff` (Transfer).
--   src/controller.cpp and src/author.cpp: the requests of the controllers (Controller); the requests
--     themselves are in Routing/Init, Routing/Control, Data/Sendfile and Data/Reports.
--   src/Router.cpp, `new_data_conn` of src/data_routing.cpp and src/wasifale_assignment3.cpp: the
--     descriptor sets that `select` reads (Watch), the rounds of its loop and `main` (Select). The
--     state of all parts together, and what leaves the program, are in Program.
--   `std::map` with integer keys is an ordered association list (OrdMap), with the default entries
--     that `operator[]` inserts.
--
-- Conventions. A function that may do what the C++ standard leaves undefined returns an Option, and
-- `none` is that fault: a null `self` that is dereferenced, an index outside a vector, an access
-- outside a buffer, FD_SET outside its set, a pointer that is used before it is set. The states are
-- the records Routing, DataState and Program, passed in and returned. The clock, the text of an
-- address, and what the system calls answer are arguments; Program.System gathers them for the
-- rounds of the loop. What leaves the program is a list of Program.Action, and Program.Turn tells
-- whether the program goes on or exits. Numbers are natural numbers with the wrap-around of
-- `uint16_t` written out where the source adds two of them; fields that come from the network are
-- assumed to fit their widths where a theorem needs it. `(uint16_t) INFINITY` is 65535, to which the
-- compiler converts the constant. Memory is little-endian. Loops are structural recursions. The loop
-- over the descriptors up to `max_fd` recurses on the rounds that are left before FD_SETSIZE, 1024;
-- beyond it FD_ISSET reads outside its set, a fault. The endless loop around `select` is a function
-- of the list of what `select` returns, round after round. All the answers to one descriptor that is
-- served are one System, so a descriptor is served by at most two reads of a message.
--
-- Not modelled: logging with `log_time` and `time_str`, the release of memory, how `select` updates
-- its timeout, and `valid_inet`, `get_ip`, `to_port_str` and `send_string` of src/Util.cpp, which pass
-- their arguments on. The answers of `primary_ip` and of `udp_socket` to the routing part are given as
-- arguments there. Two things that the standard leaves undefined have no effect here: `recvFromALL`
-- lets `recvfrom` write over its parameter `addr` (src/network_util.cpp, line 67), and `sendToALL` reads
-- the address that `udp_socket` kept of a list that it freed (src/Util.cpp, line 213). `disable_write` is
-- called with descriptors alone that the loop found in the set, so it has no fault. In Routing/Network a
-- datagram is packed and taken in at one moment: one that is delayed, overtaken or doubled on its way is
-- not covered. The order in which a router's descriptors are ready is `handle_all` of Data/Relay, which
-- takes the events that reach the handlers, in place of the loop of src/Router.cpp.
pub mod Common
pub mod OrdMap
pub mod Bytes
pub mod Sockets
pub mod PrimaryIp
pub mod Transfer
pub mod Routing
pub mod Data
pub mod Program
pub mod Watch
pub mod Controller
pub mod Select
