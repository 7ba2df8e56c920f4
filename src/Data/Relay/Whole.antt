-- ===== src/Data/Relay/Whole.antt =====
-- A file on its whole way: `sendfile`, `receive` and `write_handler` of src/data_routing.cpp.
use distance_vector_routing.Common.{
  ℕ, suc, ◌≡◌, ◌<◌, ◌/◌, ◌*◌, ◌++◌, List, [], ◌∷◌, Option, some, map, take, length, length-map, ℤ,
  All,
}
use distance_vector_routing.OrdMap.{at}
use distance_vector_routing.Routing.{Router, Routing, get_self}
use distance_vector_routing.Routing.Timeout.{Network}
use distance_vector_routing.Routing.Control.{create_response_header}
use distance_vector_routing.Routing.Control
use distance_vector_routing.Data.{packet_payload_size, DataState}
use distance_vector_routing.Data.Sendfile.{sendfile}
use distance_vector_routing.Data.Receive.Transfer.{FitsSendfile, payloads_of, receive_all}
use distance_vector_routing.Data.Relay.{Relayed, handle_all}
use distance_vector_routing.Data.Relay.Order.{calls}
use distance_vector_routing.Data.Relay.Chain.{Stage, IsStage, through}
use distance_vector_routing.Data.Relay.File.{through-chunks_of}
use distance_vector_routing.Data.Relay.Origin.{IsAsked, packets_of, sendfile-sent}

-- A controller asks for a file of at least one packet's payload to be sent, where the request can
-- be read, its numbers fit their fields, the port of its next hop is open, with a descriptor in the
-- range of FD_SET, and no packets wait, though earlier transfers may have left empty queues, and
-- this one too, if it is for that hop; and there are any number of routers, fewer than its TTL less
-- one, that the file is not for, with an open port of the next hop and queues as at the first one:
-- then `sendfile` and as many calls of `write_handler` as there are packets send the packets and
-- then the reply to the controller; the packets come out of the last of those routers, whatever
-- descriptors can be written to there between one packet and the next; and at the router that they
-- are for no packet faults, and one file is written, with what came for the transfer before and
-- then the file up to its last whole payload; nothing is kept for the next.
pub sendfile-receive_all :
    (read_file : List ℕ → Option (List ℕ)) (net : Network) (peer : ℤ → ℕ) (controller : ℤ)
    (payload : List ℕ) (st : Routing) (d : DataState) (ss : List Stage) (net' : Network) (in_fd : ℤ)
    (st' : Routing) (d' : DataState) (me : Router) (a : IsAsked read_file net payload st d)
    → FitsSendfile a.request
    → suc (length ss) < a.request.init_ttl
    → All (IsStage a.request.dest_ip a.request.transfer_id) ss
    → get_self st' ≡ some me
    → me.ip ≡ a.request.dest_ip
    → let whole = length a.file / packet_payload_size * packet_payload_size in
      (packets : List (List ℕ)) × (sender : DataState) × (r : Relayed) × (arrived : List (List ℕ))
      × (receiver : DataState) × (sendfile read_file net controller payload (st, d)
          ≡ some (a.after, sender))
      × (handle_all net peer (calls (length packets) a.fd) a.after sender ≡ some r)
      × (r.sent
          ≡ map (λ p. record { fd = a.fd; bytes = p }) packets
            ++ record {
              fd = controller;
              bytes = create_response_header (peer controller) Control.sendfile 0 0;
            }
              ∷ [])
      × (through ss packets ≡ some arrived)
      × (receive_all net' in_fd arrived st' d'
          ≡ some (
            receiver,
            record {
              transfer_id = a.request.transfer_id;
              content = at [] a.request.transfer_id d'.file_data ++ take whole a.file;
            }
                ∷ [],
          ))
      × (at [] a.request.transfer_id receiver.file_data ≡ [])
sendfile-receive_all read_file net peer controller payload st d ss net' in_fd st' d' me a fits alive
      stages is_me mine =
    let packets = payloads_of (packets_of controller a.request a.file) in
    let (sender, r, asked, run, sent) =
      sendfile-sent read_file net peer controller payload st d a in
    let (arrived, receiver, over, last, cleared) =
      through-chunks_of controller a.request a.file ss net' in_fd st' me d' fits alive stages is_me
        mine a.long in
    (
      packets,
      sender,
      r,
      arrived,
      receiver,
      asked,
      rw (length-map (λ c. c.payload) (packets_of controller a.request a.file)) run,
      sent,
      over,
      last,
      cleared,
    )
