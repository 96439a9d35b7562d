-- ===== src/Connect/Live.antt =====
-- Live packets: `find_socket_for_live_packet` and `find_connect_for_live_packet` of
-- gtests/net/packetdrill/run_packet.c, and the loop over them in `sniff_outbound_live_packet`.
use packetdrill.Base.{
  Bool, true, false, not, ◌&&◌, ◌||◌, List, [], ◌∷◌, Option, none, some, ◌==◌, if◌then◌else◌,
}
use packetdrill.Sctp.{sctp_chunks_begin, Outcome, at, aborted, fault}
use packetdrill.SctpMatch.Compare.{Place, load, bits8, bits32}
use packetdrill.Connect.{
  Status, active_connecting, active_syn_sent, active_init_sent, Direction, inbound, outbound,
  TestSocket, RunState, TestPacket, TcpHead, Lookup, returned, assertion_failed, bad_read,
  is_equal_ip, is_equal_tuple, get_packet_tuple, socket_get_inbound, socket_get_outbound,
}

-- The direction in which the packet belongs to the socket under test; `none` is NULL.
unfoldable pub find_socket_for_live_packet : RunState → TestPacket → Option Direction
find_socket_for_live_packet state packet = elim state.socket_under_test [
  | none ↦ none
  | some socket ↦
      if is_equal_tuple (get_packet_tuple packet) (socket_get_inbound socket.live)
      then some inbound
      else (if is_equal_tuple (get_packet_tuple packet) (socket_get_outbound socket.live)
          then some outbound
          else none)
]

abbrev pub is_some {ℓ} : {A : Type ℓ} → Option A → Bool
is_some none = false
is_some (some a) = true

abbrev pub is_syn_sent : Status → Bool
is_syn_sent active_syn_sent = true
is_syn_sent s = false

abbrev pub is_init_sent : Status → Bool
is_init_sent active_init_sent = true
is_init_sent s = false

abbrev pub is_connecting : Status → Bool
is_connecting active_connecting = true
is_connecting s = false

-- `syn && !ack`.
abbrev pub is_syn : TcpHead → Bool
is_syn tcp = tcp.syn && not tcp.ack

abbrev pub is_syn? : Option TcpHead → Bool
is_syn? none = false
is_syn? (some tcp) = is_syn tcp

-- One of `is_sctp_match`, `is_tcp_match`, `is_udp_match` and `is_udplite_match`; 132, 6, 17 and
-- 136 are the protocols.
unfoldable pub is_connect_match : TestSocket → TestPacket → Bool
is_connect_match socket packet =
    (is_some packet.sctp && (socket.protocol == 132) && is_init_sent socket.state)
    || (is_syn? packet.tcp && (socket.protocol == 6) && is_syn_sent socket.state)
    || (is_some packet.udp && (socket.protocol == 17) && is_connecting socket.state)
    || (is_some packet.udplite && (socket.protocol == 136) && is_connecting socket.state)

-- The new details of the connection that every transport gives.
abbrev pub learn_local : TestSocket → TestPacket → TestSocket
learn_local socket packet =
    let live = record (socket.live) { local = (get_packet_tuple packet).src } in
    record socket { live = live }

abbrev pub learn_isn : Option TcpHead → TestSocket → TestSocket
learn_isn none socket = socket
learn_isn (some tcp) socket =
    let live = record (socket.live) { local_isn = tcp.seq } in record socket { live = live }

-- The INIT chunk at `p`.
abbrev pub learn_init : TestSocket → Place → RunState → Lookup
learn_init socket p state = elim (load bits32 p 4) [
  | none ↦ bad_read
  | some tag ↦ elim (load bits32 p 16) [
    | none ↦ bad_read
    | some tsn ↦
        let live = record (socket.live) { local_initiate_tag = tag; local_initial_tsn = tsn } in
        returned true record state { socket_under_test = some (record socket { live = live }) }
  ]
]

-- The first chunk of the live packet, if it is one without error and an INIT chunk.
abbrev pub learn_chunk : Outcome → TestSocket → TestPacket → RunState → Lookup
learn_chunk aborted socket packet state = assertion_failed
learn_chunk fault socket packet state = bad_read
learn_chunk (at it (some e)) socket packet state =
    returned true record state { socket_under_test = some socket }
learn_chunk (at it none) socket packet state = elim it.current [
  | none ↦ returned true record state { socket_under_test = some socket }
  | some p ↦
      let chunk : Place = record { memory = packet.sctp_payload.memory; start = p } in
      elim (load bits8 chunk 0) [
        | none ↦ bad_read
        | some type_ ↦
            if type_ == 1
            then learn_init socket chunk state
            else returned true record state { socket_under_test = some socket }
      ]
]

-- The direction is outbound if the socket is returned, and invalid if not.
unfoldable pub find_connect_for_live_packet : RunState → TestPacket → Lookup
find_connect_for_live_packet state packet = elim state.socket_under_test [
  | none ↦ returned false state
  | some socket ↦
      if not (is_connect_match socket packet)
      then returned false state
      else (if not (is_equal_ip (get_packet_tuple packet).dst.ip socket.live.remote.ip)
            || not ((get_packet_tuple packet).dst.port == socket.live.remote.port)
          then returned false state
          else (let learned = learn_isn packet.tcp (learn_local socket packet) in
              elim packet.sctp [
                | none ↦ returned true record state { socket_under_test = some learned }
                | some ports ↦
                    learn_chunk
                      (sctp_chunks_begin packet.sctp_payload.memory packet.sctp_payload.start
                        packet.packet_end none)
                      learned packet state
              ]))
]

-- The loop of `sniff_outbound_live_packet` over the packets that the device receives: the packet
-- that it leaves with and the state, or that it waits for more.
pub data Sniffed : Type 0 where
  sniffed : TestPacket → RunState → Sniffed
  waiting : RunState → Sniffed
  failed : Sniffed

abbrev pub is_outbound : Option Direction → Bool
is_outbound none = false
is_outbound (some inbound) = false
is_outbound (some outbound) = true

-- What the second lookup gives decides whether the loop goes on with the state behind it.
abbrev sniff_connect : Lookup → TestPacket → (RunState → Sniffed) → Sniffed
sniff_connect (returned true state) packet next = sniffed packet state
sniff_connect (returned false state) packet next = next state
sniff_connect assertion_failed packet next = failed
sniff_connect bad_read packet next = failed

unfoldable pub sniff_outbound_live_packet : List TestPacket → RunState → Sniffed
sniff_outbound_live_packet [] state = waiting state
sniff_outbound_live_packet (packet ∷ packets) state =
    if is_outbound (find_socket_for_live_packet state packet)
    then sniffed packet state
    else sniff_connect (find_connect_for_live_packet state packet) packet
        (λ next. sniff_outbound_live_packet packets next)
