-- ===== src/Connect/Script.antt =====
-- Scripted packets: `find_or_create_socket_for_script_packet` of
-- gtests/net/packetdrill/run_packet.c and what it calls.
use packetdrill.Base.{
  ℕ, Bool, true, false, ◌&&◌, ◌||◌, [], ◌∷◌, Option, none, some, ◌==◌, if◌then◌else◌,
}
use packetdrill.SctpMatch.Compare.{Place, load, bits8, bits32}
use packetdrill.Connect.{
  active_syn_sent, active_init_sent, Direction, inbound, outbound, TestSocket, RunState, TestPacket,
  Config, TcpHead, Lookup, returned, assertion_failed, bad_read, get_packet_tuple,
  packet_ip_protocol, socket_new,
}
use packetdrill.Connect.Live.{is_connecting, is_syn, is_some}
use packetdrill.Connect.Listen.{is_candidate, keep_socket, handle_listen_for_script_packet}

-- The socket that a wire server makes for an outbound SYN or INIT.
abbrev connecting_socket : Config → TestPacket → TestSocket
connecting_socket config packet =
    let script = record (socket_new.script) { fd = none } in
    let live = record (socket_new.live) {
      remote = record { ip = config.live_remote_ip; port = config.live_connect_port };
      fd = none;
    } in
    record socket_new {
      address_family = packet.src_ip.family;
      protocol = packet_ip_protocol packet config.udp_encaps;
      script = script;
      live = live;
    }

abbrev connect_socket : Config → RunState → TestPacket → TestSocket
connect_socket config state packet = elim state.socket_under_test [
  | none ↦ connecting_socket config packet
  | some socket ↦ socket
]

abbrev pub connect_tcp : Config → RunState → TestPacket → TcpHead → Lookup
connect_tcp config state packet tcp =
    let socket = connect_socket config state packet in
    let tuple = get_packet_tuple packet in
    let script = record (socket.script) {
      remote = tuple.dst;
      local = tuple.src;
      local_isn = tcp.seq;
    } in
    keep_socket (record socket { state = active_syn_sent; script = script }) state

abbrev pub connect_sctp : Config → RunState → TestPacket → Place → Lookup
connect_sctp config state packet init = elim (load bits32 init 16) [
  | none ↦ bad_read
  | some tsn ↦ elim (load bits32 init 4) [
    | none ↦ bad_read
    | some tag ↦
        let socket = connect_socket config state packet in
        let tuple = get_packet_tuple packet in
        let script = record (socket.script) {
          remote = tuple.dst;
          local = tuple.src;
          local_initial_tsn = tsn;
          local_initiate_tag = tag;
        } in
        keep_socket (record socket { state = active_init_sent; script = script }) state
  ]
]

-- A packet without a TCP header has an SCTP header and a chunk list, or an assertion fails.
unfoldable pub handle_connect_for_script_packet :
    Config → RunState → TestPacket → Direction → Lookup
handle_connect_for_script_packet config state packet inbound = returned false state
handle_connect_for_script_packet config state packet outbound =
    let candidate = is_candidate config is_connecting state.socket_under_test in
    elim packet.tcp [
      | some tcp ↦
          if is_syn tcp && candidate
          then connect_tcp config state packet tcp
          else returned false state
      | none ↦ elim packet.chunk_list [
        | none ↦ assertion_failed
        | some [] ↦ returned false state
        | some (item ∷ items) ↦ elim (load bits8 item.chunk 0) [
          | none ↦ bad_read
          | some type_ ↦
              if (type_ == 1) && candidate
              then connect_sctp config state packet item.chunk
              else returned false state
        ]
      ]
    ]

-- The protocols are 132 (SCTP), 6 (TCP), 17 (UDP) and 136 (UDPLite).
unfoldable pub is_script_packet_match_for_socket : TestPacket → TestSocket → Option Bool
is_script_packet_match_for_socket packet socket =
    if socket.protocol == 132
    then some (is_some packet.sctp || packet.is_icmp)
    else (if socket.protocol == 6
        then some (is_some packet.tcp || packet.is_icmp)
        else (if socket.protocol == 17
            then some (is_some packet.udp || packet.is_icmp)
            else (if socket.protocol == 136
                then some (is_some packet.udplite || packet.is_icmp)
                else none)))

-- The socket under test, if there is one and it matches.
unfoldable pub existing_connection : RunState → TestPacket → Lookup
existing_connection state packet = elim state.socket_under_test [
  | none ↦ returned false state
  | some socket ↦ elim (is_script_packet_match_for_socket packet socket) [
    | none ↦ assertion_failed
    | some match ↦ returned match state
  ]
]

-- The next attempt is made if this one gives NULL.
abbrev pub or_else : Lookup → (RunState → Lookup) → Lookup
or_else (returned true state) next = returned true state
or_else (returned false state) next = next state
or_else assertion_failed next = assertion_failed
or_else bad_read next = bad_read

-- `returned false` is the error that there is no matching socket.
unfoldable pub find_or_create_socket_for_script_packet :
    Config → ℕ → RunState → TestPacket → Direction → Lookup
find_or_create_socket_for_script_packet config fresh state packet direction =
    if is_some packet.tcp || is_some packet.sctp
    then or_else (handle_listen_for_script_packet config fresh state packet direction) (λ s.
      or_else (handle_connect_for_script_packet config s packet direction)
        (λ s'. existing_connection s' packet))
    else existing_connection state packet
