-- ===== src/Connect/Listen.antt =====
-- Scripted packets for a listening socket: `handle_listen_for_script_packet` of
-- gtests/net/packetdrill/run_packet.c and what it calls.
use packetdrill.Base.{
  ℕ, ◌+◌, ◌-◌, Bool, true, false, not, ◌&&◌, [], ◌∷◌, Option, none, some, ◌==◌, ltb, leb,
  if◌then◌else◌, u64, ◌^◌,
}
use packetdrill.SctpMatch.Compare.{Place, load, bits8, bits16, bits32}
use packetdrill.Connect.{
  Status, passive_listening, passive_packet_received, Direction, inbound, outbound, TestSocket,
  RunState, TestPacket, Config, TcpHead, Lookup, returned, bad_read, get_packet_tuple,
  packet_ip_protocol, socket_new,
}

-- The port and the state behind the call; `fresh` is what the system gives. The cached port is one
-- that the system gave before, which the assertion of the source checks.
unfoldable pub next_ephemeral_port : ℕ → RunState → ℕ × RunState
next_ephemeral_port fresh state = elim state.next_ephemeral_port [
  | none ↦ (fresh, state)
  | some port ↦ (port, record state { next_ephemeral_port = none })
]

-- The new socket becomes the socket under test.
unfoldable pub setup_new_child_socket : Config → ℕ → RunState → TestPacket → TestSocket × RunState
setup_new_child_socket config fresh state packet =
    let (port, state') = next_ephemeral_port fresh state in
    let tuple = get_packet_tuple packet in
    let script = record (socket_new.script) { remote = tuple.src; local = tuple.dst; fd = none } in
    let live = record (socket_new.live) {
      remote = record { ip = config.live_remote_ip; port = port };
      local = record { ip = config.live_local_ip; port = config.live_bind_port };
      fd = none;
    } in
    let socket : TestSocket = record {
      state = passive_packet_received;
      address_family = packet.src_ip.family;
      protocol = packet_ip_protocol packet config.udp_encaps;
      script = script;
      live = live;
    } in
    (socket, record state' { socket_under_test = some socket })

abbrev pub is_listening : Status → Bool
is_listening passive_listening = true
is_listening s = false

-- `socket == NULL` on a wire server, else that the socket is in the given status.
abbrev pub is_candidate : Config → (Status → Bool) → Option TestSocket → Bool
is_candidate config test none = config.is_wire_server
is_candidate config test (some socket) = not config.is_wire_server && test socket.state

-- `if (socket == NULL) socket = setup_new_child_socket(...)`.
abbrev child_if_none : Config → ℕ → RunState → TestPacket → TestSocket × RunState
child_if_none config fresh state packet = elim state.socket_under_test [
  | none ↦ setup_new_child_socket config fresh state packet
  | some socket ↦ (socket, state)
]

abbrev pub keep_socket : TestSocket → RunState → Lookup
keep_socket socket state = returned true record state { socket_under_test = some socket }

-- The initiate tag and the initial TSN of the INIT chunk at `init`.
abbrev pub learn_peer : Config → ℕ → RunState → TestPacket → Place → Lookup
learn_peer config fresh state packet init = elim (load bits32 init 4) [
  | none ↦ bad_read
  | some tag ↦ elim (load bits32 init 16) [
    | none ↦ bad_read
    | some tsn ↦
        let (socket, state') = child_if_none config fresh state packet in
        let script = record (socket.script) {
          remote_initiate_tag = tag;
          remote_initial_tsn = tsn;
        } in
        let live = record (socket.live) { remote_initiate_tag = tag; remote_initial_tsn = tsn } in
        keep_socket (record socket { script = script; live = live }) state'
  ]
]

abbrev is_some_socket : RunState → Bool
is_some_socket state = elim state.socket_under_test [ none ↦ false | some s ↦ true ]

-- The branch of `handle_listen_for_script_packet` for SCTP. A packet with a chunk list that does
-- not begin with a whole INIT chunk leaves the socket as it is. The bytes of a generic packet are
-- read at the payload.
unfoldable pub handle_listen_sctp : Config → ℕ → RunState → TestPacket → Lookup
handle_listen_sctp config fresh state packet = elim packet.chunk_list [
  | some [] ↦ returned (is_some_socket state) state
  | some (item ∷ items) ↦ elim (load bits8 item.chunk 0) [
    | none ↦ bad_read
    | some type_ ↦
        if type_ == 1
        then elim (load bits16 item.chunk 2) [
          | none ↦ bad_read
          | some length ↦
              if leb 20 length
              then learn_peer config fresh state packet item.chunk
              else returned (is_some_socket state) state
        ]
        else returned (is_some_socket state) state
  ]
  | none ↦
      if packet.is_generic
      then elim (load bits8 packet.sctp_payload 0) [
        | none ↦ bad_read
        | some type_ ↦
            if type_ == 1
            then (if ltb (u64 (packet.sctp_total_bytes + 2 ^ 64 - 12)) 20
                then returned false state
                else learn_peer config fresh state packet packet.sctp_payload)
            else returned (is_some_socket state) state
      ]
      else returned (is_some_socket state) state
]

abbrev pub learn_remote_isn : Config → ℕ → RunState → TestPacket → TcpHead → Lookup
learn_remote_isn config fresh state packet tcp =
    let (socket, state') = child_if_none config fresh state packet in
    let script = record (socket.script) { remote_isn = tcp.seq } in
    let live = record (socket.live) { remote_isn = tcp.seq } in
    keep_socket (record socket { script = script; live = live }) state'

-- A packet has an SCTP or a TCP header.
unfoldable pub handle_listen_for_script_packet :
    Config → ℕ → RunState → TestPacket → Direction → Lookup
handle_listen_for_script_packet config fresh state packet outbound = returned false state
handle_listen_for_script_packet config fresh state packet inbound =
    if not (is_candidate config is_listening state.socket_under_test)
    then returned false state
    else elim packet.sctp [
      | some ports ↦ handle_listen_sctp config fresh state packet
      | none ↦ elim packet.tcp [
        | some tcp ↦ learn_remote_isn config fresh state packet tcp
        | none ↦ returned (is_some_socket state) state
      ]
    ]
