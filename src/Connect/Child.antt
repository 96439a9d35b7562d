-- ===== src/Connect/Child.antt =====
-- Wire servers, which see no system calls: the child socket that they make for a scripted SYN.
use packetdrill.Base.{ℕ, ◌≡◌, refl, true, false, Option, none, some, List, ◌∷◌, ap₂}
use packetdrill.Connect.{
  passive_packet_received, inbound, outbound, Endpoint, TestSocket, RunState, TestPacket, Config,
  TcpHead, returned, get_packet_tuple, packet_ip_protocol, socket_new, is_equal_endpoint,
  is_equal_tuple, socket_get_outbound, socket_get_inbound, Tuple,
}
use packetdrill.Connect.Live.{find_socket_for_live_packet, sniff_outbound_live_packet, sniffed}
use packetdrill.Connect.Listen.{
  next_ephemeral_port, setup_new_child_socket, handle_listen_for_script_packet,
}
use packetdrill.Connect.Script.{find_or_create_socket_for_script_packet}
use packetdrill.Connect.Laws.{testing, established, inbound_tuple, is_equal_tuple_refl}

-- The cached port, or a fresh one.
abbrev pub chosen_port : ℕ → Option ℕ → ℕ
chosen_port fresh none = fresh
chosen_port fresh (some port) = port

-- The peer of the child on the wire, and the child itself.
abbrev pub live_peer : Config → ℕ → Option ℕ → Endpoint
live_peer config fresh cached = record {
  ip = config.live_remote_ip;
  port = chosen_port fresh cached;
}

abbrev pub live_self : Config → Endpoint
live_self config = record { ip = config.live_local_ip; port = config.live_bind_port }

abbrev pub child : Config → ℕ → Option ℕ → TestPacket → TcpHead → TestSocket
child config fresh cached packet tcp =
    let script = record (socket_new.script) {
      fd = none;
      remote = (get_packet_tuple packet).src;
      local = (get_packet_tuple packet).dst;
      remote_isn = tcp.seq;
    } in
    let live = record (socket_new.live) {
      fd = none;
      remote = live_peer config fresh cached;
      local = live_self config;
      remote_isn = tcp.seq;
    } in
    record {
      state = passive_packet_received;
      address_family = packet.src_ip.family;
      protocol = packet_ip_protocol packet config.udp_encaps;
      script = script;
      live = live;
    }

abbrev pub no_socket : Option ℕ → RunState
no_socket cached = record { socket_under_test = none; next_ephemeral_port = cached }

child-created :
    (config : Config) (fresh : ℕ) (cached : Option ℕ) (packet : TestPacket) (tcp : TcpHead)
    → config.is_wire_server ≡ true
    → packet.sctp ≡ none
    → packet.tcp ≡ some tcp
    → find_or_create_socket_for_script_packet config fresh (no_socket cached) packet inbound
      ≡ returned true (testing (child config fresh cached packet tcp) none)
unfolding find_or_create_socket_for_script_packet handle_listen_for_script_packet
    setup_new_child_socket next_ephemeral_port
child-created config fresh none packet tcp wire no_sctp head = simp (wire, no_sctp, head) refl
child-created config fresh (some port) packet tcp wire no_sctp head =
    simp (wire, no_sctp, head) refl

crossed :
    (socket : TestSocket)
    → is_equal_endpoint socket.live.local socket.live.remote ≡ false
    → is_equal_tuple (socket_get_outbound socket.live) (socket_get_inbound socket.live) ≡ false
unfolding is_equal_tuple socket_get_outbound socket_get_inbound
crossed socket differ = rw differ refl

found_outbound :
    (socket : TestSocket) (port : Option ℕ) (packet : TestPacket)
    → is_equal_endpoint socket.live.local socket.live.remote ≡ false
    → get_packet_tuple packet ≡ socket_get_outbound socket.live
    → find_socket_for_live_packet (testing socket port) packet ≡ some outbound
unfolding find_socket_for_live_packet
found_outbound socket port packet differ e =
    simp (e, crossed socket differ, is_equal_tuple_refl) refl

outbound_tuple :
    (t : Tuple) (socket : TestSocket)
    → t.src ≡ socket.live.local
    → t.dst ≡ socket.live.remote
    → t ≡ socket_get_outbound socket.live
unfolding socket_get_outbound
outbound_tuple t socket src dst = ap₂ pair src dst
  where
    pair : Endpoint → Endpoint → Tuple
    pair x y = record { src = x; dst = y }

-- On a wire server without a socket under test, a scripted inbound TCP packet creates a child
-- socket between the configured local endpoint and the remote address at the cached ephemeral port,
-- or a fresh one where none is cached, and uses the cached port up. Where the two endpoints differ,
-- a live packet from that remote endpoint to the local one is then found inbound for the child, and
-- the loop that waits for outbound packets leaves with a packet in the other direction as soon as
-- it receives one, with the child as it was.
pub child_lem :
    (config : Config) (fresh : ℕ) (cached : Option ℕ) (script live reply : TestPacket)
    (tcp : TcpHead) (packets : List TestPacket)
    → config.is_wire_server ≡ true
    → script.sctp ≡ none
    → script.tcp ≡ some tcp
    → (get_packet_tuple live).src ≡ live_peer config fresh cached
    → (get_packet_tuple live).dst ≡ live_self config
    → (get_packet_tuple reply).src ≡ live_self config
    → (get_packet_tuple reply).dst ≡ live_peer config fresh cached
    → is_equal_endpoint (live_self config) (live_peer config fresh cached) ≡ false
    → let state = testing (child config fresh cached script tcp) none in
      (find_or_create_socket_for_script_packet config fresh (no_socket cached) script inbound
        ≡ returned true state)
      × (find_socket_for_live_packet state live ≡ some inbound)
      × (sniff_outbound_live_packet (reply ∷ packets) state ≡ sniffed reply state)
unfolding sniff_outbound_live_packet
child_lem config fresh cached script live reply tcp packets wire no_sctp head src dst src' dst'
      differ =
    let socket = child config fresh cached script tcp in
    (
      child-created config fresh cached script tcp wire no_sctp head,
      established socket none live (inbound_tuple (get_packet_tuple live) _ src dst),
      rw
          (found_outbound socket none reply differ
            (outbound_tuple (get_packet_tuple reply) socket src' dst'))
          refl,
    )
