-- ===== src/Connect/Laws.antt =====
-- What the lookups of the socket under test keep, and that a connection is found again.
use packetdrill.Base.{
  ℕ, ◌≡◌, refl, ap₂, ◌∙◌, true, false, List, [], ◌∷◌, ◌++◌, Option, none, some, ◌==◌, arith,
}
use packetdrill.Connect.{
  active_connecting, active_syn_sent, inbound, outbound, Endpoint, Tuple, TestSocket, RunState,
  TestPacket, Config, TcpHead, returned, is_equal_ip, is_equal_endpoint, is_equal_tuple,
  get_packet_tuple, socket_get_inbound, SocketState,
}
use packetdrill.Connect.Live.{
  find_socket_for_live_packet, find_connect_for_live_packet, is_connect_match, is_syn,
  sniff_outbound_live_packet, sniffed, is_outbound,
}
use packetdrill.Connect.Script.{handle_connect_for_script_packet}

is_equal_endpoint_refl : (a : Endpoint) → is_equal_endpoint a a ≡ true
is_equal_endpoint_refl a = ground arith

pub is_equal_tuple_refl : (a : Tuple) → is_equal_tuple a a ≡ true
unfolding is_equal_tuple
is_equal_tuple_refl a = rw (is_equal_endpoint_refl a.src, is_equal_endpoint_refl a.dst) refl

-- The socket after a scripted SYN.
abbrev pub after_script : TestSocket → TestPacket → TcpHead → TestSocket
after_script socket packet tcp =
    let script = record (socket.script) {
      remote = (get_packet_tuple packet).dst;
      local = (get_packet_tuple packet).src;
      local_isn = tcp.seq;
    } in
    record socket { state = active_syn_sent; script = script }

-- The socket after a live SYN.
abbrev pub after_live : TestSocket → TestPacket → TcpHead → TestSocket
after_live socket packet tcp =
    let live = record (socket.live) {
      local = (get_packet_tuple packet).src;
      local_isn = tcp.seq;
    } in
    record socket { live = live }

abbrev pub testing : TestSocket → Option ℕ → RunState
testing socket port = record { socket_under_test = some socket; next_ephemeral_port = port }

script_syn :
    (config : Config) (socket : TestSocket) (port : Option ℕ) (packet : TestPacket) (tcp : TcpHead)
    → config.is_wire_server ≡ false
    → socket.state ≡ active_connecting
    → packet.tcp ≡ some tcp
    → is_syn tcp ≡ true
    → handle_connect_for_script_packet config (testing socket port) packet outbound
      ≡ returned true (testing (after_script socket packet tcp) port)
unfolding handle_connect_for_script_packet
script_syn config socket port packet tcp local status head syn =
    simp (handle_connect_for_script_packet, head, syn, local, status) refl

live_syn :
    (socket : TestSocket) (port : Option ℕ) (packet : TestPacket) (tcp : TcpHead)
    → socket.state ≡ active_syn_sent
    → socket.protocol ≡ 6
    → packet.sctp ≡ none
    → packet.tcp ≡ some tcp
    → is_syn tcp ≡ true
    → (get_packet_tuple packet).dst ≡ socket.live.remote
    → find_connect_for_live_packet (testing socket port) packet
      ≡ returned true (testing (after_live socket packet tcp) port)
unfolding find_connect_for_live_packet is_connect_match
live_syn socket port packet tcp status protocol no_sctp head syn dst =
    let proto : (socket.protocol == 6) ≡ true = ground arith in
    let same_ip : is_equal_ip (get_packet_tuple packet).dst.ip socket.live.remote.ip ≡ true =
      ground arith in
    let same_port : ((get_packet_tuple packet).dst.port == socket.live.remote.port) ≡ true =
      ground arith in
    simp
      (
        find_connect_for_live_packet, is_connect_match, no_sctp, head, syn, proto, status, same_ip,
        same_port,
      )
      refl

-- The packet belongs to the connection, in the given direction.
pub established :
    (socket : TestSocket) (port : Option ℕ) (packet : TestPacket)
    → get_packet_tuple packet ≡ socket_get_inbound socket.live
    → find_socket_for_live_packet (testing socket port) packet ≡ some inbound
unfolding find_socket_for_live_packet
established socket port packet e = simp (find_socket_for_live_packet, e, is_equal_tuple_refl) refl

pub inbound_tuple :
    (t : Tuple) (live : SocketState)
    → t.src ≡ live.remote
    → t.dst ≡ live.local
    → t ≡ socket_get_inbound live
unfolding socket_get_inbound
inbound_tuple t live src dst = ap₂ pair src dst
  where
    pair : Endpoint → Endpoint → Tuple
    pair x y = record { src = x; dst = y }

-- Packets that the socket under test neither sends nor causes.
abbrev pub AreOthers : TestSocket → Option ℕ → List TestPacket → Type 0
AreOthers socket port [] = Unit
AreOthers socket port (packet ∷ packets) =
    (is_outbound (find_socket_for_live_packet (testing socket port) packet) ≡ false)
    × (find_connect_for_live_packet (testing socket port) packet
        ≡ returned false (testing socket port))
    × AreOthers socket port packets

sniff-others :
    (socket : TestSocket) (port : Option ℕ) (others packets : List TestPacket)
    → AreOthers socket port others
    → sniff_outbound_live_packet (others ++ packets) (testing socket port)
      ≡ sniff_outbound_live_packet packets (testing socket port)
unfolding sniff_outbound_live_packet
sniff-others socket port [] packets h = refl
sniff-others socket port (packet ∷ others) packets (x, y, h) =
    rw (x, y) (sniff-others socket port others packets h)

-- In local mode, a scripted SYN of a connecting TCP socket moves it on to SYN_SENT. Then, however
-- many other packets the device receives before, the loop that waits for outbound packets leaves
-- with the live SYN to the socket's remote endpoint, from which the socket learns its local
-- endpoint and its initial sequence number. From then on, a packet from the remote endpoint to the
-- local one is found to be inbound for the socket.
pub connect_lem :
    (config : Config) (socket : TestSocket) (port : Option ℕ) (script syn answer : TestPacket)
    (tcp tcp' : TcpHead) (others packets : List TestPacket)
    → config.is_wire_server ≡ false
    → socket.state ≡ active_connecting
    → socket.protocol ≡ 6
    → script.tcp ≡ some tcp
    → is_syn tcp ≡ true
    → syn.sctp ≡ none
    → syn.tcp ≡ some tcp'
    → is_syn tcp' ≡ true
    → (get_packet_tuple syn).dst ≡ socket.live.remote
    → AreOthers (after_script socket script tcp) port others
    → is_outbound (find_socket_for_live_packet (testing (after_script socket script tcp) port) syn)
      ≡ false
    → (get_packet_tuple answer).src ≡ (get_packet_tuple syn).dst
    → (get_packet_tuple answer).dst ≡ (get_packet_tuple syn).src
    → let waiting_socket = after_script socket script tcp in
      let connected = after_live waiting_socket syn tcp' in
      (handle_connect_for_script_packet config (testing socket port) script outbound
        ≡ returned true (testing waiting_socket port))
      × (sniff_outbound_live_packet (others ++ syn ∷ packets) (testing waiting_socket port)
          ≡ sniffed syn (testing connected port))
      × (find_socket_for_live_packet (testing connected port) answer ≡ some inbound)
unfolding sniff_outbound_live_packet
connect_lem config socket port script syn answer tcp tcp' others packets local status protocol head
      is_script_syn no_sctp head' is_live_syn dst far unknown src dst' =
    (
      script_syn config socket port script tcp local status head is_script_syn,
      rw
          (
            sniff-others (after_script socket script tcp) port others (syn ∷ packets) far,
            unknown,
            live_syn (after_script socket script tcp) port syn tcp' refl protocol no_sctp head'
                is_live_syn dst,
          )
          refl,
      established (after_live (after_script socket script tcp) syn tcp') port answer
          (inbound_tuple (get_packet_tuple answer) _ (src ∙ dst) dst'),
    )
