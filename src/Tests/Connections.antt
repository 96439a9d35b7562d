-- ===== src/Tests/Connections.antt =====
-- A TCP socket in local mode that connects, with a UDP packet of somebody else in between, and the
-- child socket of a wire server.
use packetdrill.Base.{ℕ, ◌≡◌, refl, Bool, true, false, [], ◌∷◌, none, some}
use packetdrill.SctpMatch.Compare.{Place}
use packetdrill.Connect.{
  active_connecting, inbound, outbound, Address, Endpoint, TestSocket, RunState, TestPacket, Config,
  TcpHead, returned, socket_new, get_packet_tuple, packet_ports, is_equal_tuple, socket_get_inbound,
  socket_get_outbound,
}
use packetdrill.Connect.Live.{
  find_socket_for_live_packet, find_connect_for_live_packet, is_connect_match, is_outbound,
  sniff_outbound_live_packet, sniffed,
}
use packetdrill.Connect.Script.{handle_connect_for_script_packet}
use packetdrill.Connect.Laws.{testing, after_script, after_live, AreOthers, connect_lem}
use packetdrill.Connect.Script.{find_or_create_socket_for_script_packet}
use packetdrill.Connect.Child.{child, no_socket, live_peer, live_self, child_lem}
use packetdrill.Connect.Invariant.{here, after, received, Continues, Reach-Continues}

abbrev host : ℕ → Address
host n = record { family = 2; bits = n }

abbrev endpoint : ℕ → ℕ → Endpoint
endpoint n port = record { ip = host n; port = port }

abbrev config : Config
config = record {
  is_wire_server = false;
  udp_encaps = 0;
  live_remote_ip = host 9;
  live_local_ip = host 8;
  live_bind_port = 8080;
  live_connect_port = 80;
}

abbrev client : TestSocket
client =
    let live = record (socket_new.live) { remote = endpoint 9 80 } in
    record socket_new { state = active_connecting; address_family = 2; protocol = 6; live = live }

abbrev no_bytes : Place
no_bytes = record { memory = []; start = 0 }

-- A TCP packet between two hosts.
abbrev tcp_packet : ℕ → ℕ → TcpHead → TestPacket
tcp_packet from to head = record {
  src_ip = host from;
  dst_ip = host to;
  ip_protocol = 6;
  sctp = none;
  tcp = some head;
  udp = none;
  udplite = none;
  is_icmp = false;
  chunk_list = none;
  is_generic = false;
  sctp_payload = no_bytes;
  packet_end = 0;
  sctp_total_bytes = 0;
}

abbrev head_of : ℕ → ℕ → Bool → Bool → ℕ → TcpHead
head_of from to syn ack seq = record {
  ports = record { src_port = from; dst_port = to };
  syn = syn;
  ack = ack;
  seq = seq;
}

abbrev script_head : TcpHead
script_head = head_of 0 0 true false 0

abbrev live_head : TcpHead
live_head = head_of 4000 80 true false 77

abbrev udp_other : TestPacket
udp_other = record {
  src_ip = host 5;
  dst_ip = host 6;
  ip_protocol = 17;
  sctp = none;
  tcp = none;
  udp = some record { src_port = 1; dst_port = 2 };
  udplite = none;
  is_icmp = false;
  chunk_list = none;
  is_generic = false;
  sctp_payload = no_bytes;
  packet_end = 0;
  sctp_total_bytes = 0;
}

abbrev script_syn : TestPacket
script_syn = tcp_packet 1 2 script_head

abbrev live_syn : TestPacket
live_syn = tcp_packet 8 9 live_head

abbrev live_answer : TestPacket
live_answer = tcp_packet 9 8 (head_of 80 4000 true true 500)

abbrev waiting_client : TestSocket
waiting_client = after_script client script_syn script_head

other_is_other : AreOthers waiting_client none (udp_other ∷ [])
unfolding find_socket_for_live_packet find_connect_for_live_packet is_connect_match is_equal_tuple
    get_packet_tuple packet_ports socket_get_inbound socket_get_outbound
other_is_other = (refl, refl, tt)

live_syn_unknown :
    is_outbound (find_socket_for_live_packet (testing waiting_client none) live_syn) ≡ false
unfolding find_socket_for_live_packet is_equal_tuple get_packet_tuple packet_ports
    socket_get_inbound socket_get_outbound
live_syn_unknown = refl

live_syn_remote : (get_packet_tuple live_syn).dst ≡ client.live.remote
unfolding get_packet_tuple packet_ports
live_syn_remote = refl

answer_src : (get_packet_tuple live_answer).src ≡ (get_packet_tuple live_syn).dst
unfolding get_packet_tuple packet_ports
answer_src = refl

answer_dst : (get_packet_tuple live_answer).dst ≡ (get_packet_tuple live_syn).src
unfolding get_packet_tuple packet_ports
answer_dst = refl

connect_lem_example :
    (handle_connect_for_script_packet config (testing client none) script_syn outbound
      ≡ returned true (testing waiting_client none))
    × (sniff_outbound_live_packet (udp_other ∷ live_syn ∷ []) (testing waiting_client none)
        ≡ sniffed live_syn (testing (after_live waiting_client live_syn live_head) none))
    × (find_socket_for_live_packet
          (testing (after_live waiting_client live_syn live_head) none)
          live_answer
        ≡ some inbound)
connect_lem_example =
    connect_lem config client none script_syn live_syn live_answer script_head live_head
      (udp_other ∷ []) [] refl refl refl refl refl refl refl refl live_syn_remote other_is_other
      live_syn_unknown answer_src answer_dst

other_received :
    find_connect_for_live_packet (testing client none) udp_other
    ≡ returned false (testing client none)
unfolding find_connect_for_live_packet is_connect_match
other_received = refl

Reach-Continues_example : Continues client (testing client none)
Reach-Continues_example =
    Reach-Continues config client none (testing client none)
      (after here (received udp_other false (testing client none) other_received))

abbrev server_config : Config
server_config = record config { is_wire_server = true }

abbrev peer_syn : TestPacket
peer_syn = tcp_packet 9 8 (head_of 5000 8080 true false 40)

abbrev server_reply : TestPacket
server_reply = tcp_packet 8 9 (head_of 8080 5000 true true 60)

abbrev server_child : RunState
server_child = testing (child server_config 6000 (some 5000) script_syn script_head) none

peer_syn_src : (get_packet_tuple peer_syn).src ≡ live_peer server_config 6000 (some 5000)
unfolding get_packet_tuple packet_ports
peer_syn_src = refl

peer_syn_dst : (get_packet_tuple peer_syn).dst ≡ live_self server_config
unfolding get_packet_tuple packet_ports
peer_syn_dst = refl

reply_src : (get_packet_tuple server_reply).src ≡ live_self server_config
unfolding get_packet_tuple packet_ports
reply_src = refl

reply_dst : (get_packet_tuple server_reply).dst ≡ live_peer server_config 6000 (some 5000)
unfolding get_packet_tuple packet_ports
reply_dst = refl

child_lem_example :
    (find_or_create_socket_for_script_packet server_config 6000
        (no_socket (some 5000))
        script_syn
        inbound
      ≡ returned true server_child)
    × (find_socket_for_live_packet server_child peer_syn ≡ some inbound)
    × (sniff_outbound_live_packet (server_reply ∷ []) server_child
        ≡ sniffed server_reply server_child)
child_lem_example =
    child_lem server_config 6000 (some 5000) script_syn peer_syn server_reply script_head [] refl
      refl refl peer_syn_src peer_syn_dst reply_src reply_dst refl
