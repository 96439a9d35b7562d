-- ===== src/Connect.antt =====
-- How packets find the socket under test: the state of a socket (gtests/net/packetdrill/socket.h)
-- and the functions of gtests/net/packetdrill/run_packet.c that look a socket up or move it on.
-- Ports are in host byte order. An IP address is its family and its bits.
pub mod Listen
pub mod Script
pub mod Live
pub mod Laws
pub mod Kept
pub mod Child
pub mod Invariant
use packetdrill.Base.{
  ℕ, Bool, true, false, ◌&&◌, List, [], ◌∷◌, Option, none, some, ◌==◌, ltb, if◌then◌else◌,
}
use packetdrill.SctpMatch.Compare.{Place}
use packetdrill.SctpMatch.Items.{ChunkItem}

pub data Status : Type 0 where
  socket_init socket_new_ passive_listening passive_packet_received passive_synack_sent : Status
  passive_synack_acked passive_init_ack_sent passive_cookie_echo_received : Status
  active_connecting active_syn_sent active_syn_acked active_init_sent : Status
  active_init_ack_received : Status

pub data Direction : Type 0 where
  inbound outbound : Direction

pub record Address : Type 0 where
  pub family : ℕ
  pub bits : ℕ

pub record Endpoint : Type 0 where
  pub ip : Address
  pub port : ℕ

pub record Tuple : Type 0 where
  pub src : Endpoint
  pub dst : Endpoint

-- `struct socket_state`; `none` as the descriptor is -1.
pub record SocketState : Type 0 where
  pub fd : Option ℕ
  pub local : Endpoint
  pub local_isn : ℕ
  pub local_initial_tsn : ℕ
  pub local_initiate_tag : ℕ
  pub remote : Endpoint
  pub remote_isn : ℕ
  pub remote_initial_tsn : ℕ
  pub remote_initiate_tag : ℕ

-- The fields of `struct socket` that the functions read or write.
pub record TestSocket : Type 0 where
  pub state : Status
  pub address_family : ℕ
  pub protocol : ℕ
  pub script : SocketState
  pub live : SocketState

pub record Config : Type 0 where
  pub is_wire_server : Bool
  pub udp_encaps : ℕ
  pub live_remote_ip : Address
  pub live_local_ip : Address
  pub live_bind_port : ℕ
  pub live_connect_port : ℕ

-- The socket under test and the cached port of `struct state`; `none` is NULL and -1.
pub record RunState : Type 0 where
  pub socket_under_test : Option TestSocket
  pub next_ephemeral_port : Option ℕ

pub record TransportPorts : Type 0 where
  pub src_port : ℕ
  pub dst_port : ℕ

pub record TcpHead : Type 0 where
  pub ports : TransportPorts
  pub syn : Bool
  pub ack : Bool
  pub seq : ℕ

-- A packet with an IP header, the transport headers that it has, and its SCTP chunks: the list of
-- a scripted packet, or the bytes from `sctp_payload` to `packet_end` in their memory.
-- `sctp_total_bytes` is that of the SCTP header.
pub record TestPacket : Type 0 where
  pub src_ip : Address
  pub dst_ip : Address
  pub ip_protocol : ℕ
  pub sctp : Option TransportPorts
  pub tcp : Option TcpHead
  pub udp : Option TransportPorts
  pub udplite : Option TransportPorts
  pub is_icmp : Bool
  pub chunk_list : Option (List ChunkItem)
  pub is_generic : Bool
  pub sctp_payload : Place
  pub packet_end : ℕ
  pub sctp_total_bytes : ℕ

-- What a function leaves: whether it returns the socket under test or NULL, and the state; or a
-- failed assertion, or a read outside the memory.
pub data Lookup : Type 0 where
  returned : Bool → RunState → Lookup
  assertion_failed bad_read : Lookup

abbrev pub is_equal_ip : Address → Address → Bool
is_equal_ip a b = (a.family == b.family) && (a.bits == b.bits)

abbrev pub is_equal_endpoint : Endpoint → Endpoint → Bool
is_equal_endpoint a b = is_equal_ip a.ip b.ip && (a.port == b.port)

unfoldable pub is_equal_tuple : Tuple → Tuple → Bool
is_equal_tuple a b = is_equal_endpoint a.src b.src && is_equal_endpoint a.dst b.dst

-- The ports of the first transport header there is, in this order.
unfoldable pub packet_ports : TestPacket → TransportPorts
packet_ports packet = elim packet.sctp [
  | some ports ↦ ports
  | none ↦ elim packet.tcp [
    | some tcp ↦ tcp.ports
    | none ↦ elim packet.udp [
      | some ports ↦ ports
      | none ↦ elim packet.udplite [
        | some ports ↦ ports
        | none ↦ record { src_port = 0; dst_port = 0 }
      ]
    ]
  ]
]

unfoldable pub get_packet_tuple : TestPacket → Tuple
get_packet_tuple packet = record {
  src = record { ip = packet.src_ip; port = (packet_ports packet).src_port };
  dst = record { ip = packet.dst_ip; port = (packet_ports packet).dst_port };
}

unfoldable pub socket_get_outbound : SocketState → Tuple
socket_get_outbound s = record { src = s.local; dst = s.remote }

unfoldable pub socket_get_inbound : SocketState → Tuple
socket_get_inbound s = record { src = s.remote; dst = s.local }

-- `packet_ip_protocol`; 17 is IPPROTO_UDP.
unfoldable pub packet_ip_protocol : TestPacket → ℕ → ℕ
packet_ip_protocol packet udp_encaps =
    if (packet.ip_protocol == 17) && ltb 0 udp_encaps then udp_encaps else packet.ip_protocol

abbrev zero_endpoint : Endpoint
zero_endpoint = record { ip = record { family = 0; bits = 0 }; port = 0 }

abbrev zero_state : SocketState
zero_state = record {
  fd = some 0;
  local = zero_endpoint;
  local_isn = 0;
  local_initial_tsn = 0;
  local_initiate_tag = 0;
  remote = zero_endpoint;
  remote_isn = 0;
  remote_initial_tsn = 0;
  remote_initiate_tag = 0;
}

-- What `calloc` gives.
abbrev pub socket_new : TestSocket
socket_new = record {
  state = socket_init;
  address_family = 0;
  protocol = 0;
  script = zero_state;
  live = zero_state;
}
