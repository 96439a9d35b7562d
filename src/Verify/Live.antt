-- ===== src/Verify/Live.antt =====
-- `verify_header` and `verify_outbound_live_headers` of run_packet.c: the layers of headers of an
-- outbound live packet, one by one, against the script's.
use packetdrill.Base.{ℕ, suc, Bool, not, List, [], ◌∷◌, length, ◌==◌, if◌then◌else◌}
use packetdrill.SctpMatch.Compare.{CheckResult, passed}
use packetdrill.SctpMatch.Items.{ChunkItem}
use packetdrill.SctpMatch.Packet.{verify_sctp}
use packetdrill.Verify.{
  Verdict, ok as ok_fields, IpEcn, Flags, Ipv4, Ipv6, Tcp, Ports, verify_ipv4, verify_ipv6,
  verify_tcp,
}
use packetdrill.Verify.Layers.{
  LayerVerdict, ok as ok_layer, verify_udp, verify_udplite, verify_gre, verify_mpls,
}

-- What the verifiers read of a header: for TCP with the ports in the eight bytes before it, for
-- MPLS the bytes of the stack and the memory from it on, for GRE the flags, for UDP and UDPLite
-- the length and the coverage.
pub data LayerHeader : Type 0 where
  ipv4 : Ipv4 → LayerHeader
  ipv6 : Ipv6 → LayerHeader
  gre : ℕ → LayerHeader
  mpls : ℕ → List ℕ → LayerHeader
  sctp : LayerHeader
  tcp : Tcp → Ports → LayerHeader
  udp : ℕ → LayerHeader
  udplite : ℕ → LayerHeader
  icmpv4 icmpv6 : LayerHeader

-- The numbers of `enum header_t`; HEADER_NONE is 0.
unfoldable pub header_type : LayerHeader → ℕ
header_type (ipv4 h) = 1
header_type (ipv6 h) = 2
header_type (gre flags) = 3
header_type (mpls bytes stack) = 4
header_type sctp = 5
header_type (tcp h ports) = 6
header_type (udp len) = 7
header_type (udplite cov) = 8
header_type icmpv4 = 9
header_type icmpv6 = 10

-- `has_ip` and `has_transport`: one of the pointers `ipv4` and `ipv6`, and one of `sctp`, `tcp`,
-- `udp` and `udplite`, is set. The headers are those before the first HEADER_NONE, and the SCTP
-- payload lies in `memory` from `payload` to `packet_end`.
pub record LivePacket : Type 0 where
  pub has_ip : Bool
  pub has_transport : Bool
  pub headers : List LayerHeader
  pub tcp_options_len : ℕ
  pub memory : List ℕ
  pub payload : ℕ
  pub packet_end : ℕ

pub record ScriptPacket : Type 0 where
  pub headers : List LayerHeader
  pub ecn : IpEcn
  pub flags : Flags
  pub chunk_list : List ChunkItem

pub data HeaderVerdict : Type 0 where
  ok : HeaderVerdict
  fields_differ : Verdict → HeaderVerdict
  layer_differs : LayerVerdict → HeaderVerdict
  chunks_differ : CheckResult → HeaderVerdict
  type_differs : ℕ → ℕ → ℕ → HeaderVerdict
  count_differs : ℕ → ℕ → HeaderVerdict
  assertion_failed : HeaderVerdict

abbrev pub of_fields : Verdict → HeaderVerdict
of_fields ok_fields = ok
of_fields v = fields_differ v

abbrev pub of_layer : LayerVerdict → HeaderVerdict
of_layer ok_layer = ok
of_layer v = layer_differs v

abbrev pub of_chunks : CheckResult → HeaderVerdict
of_chunks passed = ok
of_chunks v = chunks_differ v

-- Returns the error, or goes on.
infixr 3 ◌>>>◌
abbrev pub ◌>>>◌ : HeaderVerdict → HeaderVerdict → HeaderVerdict
ok >>> next = next
v >>> next = v

module _ (actual_packet : LivePacket) (script_packet : ScriptPacket) (udp_encaps : ℕ) where
  -- The call by way of the table of verifiers, which has none for ICMP.
  unfoldable pub call_verifier : LayerHeader → LayerHeader → HeaderVerdict
  call_verifier (ipv4 actual) (ipv4 script) = of_fields (
      verify_ipv4 actual script script_packet.ecn actual_packet.tcp_options_len script_packet.flags
        udp_encaps)
  call_verifier (ipv6 actual) (ipv6 script) = of_fields (
      verify_ipv6 actual script script_packet.ecn actual_packet.tcp_options_len script_packet.flags
        udp_encaps)
  call_verifier (gre actual) (gre script) = of_layer (verify_gre actual script)
  call_verifier (mpls actual_bytes actual) (mpls script_bytes script) =
      of_layer (verify_mpls actual_bytes script_bytes actual script)
  call_verifier sctp sctp = of_chunks (
      verify_sctp actual_packet.memory actual_packet.payload actual_packet.packet_end
        script_packet.chunk_list)
  call_verifier (tcp actual actual_udp) (tcp script script_udp) = of_fields (
      verify_tcp actual script actual_udp script_udp actual_packet.tcp_options_len
        script_packet.flags udp_encaps)
  call_verifier (udp actual) (udp script) = of_layer (verify_udp actual script udp_encaps)
  call_verifier (udplite actual) (udplite script) = of_layer (verify_udplite actual script)
  call_verifier actual script = assertion_failed

  unfoldable pub verify_header : ℕ → LayerHeader → LayerHeader → HeaderVerdict
  unfolding call_verifier header_type
  verify_header layer actual script =
      if not (header_type script == header_type actual)
      then type_differs layer (header_type script) (header_type actual)
      else call_verifier actual script

  -- The loop over the layers, from the layer `i` on.
  unfoldable pub headers_loop : ℕ → List LayerHeader → List LayerHeader → HeaderVerdict
  unfolding verify_header header_type
  headers_loop i actual [] = ok
  headers_loop i [] (script ∷ scripts) = type_differs i (header_type script) 0
  headers_loop i (actual ∷ actuals) (script ∷ scripts) =
      verify_header i actual script >>> headers_loop (suc i) actuals scripts

  unfoldable pub verify_outbound_live_headers : HeaderVerdict
  unfolding headers_loop
  verify_outbound_live_headers =
      if not actual_packet.has_ip
      then assertion_failed
      else (if not actual_packet.has_transport
          then assertion_failed
          else (if not (length actual_packet.headers == length script_packet.headers)
              then count_differs (length script_packet.headers) (length actual_packet.headers)
              else headers_loop 0 actual_packet.headers script_packet.headers))
