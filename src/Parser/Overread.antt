-- ===== src/Parser/Overread.antt =====
-- An IPv4 header that announces another one and ends the packet: the parser reads behind it.
use packetdrill.Base.{ℕ, ◌≡◌, List, [], ◌∷◌}
use packetdrill.Checksum.{ipv4_checksum}
use packetdrill.Packet.{packet_new, packet_append_header, set_total_bytes, header_count}
use packetdrill.Parser.Outcome.{fault}
use packetdrill.Parser.Network.{
  parse_packet, parse_layer3_packet_by_proto, parse_ipv4, ipv4_checks, ipv4_payload, parse_layer4,
}

-- The header of 20 bytes: version 4, five words, a total length of 20, no fragment, protocol 4.
abbrev pub ipip_header : ℕ → ℕ → ℕ → ℕ → ℕ → ℕ → List ℕ → List ℕ
ipip_header tos id1 id2 ttl c1 c2 addresses =
    0x45 ∷ tos ∷ 0 ∷ 20 ∷ id1 ∷ id2 ∷ 0 ∷ 0 ∷ ttl ∷ 4 ∷ c1 ∷ c2 ∷ addresses

-- When a buffer holds just an IPv4 header with a correct checksum that announces an inner IPv4
-- header, `parse_packet` reads the byte behind the buffer.
pub parse_packet_overread :
    (tos id1 id2 ttl c1 c2 s1 s2 s3 s4 d1 d2 d3 d4 udp_encaps : ℕ)
    → ipv4_checksum
        (ipip_header tos id1 id2 ttl c1 c2 (s1 ∷ s2 ∷ s3 ∷ s4 ∷ d1 ∷ d2 ∷ d3 ∷ d4 ∷ []))
        20
      ≡ 0
    → parse_packet
        (packet_new
          (ipip_header tos id1 id2 ttl c1 c2 (s1 ∷ s2 ∷ s3 ∷ s4 ∷ d1 ∷ d2 ∷ d3 ∷ d4 ∷ []))
          20)
        20
        0x0800
        udp_encaps
      ≡ fault
unfolding parse_packet parse_layer3_packet_by_proto parse_ipv4 ipv4_checks ipv4_payload parse_layer4
    packet_new packet_append_header set_total_bytes header_count
parse_packet_overread tos id1 id2 ttl c1 c2 s1 s2 s3 s4 d1 d2 d3 d4 udp_encaps right = rw right
