-- ===== src/Tests/Parsing.antt =====
-- The packet parser on concrete packets.
use packetdrill.Base.{ℕ, ◌≡◌, refl, List, [], ◌∷◌, arith, inl}
use packetdrill.Checksum.{ipv4_checksum, ip_checksum_fold, ip_checksum_partial}
use packetdrill.Packet.{Packet, packet_new}
use packetdrill.Parser.Outcome.{Result, done, fault}
use packetdrill.Parser.Rules.{IsKept}
use packetdrill.Parser.Network.{parse_packet}
use packetdrill.Parser.Safety.{parse_packet-returns}
use packetdrill.Parser.Overread.{parse_packet_overread, ipip_header}

-- An IPv4 header and an empty UDP datagram, with one byte behind them.
abbrev udp_datagram : List ℕ
udp_datagram =
    69 ∷ 0 ∷ 0 ∷ 28 ∷ 0 ∷ 0 ∷ 0 ∷ 0 ∷ 64 ∷ 17 ∷ 249 ∷ 125 ∷ 192 ∷ 168 ∷ 0 ∷ 1 ∷ 192 ∷ 168 ∷ 0 ∷ 2
    ∷ 31 ∷ 144 ∷ 31 ∷ 145 ∷ 0 ∷ 8 ∷ 0 ∷ 0 ∷ 0 ∷ []

parse_packet-returns_example :
    (r : Result) × (packet : Packet) × (parse_packet (packet_new udp_datagram 29) 28 0x0800 0
      ≡ done r packet)
    × IsKept udp_datagram 28 packet
parse_packet-returns_example =
    parse_packet-returns udp_datagram 28 0x0800 0 (omega arith) (omega arith) (inl refl)

abbrev addresses : List ℕ
addresses = 192 ∷ 168 ∷ 0 ∷ 1 ∷ 192 ∷ 168 ∷ 0 ∷ 2 ∷ []

ipip_checksum : ipv4_checksum (ipip_header 0 0 0 64 249 146 addresses) 20 ≡ 0
unfolding ipv4_checksum ip_checksum_fold ip_checksum_partial
ipip_checksum = refl

parse_packet_overread_example :
    parse_packet (packet_new (ipip_header 0 0 0 64 249 146 addresses) 20) 20 0x0800 0 ≡ fault
parse_packet_overread_example =
    parse_packet_overread 0 0 0 64 249 146 192 168 0 1 192 168 0 2 0 ipip_checksum
