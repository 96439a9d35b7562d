-- ===== src/Parser/Transport.antt =====
-- The functions of packet_parser.c for the transport layer. `p` is `layer4_start`, an offset into
-- the buffer, and `packet_end` the offset behind the packet.
use packetdrill.Base.{
  ℕ, ◌+◌, ◌-◌, ◌*◌, ◌/◌, Bool, true, false, not, some, ltb, leb, ◌==◌, if◌then◌else◌, memcpy, drop,
  be32_bytes, bit_or,
}
use packetdrill.Checksum.Crc.{sctp_crc32c}
use packetdrill.Packet.{
  Packet, HeaderType, packet_append_header, set_total_bytes, packet_inner_header, Header,
  flags_udp_encapsulated,
}
use packetdrill.Parser.Outcome.{
  Error, Outcome, ok, done, ◌>>=◌, ◌>>◌, reject, assert, appended, byte, read16, read32, readable,
}

abbrev pub ipproto_icmp : ℕ
ipproto_icmp = 1

abbrev pub ipproto_ipip : ℕ
ipproto_ipip = 4

abbrev pub ipproto_tcp : ℕ
ipproto_tcp = 6

abbrev pub ipproto_udp : ℕ
ipproto_udp = 17

abbrev pub ipproto_ipv6 : ℕ
ipproto_ipv6 = 41

abbrev pub ipproto_gre : ℕ
ipproto_gre = 47

abbrev pub ipproto_icmpv6 : ℕ
ipproto_icmpv6 = 58

abbrev pub ipproto_sctp : ℕ
ipproto_sctp = 132

abbrev pub ipproto_udplite : ℕ
ipproto_udplite = 136

-- The checksum is computed with its field set to zero in place, and the field is then restored.
unfoldable pub parse_sctp : Packet → ℕ → ℕ → ℕ → Outcome
parse_sctp packet p layer4_bytes packet_end = do
  reject (ltb layer4_bytes 12) Error.truncated_sctp packet
  let packet1 : Packet = record packet { sctp = some p }
  received ← read32 packet1 (p + 8)
  readable packet1 p layer4_bytes
  let zeroed = memcpy packet1.buffer (p + 8) (be32_bytes 0)
  let computed = sctp_crc32c (drop p zeroed) layer4_bytes
  let packet2 : Packet = record packet1 { buffer = memcpy zeroed (p + 8) (be32_bytes received) }
  reject (not (received == computed)) Error.bad_sctp_checksum packet2
  appended (packet_append_header packet2 HeaderType.sctp 12) packet2 λ (packet3, i). do
    assert (leb (p + layer4_bytes) packet_end)
    done ok (set_total_bytes packet3 i layer4_bytes)

unfoldable pub parse_tcp : Packet → ℕ → ℕ → ℕ → Outcome
parse_tcp packet p layer4_bytes packet_end = do
  reject (ltb layer4_bytes 20) Error.truncated_tcp packet
  let packet1 : Packet = record packet { tcp = some p }
  doff ← byte packet1 (p + 12)
  let tcp_header_len = doff / 16 * 4
  reject (ltb tcp_header_len 20) Error.tcp_offset_too_small packet1
  reject (ltb layer4_bytes tcp_header_len) Error.tcp_offset_too_big packet1
  appended (packet_append_header packet1 HeaderType.tcp tcp_header_len) packet1 λ (packet2, i). do
    assert (leb (p + layer4_bytes) packet_end)
    done ok (set_total_bytes packet2 i layer4_bytes)

-- The part of `parse_udp` behind its header, with or without encapsulation.
unfoldable pub udp_payload : ℕ → Packet → ℕ → ℕ → ℕ → Outcome
udp_payload udp_encaps packet p layer4_bytes packet_end =
    let encapsulated : Packet = record packet {
      flags = bit_or packet.flags flags_udp_encapsulated;
    } in
    let plain : Outcome = (do
      assert (udp_encaps == 0)
      assert (leb (p + layer4_bytes) packet_end)
      done ok (record packet { udp = some p })) in
    if udp_encaps == ipproto_sctp
    then parse_sctp encapsulated (p + 8) (layer4_bytes - 8) packet_end
    else (if udp_encaps == ipproto_tcp
        then parse_tcp encapsulated (p + 8) (layer4_bytes - 8) packet_end
        else plain)

unfoldable pub parse_udp : ℕ → Packet → ℕ → ℕ → ℕ → Outcome
parse_udp udp_encaps packet p layer4_bytes packet_end = do
  reject (ltb layer4_bytes 8) Error.truncated_udp packet
  udp_len ← read16 packet (p + 4)
  reject (ltb udp_len 8) Error.udp_length_below_header packet
  reject (ltb udp_len layer4_bytes) Error.udp_length_too_small packet
  reject (ltb layer4_bytes udp_len) Error.udp_length_too_big packet
  appended (packet_append_header packet HeaderType.udp 8) packet λ (packet1, i).
      udp_payload udp_encaps (set_total_bytes packet1 i layer4_bytes) p layer4_bytes packet_end

-- The second test of the length is the first one again.
unfoldable pub parse_udplite : Packet → ℕ → ℕ → ℕ → Outcome
parse_udplite packet p layer4_bytes packet_end = do
  reject (ltb layer4_bytes 8) Error.truncated_udplite packet
  let packet1 : Packet = record packet { udplite = some p }
  reject (ltb layer4_bytes 8) Error.udplite_length_too_small packet1
  appended (packet_append_header packet1 HeaderType.udplite 8) packet1 λ (packet2, i). do
    assert (leb (p + layer4_bytes) packet_end)
    done ok (set_total_bytes packet2 i layer4_bytes)

abbrev pub is_ipv4 : HeaderType → Bool
is_ipv4 HeaderType.ipv4 = true
is_ipv4 _ = false

abbrev pub is_ipv6 : HeaderType → Bool
is_ipv6 HeaderType.ipv6 = true
is_ipv6 _ = false

unfoldable pub parse_icmpv4 : Packet → ℕ → ℕ → ℕ → Outcome
parse_icmpv4 packet p layer4_bytes packet_end = do
  inner ← packet_inner_header packet
  reject (not (is_ipv4 (Header.type inner))) Error.bad_version_for_icmp packet
  reject (ltb layer4_bytes 8) Error.truncated_icmpv4 packet
  let packet1 : Packet = record packet { icmpv4 = some p }
  appended (packet_append_header packet1 HeaderType.icmpv4 8) packet1 λ (packet2, i). do
    assert (leb (p + layer4_bytes) packet_end)
    done ok (set_total_bytes packet2 i layer4_bytes)

unfoldable pub parse_icmpv6 : Packet → ℕ → ℕ → ℕ → Outcome
parse_icmpv6 packet p layer4_bytes packet_end = do
  inner ← packet_inner_header packet
  reject (not (is_ipv6 (Header.type inner))) Error.bad_version_for_icmpv6 packet
  reject (ltb layer4_bytes 8) Error.truncated_icmpv6 packet
  let packet1 : Packet = record packet { icmpv6 = some p }
  appended (packet_append_header packet1 HeaderType.icmpv6 8) packet1 λ (packet2, i). do
    assert (leb (p + layer4_bytes) packet_end)
    done ok (set_total_bytes packet2 i layer4_bytes)
