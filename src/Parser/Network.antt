-- ===== src/Parser/Network.antt =====
-- The functions of packet_parser.c below the transport layer, which call one another. They take
-- `parse_layer4` as an argument; at the end the recursion is closed on fuel.
use packetdrill.Base.{
  ℕ, zero, suc, ◌+◌, ◌-◌, ◌*◌, ◌/◌, ◌%◌, ◌^◌, Bool, not, ◌&&◌, ◌||◌, some, ltb, leb, ◌==◌,
  if◌then◌else◌, drop, bit_and,
}
use packetdrill.Checksum.{ipv4_checksum}
use packetdrill.Packet.{
  Packet, packet_max_headers, HeaderType, packet_append_header, set_total_bytes,
}
use packetdrill.Parser.Outcome.{
  Error, Outcome, bad, unknown_l4, done, fault, stuck, ◌>>=◌, ◌>>◌, reject, assert, appended, byte,
  read16, read32, readable,
}
use packetdrill.Parser.Transport.{
  parse_sctp, parse_tcp, parse_udp, parse_udplite, parse_icmpv4, parse_icmpv6, ipproto_icmp,
  ipproto_ipip, ipproto_tcp, ipproto_udp, ipproto_ipv6, ipproto_gre, ipproto_icmpv6, ipproto_sctp,
  ipproto_udplite,
}

abbrev pub ethertype_ip : ℕ
ethertype_ip = 0x0800

abbrev pub ethertype_ipv6 : ℕ
ethertype_ipv6 = 0x86dd

abbrev pub ethertype_mpls_uc : ℕ
ethertype_mpls_uc = 0x8847

abbrev pub ethertype_mpls_mc : ℕ
ethertype_mpls_mc = 0x8848

-- The packet, `layer4_start`, `layer4_protocol`, `layer4_bytes` and `packet_end`.
abbrev pub Layer4 : Type 0
Layer4 = Packet → ℕ → ℕ → ℕ → ℕ → Outcome

-- What `parse_layer4` stores into `*is_inner`.
unfoldable pub layer4_is_inner : ℕ → Bool
layer4_is_inner protocol =
    protocol == ipproto_sctp
    || (protocol == ipproto_tcp
        || (protocol == ipproto_udp
            || (protocol == ipproto_udplite
                || (protocol == ipproto_icmp || protocol == ipproto_icmpv6))))

-- The statements behind the call of `parse_layer4`, which run whatever it returned.
abbrev pub finish : (Packet → Packet) → Outcome → Outcome
finish f (done r packet) = done r (f packet)
finish f fault = fault
finish f stuck = stuck

abbrev pub finish_ipv4 : Bool → Bool → ℕ → ℕ → Packet → Packet
finish_ipv4 inner outer p total packet = record packet {
  ipv4 = if inner then some p else packet.ipv4;
  ip_bytes = if outer then total else packet.ip_bytes;
}

abbrev pub finish_ipv6 : Bool → Bool → ℕ → ℕ → Packet → Packet
finish_ipv6 inner outer p total packet = record packet {
  ipv6 = if inner then some p else packet.ipv6;
  ip_bytes = if outer then total else packet.ip_bytes;
}

-- `gre_len`, with its assertions, on the first two bytes of the header.
abbrev pub gre_bit : ℕ → ℕ → Bool
gre_bit flags k = not (flags / 2 ^ k % 2 == 0)

unfoldable pub gre_len : ℕ → ℕ
gre_len flags =
    4
    + (if gre_bit flags 7 || gre_bit flags 6 then 4 else 0)
    + (if gre_bit flags 5 then 4 else 0)
    + (if gre_bit flags 4 then 4 else 0)

-- The do-while loop over the label stack: where it ends and the bytes that it has seen. The fuel
-- is the number of rounds; each round moves by four bytes, so `packet_end + 1` are enough.
unfoldable pub mpls_stack : ℕ → Packet → ℕ → ℕ → ℕ → (ℕ → ℕ → Outcome) → Outcome
mpls_stack zero packet p packet_end bytes k = stuck
mpls_stack (suc fuel) packet p packet_end bytes k =
    let again : Outcome = mpls_stack fuel packet (p + 4) packet_end (bytes + 4) k in
    do
      reject (ltb packet_end (p + 4)) Error.mpls_overflow packet
      entry ← read32 packet p
      let is_stack_bottom = not (entry / 2 ^ 8 % 2 == 0)
      if not is_stack_bottom && ltb (p + 4) packet_end then again else k (p + 4) (bytes + 4)

module _ (layer4 : Layer4) where
  -- `parse_ipv4` behind its tests.
  unfoldable pub ipv4_payload : Packet → ℕ → ℕ → ℕ → ℕ → Outcome
  ipv4_payload packet p ip_header_bytes ip_total_bytes packet_end =
      let is_outer = packet.ip_bytes == 0 in
      appended (packet_append_header packet HeaderType.ipv4 ip_header_bytes) packet λ (packet1, i).
        do
          let packet2 = set_total_bytes packet1 i ip_total_bytes
          assert (leb (p + ip_header_bytes) packet_end)
          protocol ← byte packet2 (p + 9)
          finish (finish_ipv4 (layer4_is_inner protocol) is_outer p ip_total_bytes) (
              layer4 packet2 (p + ip_header_bytes) protocol (ip_total_bytes - ip_header_bytes)
                packet_end)

  -- The tests of `parse_ipv4` from the total length on. The checksum's assertion of a 4-byte
  -- boundary is on `p`, the buffer itself being aligned. The error path of the checksum zeroes
  -- its field for the message, and restores it.
  unfoldable pub ipv4_checks : Packet → ℕ → ℕ → ℕ → ℕ → Outcome
  ipv4_checks packet p ip_header_bytes ip_total_bytes packet_end = do
    reject (ltb packet_end (p + ip_total_bytes)) Error.ip_payload_overflows packet
    reject (ltb ip_total_bytes ip_header_bytes) Error.ip_header_bigger_than_datagram packet
    frag_off ← read16 packet (p + 6)
    reject (not (bit_and frag_off 0x2000 == 0)) Error.more_fragments packet
    reject (not (bit_and frag_off 0x1fff == 0)) Error.non_zero_fragment_offset packet
    assert (p % 4 == 0)
    readable packet p ip_header_bytes
    reject (not (ipv4_checksum (drop p packet.buffer) ip_header_bytes == 0)) Error.bad_ip_checksum
        packet
    ipv4_payload packet p ip_header_bytes ip_total_bytes packet_end

  unfoldable pub parse_ipv4 : Packet → ℕ → ℕ → Outcome
  parse_ipv4 packet p packet_end = do
    version_ihl ← byte packet p
    let ip_header_bytes = version_ihl % 16 * 4
    reject (ltb ip_header_bytes 20) Error.ip_header_too_short packet
    reject (ltb packet_end (p + ip_header_bytes)) Error.full_ip_header_overflows packet
    ip_total_bytes ← read16 packet (p + 2)
    ipv4_checks packet p ip_header_bytes ip_total_bytes packet_end

  unfoldable pub parse_ipv6 : Packet → ℕ → ℕ → Outcome
  parse_ipv6 packet p packet_end = do
    let is_outer = packet.ip_bytes == 0
    reject (ltb packet_end (p + 40)) Error.ipv6_header_overflows packet
    payload_len ← read16 packet (p + 4)
    let ip_total_bytes = 40 + payload_len
    reject (ltb packet_end (p + ip_total_bytes)) Error.ipv6_payload_overflows packet
    assert (leb 40 ip_total_bytes)
    appended (packet_append_header packet HeaderType.ipv6 40) packet λ (packet1, i). do
      let packet2 = set_total_bytes packet1 i ip_total_bytes
      assert (leb (p + 40) packet_end)
      protocol ← byte packet2 (p + 6)
      finish (finish_ipv6 (layer4_is_inner protocol) is_outer p ip_total_bytes)
          (layer4 packet2 (p + 40) protocol (ip_total_bytes - 40) packet_end)

  unfoldable pub parse_layer3_packet : Packet → ℕ → ℕ → Outcome
  parse_layer3_packet packet p packet_end = do
    reject (ltb packet_end (p + 20)) Error.ip_header_overflows packet
    version_ihl ← byte packet p
    if version_ihl / 16 == 4
        then parse_ipv4 packet p packet_end
        else (if version_ihl / 16 == 6
            then parse_ipv6 packet p packet_end
            else done (bad Error.unsupported_ip_version) packet)

  unfoldable pub parse_mpls : Packet → ℕ → ℕ → Outcome
  parse_mpls packet p packet_end =
      let mpls_total_bytes = packet_end - p in
      mpls_stack (packet_end + 1) packet p packet_end 0 λ inside mpls_header_bytes. do
        assert (leb mpls_header_bytes mpls_total_bytes)
        appended (packet_append_header packet HeaderType.mpls mpls_header_bytes) packet
            λ (packet1, i). do
              let packet2 = set_total_bytes packet1 i mpls_total_bytes
              assert (leb inside packet_end)
              parse_layer3_packet packet2 inside packet_end

  unfoldable pub parse_layer3_packet_by_proto : Packet → ℕ → ℕ → ℕ → Outcome
  parse_layer3_packet_by_proto packet proto p packet_end =
      if proto == ethertype_ip
      then (do
        reject (ltb packet_end (p + 20)) Error.ipv4_header_overflows packet
        version_ihl ← byte packet p
        if version_ihl / 16 == 4
            then parse_ipv4 packet p packet_end
            else done (bad Error.bad_version_for_ip) packet)
      else (if proto == ethertype_ipv6
          then (do
            reject (ltb packet_end (p + 40)) Error.ipv6_header_overflows packet
            version ← byte packet p
            if version / 16 == 6
                then parse_ipv6 packet p packet_end
                else done (bad Error.bad_version_for_ipv6) packet)
          else (if proto == ethertype_mpls_uc || proto == ethertype_mpls_mc
              then parse_mpls packet p packet_end
              else done unknown_l4 packet))

  -- `parse_gre` behind its tests.
  unfoldable pub gre_payload : Packet → ℕ → ℕ → ℕ → ℕ → Outcome
  gre_payload packet p gre_header_len layer4_bytes packet_end =
      appended (packet_append_header packet HeaderType.gre gre_header_len) packet λ (packet1, i). do
        let packet2 = set_total_bytes packet1 i layer4_bytes
        assert (leb (p + gre_header_len) packet_end)
        protocol ← read16 packet2 (p + 2)
        parse_layer3_packet_by_proto packet2 protocol (p + gre_header_len) packet_end

  unfoldable pub parse_gre : Packet → ℕ → ℕ → ℕ → Outcome
  parse_gre packet p layer4_bytes packet_end = do
    reject (ltb layer4_bytes 4) Error.truncated_gre packet
    flags ← byte packet p
    version ← byte packet (p + 1)
    reject (not (version % 8 == 0)) Error.gre_version packet
    reject (gre_bit flags 6) Error.gre_routing packet
    assert (version % 8 == 0)
    assert (not (gre_bit flags 6))
    let gre_header_len = gre_len flags
    reject (ltb gre_header_len 4) Error.gre_length_too_small packet
    reject (ltb layer4_bytes gre_header_len) Error.gre_length_too_big packet
    assert (leb (p + layer4_bytes) packet_end)
    gre_payload packet p gre_header_len layer4_bytes packet_end

-- The nested headers each append to the header array, so `packet_max_headers + 1` rounds of fuel
-- are enough.
unfoldable pub parse_layer4 : ℕ → ℕ → Layer4
parse_layer4 udp_encaps zero packet p protocol bytes packet_end = stuck
parse_layer4 udp_encaps (suc fuel) packet p protocol bytes packet_end =
    let inside : Layer4 = parse_layer4 udp_encaps fuel in
    if protocol == ipproto_sctp
    then parse_sctp packet p bytes packet_end
    else (if protocol == ipproto_tcp
        then parse_tcp packet p bytes packet_end
        else (if protocol == ipproto_udp
            then parse_udp udp_encaps packet p bytes packet_end
            else (if protocol == ipproto_udplite
                then parse_udplite packet p bytes packet_end
                else (if protocol == ipproto_icmp
                    then parse_icmpv4 packet p bytes packet_end
                    else (if protocol == ipproto_icmpv6
                        then parse_icmpv6 packet p bytes packet_end
                        else (if protocol == ipproto_gre
                            then parse_gre inside packet p bytes packet_end
                            else (if protocol == ipproto_ipip
                                then parse_ipv4 inside packet p packet_end
                                else (if protocol == ipproto_ipv6
                                    then parse_ipv6 inside packet p packet_end
                                    else done unknown_l4 packet))))))))

-- The hex dump that is added to the message of a bad packet is left out.
unfoldable pub parse_packet : Packet → ℕ → ℕ → ℕ → Outcome
parse_packet packet in_bytes ether_type udp_encaps =
    assert (leb in_bytes packet.buffer_bytes)
    >> parse_layer3_packet_by_proto (parse_layer4 udp_encaps (packet_max_headers + 1)) packet
        ether_type 0 in_bytes
