-- ===== src/Parser/Safety.antt =====
-- `parse_layer4` and `parse_packet` return on every packet, by induction on the fuel.
use packetdrill.Base.{
  ℕ, zero, suc, ◌+◌, ◌≤◌, ◌<◌, ◌≡◌, refl, List, arith, length, ◌==◌, Bool-cases, inl, inr, All,
  IsByte, ◌⊎◌,
}
use packetdrill.Packet.{Packet, packet_new, header_count}
use packetdrill.Packet.Headers.{Layout, layout_end}
use packetdrill.Parser.Outcome.{Outcome, Result, done, fault, stuck}
use packetdrill.Parser.Rules.{IsKept, IsReady, Returns, leb-true}
use packetdrill.Parser.Transport.{
  ipproto_icmp, ipproto_ipip, ipproto_tcp, ipproto_udp, ipproto_ipv6, ipproto_gre, ipproto_icmpv6,
  ipproto_sctp, ipproto_udplite,
}
use packetdrill.Parser.Network.{parse_layer4, parse_packet}
use packetdrill.Parser.TransportSafety.{
  parse_sctp-Returns, parse_tcp-Returns, parse_udp-Returns, parse_udplite-Returns,
  parse_icmpv4-Returns, parse_icmpv6-Returns,
}
use packetdrill.Parser.NetworkSafety.{Good, parse_ipv4-Returns, parse_ipv6-Returns}
use packetdrill.Parser.TunnelSafety.{by_proto-Returns, parse_gre-Returns}

-- The encapsulations that the configuration offers.
abbrev pub IsEncaps : ℕ → Type 0
IsEncaps udp_encaps = (udp_encaps ≡ 0) ⊎ ((udp_encaps ≡ ipproto_sctp) ⊎ (udp_encaps ≡ ipproto_tcp))

module _ (buffer : List ℕ) (limit udp_encaps : ℕ) (known : IsEncaps udp_encaps) where
  parse_layer4-Good :
      (fuel n : ℕ) → 7 ≤ fuel + suc n → Good buffer limit (suc n) (parse_layer4 udp_encaps fuel)
  unfolding parse_layer4
  parse_layer4-Good zero n enough packet p protocol bytes ready inside =
      absurd (omega (arith, ready.enough, ready.at_most))
  parse_layer4-Good (suc fuel) n enough packet p protocol bytes ready inside =
      let deeper = parse_layer4-Good fuel (suc n) (omega arith) in
      elim (Bool-cases (protocol == ipproto_sctp)) [
        | inl is ↦ rw is (parse_sctp-Returns buffer limit packet bytes ready inside)
        | inr n1 ↦ elim (Bool-cases (protocol == ipproto_tcp)) [
          | inl is ↦ rw (n1, is) (parse_tcp-Returns buffer limit packet bytes ready inside)
          | inr n2 ↦ elim (Bool-cases (protocol == ipproto_udp)) [
            | inl is ↦
                rw (n1, n2, is)
                  (parse_udp-Returns buffer limit udp_encaps packet bytes known ready inside)
            | inr n3 ↦ elim (Bool-cases (protocol == ipproto_udplite)) [
              | inl is ↦
                  rw (n1, n2, n3, is) (parse_udplite-Returns buffer limit packet bytes ready inside)
              | inr n4 ↦ elim (Bool-cases (protocol == ipproto_icmp)) [
                | inl is ↦
                    rw (n1, n2, n3, n4, is)
                      (parse_icmpv4-Returns buffer limit packet bytes ready inside)
                | inr n5 ↦ elim (Bool-cases (protocol == ipproto_icmpv6)) [
                  | inl is ↦
                      rw (n1, n2, n3, n4, n5, is)
                        (parse_icmpv6-Returns buffer limit packet bytes ready inside)
                  | inr n6 ↦ elim (Bool-cases (protocol == ipproto_gre)) [
                    | inl is ↦
                        rw (n1, n2, n3, n4, n5, n6, is)
                          (parse_gre-Returns buffer limit _ deeper packet bytes ready inside)
                    | inr n7 ↦ elim (Bool-cases (protocol == ipproto_ipip)) [
                      | inl is ↦
                          rw (n1, n2, n3, n4, n5, n6, n7, is)
                            (parse_ipv4-Returns buffer limit _ deeper packet ready)
                      | inr n8 ↦ elim (Bool-cases (protocol == ipproto_ipv6)) [
                        | inl is ↦
                            rw (n1, n2, n3, n4, n5, n6, n7, n8, is)
                              (parse_ipv6-Returns buffer limit _ deeper packet ready)
                        | inr n9 ↦ rw (n1, n2, n3, n4, n5, n6, n7, n8, n9) ready.kept
                      ]
                    ]
                  ]
                ]
              ]
            ]
          ]
        ]
      ]

-- A new packet is ready at offset 0.
packet_new-IsReady :
    (buffer : List ℕ) (limit : ℕ)
    → All IsByte buffer
    → limit < length buffer
    → IsReady buffer limit 0 0 (packet_new buffer (length buffer))
unfolding packet_new layout_end header_count
packet_new-IsReady buffer limit bytes spare = record {
  kept = record {
    same_buffer = refl;
    slots = refl;
    layout = Layout.done (refl, (refl, (refl, (refl, (refl, (refl, tt))))));
  };
  at_end = refl;
  bytes_before = refl;
  aligned = refl;
  enough = omega arith;
  at_most = omega arith;
  inside = omega arith;
  spare = spare;
  allocated = refl;
  bytes = bytes;
}

Returns-done :
    (buffer : List ℕ) (limit : ℕ) (o : Outcome)
    → Returns buffer limit o
    → (r : Result) × (packet : Packet) × (o ≡ done r packet) × IsKept buffer limit packet
Returns-done buffer limit (done r packet) k = (r, packet, refl, k)
Returns-done buffer limit fault k = absurd k
Returns-done buffer limit stuck k = absurd k

-- `parse_packet` on a new packet returns a result: it reads no byte outside the buffer, no
-- assertion fails, and the nesting of headers ends. The buffer is left as it was, and the headers
-- that were recorded lie one behind the other from the start of the packet, each with its total
-- inside the packet. The buffer holds bytes, at least one of them behind the packet, and `udp_encaps`
-- is 0, SCTP or TCP.
pub parse_packet-returns :
    (buffer : List ℕ) (in_bytes ether_type udp_encaps : ℕ)
    → All IsByte buffer
    → in_bytes < length buffer
    → IsEncaps udp_encaps
    → (r : Result) × (packet : Packet) × (parse_packet
          (packet_new buffer (length buffer))
          in_bytes
          ether_type
          udp_encaps
        ≡ done r packet)
      × IsKept buffer in_bytes packet
unfolding parse_packet
parse_packet-returns buffer in_bytes ether_type udp_encaps bytes spare known =
    Returns-done buffer in_bytes _ (
      rw (leb-true in_bytes (packet_new buffer (length buffer)).buffer_bytes fits) (
        by_proto-Returns buffer in_bytes _
          (parse_layer4-Good buffer in_bytes udp_encaps known 7 0 (omega arith)) _ ether_type
          ready))
  where
    ready : IsReady buffer in_bytes 0 0 (packet_new buffer (length buffer))
    ready = packet_new-IsReady buffer in_bytes bytes spare

    fits : in_bytes ≤ (packet_new buffer (length buffer)).buffer_bytes
    fits = omega (arith, ready.allocated)
