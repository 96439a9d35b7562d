-- ===== src/Parser/TransportSafety.antt =====
-- The functions of the transport layer return, under the common precondition.
use packetdrill.Base.{
  ℕ, suc, ◌+◌, ◌-◌, ◌*◌, ◌/◌, ◌%◌, ◌≤◌, ◌≡◌, refl, false, some, List, arith, length, leb, ltb, ◌==◌,
  memcpy, drop, bit_or, All, IsByte, be32_bytes, Bool-cases, inl, inr, ap, ◌⊎◌,
}
use packetdrill.Checksum.Crc.{sctp_crc32c}
use packetdrill.Packet.{
  Packet, HeaderType, is_none, packet_append_header, set_total_bytes, flags_udp_encapsulated,
  Header, packet_inner_header, header_count,
}
use packetdrill.Parser.Outcome.{appended, assert, ◌>>◌, done, ok}
use packetdrill.Packet.Headers.{header_before-in_range}
use packetdrill.Parser.Rules.{
  IsReady, Returns, IsReady-same, append-cases, found, byte-Found, read16-Found, leb-true,
}
use packetdrill.Parser.Transport.{
  udp_payload, parse_sctp, parse_tcp, parse_udp, parse_udplite, parse_icmpv4, parse_icmpv6, is_ipv4,
  is_ipv6, ipproto_sctp, ipproto_tcp,
}
use packetdrill.Parser.FieldRestored.{field, read32-Field}

module _ (buffer : List ℕ) (limit : ℕ) where
  pub last_header-Returns :
      {n p : ℕ} {packet : Packet} (t : HeaderType) (bytes total : ℕ)
      → IsReady buffer limit n p packet
      → is_none t ≡ false
      → bytes ≤ total
      → p + total ≤ limit
      → bytes % 4 ≡ 0
      → Returns buffer limit (
          appended (packet_append_header packet t bytes) packet (λ (packet1, i).
            assert (leb (p + total) limit) >> done ok (set_total_bytes packet1 i total)))
  last_header-Returns t bytes total ready used fits inside aligned =
      elim (append-cases buffer limit t bytes total ready used fits inside aligned) [
        | inl full ↦ rw full ready.kept
        | inr (packet1, i, e, ready1) ↦ rw (e, leb-true _ _ inside) ready1.kept
      ]

  pub parse_tcp-Returns :
      {n p : ℕ} (packet : Packet) (layer4_bytes : ℕ)
      → IsReady buffer limit n p packet
      → p + layer4_bytes ≤ limit
      → Returns buffer limit (parse_tcp packet p layer4_bytes limit)
  unfolding parse_tcp
  parse_tcp-Returns {p = p} packet layer4_bytes ready inside =
      let len : length packet.buffer ≡ length buffer = ap length ready.kept.same_buffer in
      let room = ready.spare in
      let ready1 =
        IsReady-same buffer limit (record packet { tcp = some p }) refl refl refl refl ready in
      elim (Bool-cases (ltb layer4_bytes 20)) [
        | inl short ↦ rw short ready.kept
        | inr long ↦ elim (byte-Found packet (p + 12) (ground arith)) [
          | found doff at ↦
              rw (long, at)
                (elim (Bool-cases (ltb (doff / 16 * 4) 20)) [
                  | inl below ↦ rw below ready1.kept
                  | inr above ↦ elim (Bool-cases (ltb layer4_bytes (doff / 16 * 4))) [
                    | inl big ↦ rw (above, big) ready1.kept
                    | inr fits ↦
                        rw (above, fits)
                          (last_header-Returns HeaderType.tcp (doff / 16 * 4) layer4_bytes ready1
                            refl (ground arith) inside (omega arith))
                  ]
                ])
        ]
      ]

  pub parse_sctp-Returns :
      {n p : ℕ} (packet : Packet) (layer4_bytes : ℕ)
      → IsReady buffer limit n p packet
      → p + layer4_bytes ≤ limit
      → Returns buffer limit (parse_sctp packet p layer4_bytes limit)
  unfolding parse_sctp
  parse_sctp-Returns {p = p} packet layer4_bytes ready inside =
      let len : length packet.buffer ≡ length buffer = ap length ready.kept.same_buffer in
      let room = ready.spare in
      let bytes : All IsByte packet.buffer = rw ready.kept.same_buffer ready.bytes in
      elim (Bool-cases (ltb layer4_bytes 12)) [
        | inl short ↦ rw short ready.kept
        | inr long ↦ elim (read32-Field packet (p + 8) bytes (ground arith)) [
          | field v at restored ↦
              let ready1 =
                IsReady-same buffer limit
                  (record packet {
                    sctp = some p;
                    buffer =
                        memcpy (memcpy packet.buffer (p + 8) (be32_bytes 0)) (p + 8) (be32_bytes v);
                  })
                  restored refl refl refl ready in
              rw (long, at, leb-true (p + layer4_bytes) (length packet.buffer) (omega arith))
                (elim (Bool-cases (
                  v
                  == sctp_crc32c (drop p (memcpy packet.buffer (p + 8) (be32_bytes 0)))
                      layer4_bytes)) [
                        | inl same ↦ rw same (
                            last_header-Returns HeaderType.sctp 12 layer4_bytes ready1 refl
                              (ground arith) inside (omega arith))
                        | inr differs ↦ rw differs ready1.kept
                      ])
        ]
      ]

  -- What follows the tests of the length.
  inside_udp :
      {n p : ℕ} (udp_encaps : ℕ) (packet : Packet) (layer4_bytes : ℕ)
      → (udp_encaps ≡ 0) ⊎ ((udp_encaps ≡ ipproto_sctp) ⊎ (udp_encaps ≡ ipproto_tcp))
      → IsReady buffer limit n p packet
      → p + layer4_bytes ≤ limit
      → 8 ≤ layer4_bytes
      → Returns buffer limit (
          appended (packet_append_header packet HeaderType.udp 8) packet (λ (packet1, i).
            udp_payload udp_encaps (set_total_bytes packet1 i layer4_bytes) p layer4_bytes limit))
  unfolding udp_payload
  inside_udp {p = p} udp_encaps packet layer4_bytes known ready inside fits =
      elim (append-cases buffer limit HeaderType.udp 8 layer4_bytes ready refl fits inside refl) [
        | inl full ↦ rw full ready.kept
        | inr (packet1, i, e, ready1) ↦
            let rest : p + 8 + (layer4_bytes - 8) ≤ limit = omega arith in
            let ready2 =
              IsReady-same buffer limit
                (record (set_total_bytes packet1 i layer4_bytes) {
                  flags =
                      bit_or (set_total_bytes packet1 i layer4_bytes).flags flags_udp_encapsulated;
                })
                refl refl refl refl ready1 in
            let ready3 =
              IsReady-same buffer limit
                (record (set_total_bytes packet1 i layer4_bytes) { udp = some p }) refl refl refl
                refl ready1 in
            elim known [
              | inl plain ↦ rw (e, plain, leb-true _ _ inside) ready3.kept
              | inr (inl sctp) ↦ rw (e, sctp) (parse_sctp-Returns _ (layer4_bytes - 8) ready2 rest)
              | inr (inr tcp) ↦ rw (e, tcp) (parse_tcp-Returns _ (layer4_bytes - 8) ready2 rest)
            ]
      ]

  pub parse_udp-Returns :
      {n p : ℕ} (udp_encaps : ℕ) (packet : Packet) (layer4_bytes : ℕ)
      → (udp_encaps ≡ 0) ⊎ ((udp_encaps ≡ ipproto_sctp) ⊎ (udp_encaps ≡ ipproto_tcp))
      → IsReady buffer limit n p packet
      → p + layer4_bytes ≤ limit
      → Returns buffer limit (parse_udp udp_encaps packet p layer4_bytes limit)
  unfolding parse_udp
  parse_udp-Returns {p = p} udp_encaps packet layer4_bytes known ready inside =
      let len : length packet.buffer ≡ length buffer = ap length ready.kept.same_buffer in
      let room = ready.spare in
      elim (Bool-cases (ltb layer4_bytes 8)) [
        | inl short ↦ rw short ready.kept
        | inr long ↦ elim (read16-Found packet (p + 4) (ground arith)) [
          | found udp_len at ↦
              rw (long, at)
                (elim (Bool-cases (ltb udp_len 8)) [
                  | inl below ↦ rw below ready.kept
                  | inr above ↦ elim (Bool-cases (ltb udp_len layer4_bytes)) [
                    | inl small ↦ rw (above, small) ready.kept
                    | inr not_small ↦ elim (Bool-cases (ltb layer4_bytes udp_len)) [
                      | inl big ↦ rw (above, not_small, big) ready.kept
                      | inr exact ↦
                          rw (above, not_small, exact)
                            (inside_udp udp_encaps packet layer4_bytes known ready inside
                              (ground arith))
                    ]
                  ]
                ])
        ]
      ]

  pub parse_udplite-Returns :
      {n p : ℕ} (packet : Packet) (layer4_bytes : ℕ)
      → IsReady buffer limit n p packet
      → p + layer4_bytes ≤ limit
      → Returns buffer limit (parse_udplite packet p layer4_bytes limit)
  unfolding parse_udplite
  parse_udplite-Returns {p = p} packet layer4_bytes ready inside =
      let ready1 =
        IsReady-same buffer limit (record packet { udplite = some p }) refl refl refl refl ready in
      elim (Bool-cases (ltb layer4_bytes 8)) [
        | inl short ↦ rw short ready.kept
        | inr long ↦ rw long (
            last_header-Returns HeaderType.udplite 8 layer4_bytes ready1 refl (ground arith) inside
              refl)
      ]

  inner-cases :
      {n p : ℕ} {packet : Packet}
      → IsReady buffer limit (suc n) p packet
      → (h : Header) × (packet_inner_header packet ≡ some h)
  unfolding packet_inner_header
  inner-cases {packet = packet} ready =
      header_before-in_range packet.headers (header_count packet.headers)
        (omega (arith, ready.enough)) (omega (arith, ready.at_most, ready.kept.slots))

  pub parse_icmpv4-Returns :
      {n p : ℕ} (packet : Packet) (layer4_bytes : ℕ)
      → IsReady buffer limit (suc n) p packet
      → p + layer4_bytes ≤ limit
      → Returns buffer limit (parse_icmpv4 packet p layer4_bytes limit)
  unfolding parse_icmpv4
  parse_icmpv4-Returns {p = p} packet layer4_bytes ready inside =
      let ready1 =
        IsReady-same buffer limit (record packet { icmpv4 = some p }) refl refl refl refl ready in
      let (h, at) = inner-cases ready in
      rw at (elim (Bool-cases (is_ipv4 h.type)) [
        | inr other ↦ rw other ready.kept
        | inl v4 ↦ rw v4 (elim (Bool-cases (ltb layer4_bytes 8)) [
          | inl short ↦ rw short ready.kept
          | inr long ↦ rw long (
              last_header-Returns HeaderType.icmpv4 8 layer4_bytes ready1 refl (ground arith) inside
                refl)
        ])
      ])

  pub parse_icmpv6-Returns :
      {n p : ℕ} (packet : Packet) (layer4_bytes : ℕ)
      → IsReady buffer limit (suc n) p packet
      → p + layer4_bytes ≤ limit
      → Returns buffer limit (parse_icmpv6 packet p layer4_bytes limit)
  unfolding parse_icmpv6
  parse_icmpv6-Returns {p = p} packet layer4_bytes ready inside =
      let ready1 =
        IsReady-same buffer limit (record packet { icmpv6 = some p }) refl refl refl refl ready in
      let (h, at) = inner-cases ready in
      rw at (elim (Bool-cases (is_ipv6 h.type)) [
        | inr other ↦ rw other ready.kept
        | inl v6 ↦ rw v6 (elim (Bool-cases (ltb layer4_bytes 8)) [
          | inl short ↦ rw short ready.kept
          | inr long ↦ rw long (
              last_header-Returns HeaderType.icmpv6 8 layer4_bytes ready1 refl (ground arith) inside
                refl)
        ])
      ])
