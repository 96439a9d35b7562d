-- ===== src/Parser/TunnelSafety.antt =====
-- The functions for the label stack, for a protocol number of the link layer and for GRE return.
use packetdrill.Base.{
  ℕ, zero, suc, ◌+◌, ◌-◌, ◌/◌, ◌%◌, ◌^◌, ◌≤◌, ◌<◌, ◌≡◌, refl, false, not, ◌&&◌, ◌||◌, List, arith,
  length, ltb, ◌==◌, Bool-cases, inl, inr, ap,
}
use packetdrill.Packet.{Packet, HeaderType, set_total_bytes}
use packetdrill.Parser.Outcome.{Outcome}
use packetdrill.Parser.Rules.{
  IsReady, Returns, append-cases, found, byte-Found, read16-Found, read32-Found, leb-true,
}
use packetdrill.Parser.Network.{
  Layer4, mpls_stack, parse_mpls, parse_layer3_packet_by_proto, gre_bit, gre_len, parse_gre,
  gre_payload, ethertype_ip, ethertype_ipv6, ethertype_mpls_uc, ethertype_mpls_mc,
}
use packetdrill.Parser.NetworkSafety.{
  Good, IsReady-weaken, parse_ipv4-Returns, parse_ipv6-Returns, parse_layer3_packet-Returns,
}

gre_len_words : (flags : ℕ) → gre_len flags % 4 ≡ 0
unfolding gre_len
gre_len_words flags = elim (Bool-cases (gre_bit flags 7 || gre_bit flags 6)) [
  | inl a ↦ rw a (ground arith)
  | inr a ↦ rw a (ground arith)
]

module _ (buffer : List ℕ) (limit : ℕ) {n : ℕ} where
  -- The loop ends within its fuel, behind a whole number of entries.
  mpls_stack-Returns :
      (fuel p bytes start : ℕ) (packet : Packet) (k : ℕ → ℕ → Outcome)
      → IsReady buffer limit n start packet
      → p ≡ start + bytes
      → bytes % 4 ≡ 0
      → limit < p + fuel
      → p ≤ limit
      → ((b : ℕ) → b % 4 ≡ 0 → start + b ≤ limit → Returns buffer limit (k (start + b) b))
      → Returns buffer limit (mpls_stack fuel packet p limit bytes k)
  unfolding mpls_stack
  mpls_stack-Returns zero p bytes start packet k ready at words fuelled inside h =
      absurd (omega arith)
  mpls_stack-Returns (suc fuel) p bytes start packet k ready at words fuelled inside h =
      let len : length packet.buffer ≡ length buffer = ap length ready.kept.same_buffer in
      elim (Bool-cases (ltb limit (p + 4))) [
        | inl over ↦ rw over ready.kept
        | inr fits ↦ elim (read32-Found packet p (ground (arith, ready.spare))) [
          | found entry at_entry ↦
              rw (fits, at_entry)
                (elim (Bool-cases (not (not (entry / 2 ^ 8 % 2 == 0)) && ltb (p + 4) limit)) [
                  | inl more ↦ rw more (
                      mpls_stack-Returns fuel (p + 4) (bytes + 4) start packet k ready (omega arith)
                        (omega arith) (omega arith) (ground arith) h)
                  | inr last ↦ rw last (ends p bytes at words fits)
                ])
        ]
      ]
    where
      ends :
          (p bytes : ℕ)
          → p ≡ start + bytes
          → bytes % 4 ≡ 0
          → ltb limit (p + 4) ≡ false
          → Returns buffer limit (k (p + 4) (bytes + 4))
      ends p bytes at words fits =
          let e : p + 4 ≡ start + (bytes + 4) = omega arith in
          rw e (h (bytes + 4) (omega arith) (ground arith))

  module _ (layer4 : Layer4) (good : Good buffer limit (suc n) layer4) where
    pub parse_mpls-Returns :
        {p : ℕ} (packet : Packet)
        → IsReady buffer limit n p packet
        → Returns buffer limit (parse_mpls layer4 packet p limit)
    unfolding parse_mpls
    parse_mpls-Returns {p} packet ready =
        mpls_stack-Returns (limit + 1) p 0 p packet _ ready (omega arith) refl (omega arith)
          ready.inside
          (λ b words inside.
            rw (leb-true b (limit - p) (omega arith))
              (elim (append-cases buffer limit HeaderType.mpls b (limit - p) ready refl
                (omega arith) (omega (arith, ready.inside)) words) [
                  | inl full ↦ rw full ready.kept
                  | inr (packet1, i, e, ready1) ↦
                      rw (e, leb-true (p + b) limit inside)
                        (parse_layer3_packet-Returns buffer limit layer4 good
                          (set_total_bytes packet1 i (limit - p))
                          (IsReady-weaken buffer limit ready1))
                ]))

    pub by_proto-Returns :
        {p : ℕ} (packet : Packet) (proto : ℕ)
        → IsReady buffer limit n p packet
        → Returns buffer limit (parse_layer3_packet_by_proto layer4 packet proto p limit)
    unfolding parse_layer3_packet_by_proto
    by_proto-Returns {p} packet proto ready =
        let len : length packet.buffer ≡ length buffer = ap length ready.kept.same_buffer in
        elim (byte-Found packet p (omega (arith, ready.spare, ready.inside))) [
          | found v at ↦ elim (Bool-cases (proto == ethertype_ip)) [
            | inl ip ↦ rw ip (elim (Bool-cases (ltb limit (p + 20))) [
              | inl over ↦ rw over ready.kept
              | inr fits ↦
                  rw (fits, at)
                    (elim (Bool-cases (v / 16 == 4)) [
                      | inl v4 ↦ rw v4 (parse_ipv4-Returns buffer limit layer4 good packet ready)
                      | inr other ↦ rw other ready.kept
                    ])
            ])
            | inr not_ip ↦ elim (Bool-cases (proto == ethertype_ipv6)) [
              | inl ipv6 ↦
                  rw (not_ip, ipv6)
                    (elim (Bool-cases (ltb limit (p + 40))) [
                      | inl over ↦ rw over ready.kept
                      | inr fits ↦
                          rw (fits, at)
                            (elim (Bool-cases (v / 16 == 6)) [
                              | inl v6 ↦
                                  rw v6 (parse_ipv6-Returns buffer limit layer4 good packet ready)
                              | inr other ↦ rw other ready.kept
                            ])
                    ])
              | inr not_ipv6 ↦
                  elim (Bool-cases (proto == ethertype_mpls_uc || proto == ethertype_mpls_mc)) [
                    | inl mpls ↦ rw (not_ip, not_ipv6, mpls) (parse_mpls-Returns packet ready)
                    | inr other ↦ rw (not_ip, not_ipv6, other) ready.kept
                  ]
            ]
          ]
        ]

    -- What follows the tests of the GRE header.
    gre_inside :
        {p : ℕ} (packet : Packet) (bytes header : ℕ)
        → IsReady buffer limit n p packet
        → p + bytes ≤ limit
        → header ≤ bytes
        → header % 4 ≡ 0
        → 4 ≤ header
        → Returns buffer limit (gre_payload layer4 packet p header bytes limit)
    unfolding gre_payload
    gre_inside {p} packet bytes header ready inside fits words min_size =
        elim (append-cases buffer limit HeaderType.gre header bytes ready refl fits inside words) [
          | inl full ↦ rw full ready.kept
          | inr (packet1, i, e, ready1) ↦
              let q : Packet = set_total_bytes packet1 i bytes in
              let len : length q.buffer ≡ length buffer = ap length ready1.kept.same_buffer in
              elim (read16-Found q (p + 2) (omega (arith, ready.spare))) [
                | found protocol at ↦
                    rw (e, leb-true (p + header) limit (omega arith), at)
                      (by_proto-Returns q protocol (IsReady-weaken buffer limit ready1))
              ]
        ]

    pub parse_gre-Returns :
        {p : ℕ} (packet : Packet) (bytes : ℕ)
        → IsReady buffer limit n p packet
        → p + bytes ≤ limit
        → Returns buffer limit (parse_gre layer4 packet p bytes limit)
    unfolding parse_gre
    parse_gre-Returns {p} packet bytes ready inside =
        let len : length packet.buffer ≡ length buffer = ap length ready.kept.same_buffer in
        elim (Bool-cases (ltb bytes 4)) [
          | inl short ↦ rw short ready.kept
          | inr long ↦ elim (byte-Found packet p (ground (arith, ready.spare))) [
            | found flags at ↦ elim (byte-Found packet (p + 1) (ground (arith, ready.spare))) [
              | found version at_version ↦
                  rw (long, at, at_version)
                    (elim (Bool-cases (version % 8 == 0)) [
                      | inr other ↦ rw other ready.kept
                      | inl zero_version ↦ elim (Bool-cases (gre_bit flags 6)) [
                        | inl routing ↦ rw (zero_version, routing) ready.kept
                        | inr no_routing ↦ elim (Bool-cases (ltb (gre_len flags) 4)) [
                          | inl below ↦ rw (zero_version, no_routing, below) ready.kept
                          | inr above ↦ elim (Bool-cases (ltb bytes (gre_len flags))) [
                            | inl big ↦ rw (zero_version, no_routing, above, big) ready.kept
                            | inr fits ↦
                                rw
                                  (
                                    zero_version,
                                    no_routing,
                                    above,
                                    fits,
                                    leb-true (p + bytes) limit inside,
                                  )
                                  (gre_inside packet bytes (gre_len flags) ready inside
                                    (ground arith) (gre_len_words flags) (ground arith))
                          ]
                        ]
                      ]
                    ])
            ]
          ]
        ]
