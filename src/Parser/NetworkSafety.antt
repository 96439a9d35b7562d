-- ===== src/Parser/NetworkSafety.antt =====
-- The functions below the transport layer return, if `parse_layer4` does for packets with one more
-- header.
use packetdrill.Base.{
  ℕ, suc, ◌+◌, ◌-◌, ◌*◌, ◌/◌, ◌%◌, ◌≤◌, ◌≡◌, refl, Bool, List, arith, length, ltb, ◌==◌, drop,
  bit_and, Bool-cases, inl, inr, ap,
}
use packetdrill.Checksum.{ipv4_checksum}
use packetdrill.Packet.{Packet, HeaderType, set_total_bytes}
use packetdrill.Parser.Outcome.{Outcome, done, fault, stuck}
use packetdrill.Parser.Rules.{
  IsReady, Returns, append-cases, found, byte-Found, read16-Found, leb-true,
}
use packetdrill.Parser.Network.{
  Layer4, finish, finish_ipv4, finish_ipv6, layer4_is_inner, ipv4_payload, ipv4_checks, parse_ipv4,
  parse_ipv6, parse_layer3_packet,
}

abbrev pub Good : List ℕ → ℕ → ℕ → Layer4 → Type 0
Good buffer limit n layer4 =
    (packet : Packet) (p protocol bytes : ℕ)
    → IsReady buffer limit n p packet
    → p + bytes ≤ limit
    → Returns buffer limit (layer4 packet p protocol bytes limit)

module _ (buffer : List ℕ) (limit : ℕ) where
  finish_ipv4-Returns :
      (inner outer : Bool) (p total : ℕ) (o : Outcome)
      → Returns buffer limit o
      → Returns buffer limit (finish (finish_ipv4 inner outer p total) o)
  finish_ipv4-Returns inner outer p total (done r q) k = record {
    same_buffer = k.same_buffer;
    slots = k.slots;
    layout = k.layout;
  }
  finish_ipv4-Returns inner outer p total fault k = k
  finish_ipv4-Returns inner outer p total stuck k = k

  finish_ipv6-Returns :
      (inner outer : Bool) (p total : ℕ) (o : Outcome)
      → Returns buffer limit o
      → Returns buffer limit (finish (finish_ipv6 inner outer p total) o)
  finish_ipv6-Returns inner outer p total (done r q) k = record {
    same_buffer = k.same_buffer;
    slots = k.slots;
    layout = k.layout;
  }
  finish_ipv6-Returns inner outer p total fault k = k
  finish_ipv6-Returns inner outer p total stuck k = k

  pub IsReady-weaken :
      {n p : ℕ} {packet : Packet}
      → IsReady buffer limit (suc n) p packet
      → IsReady buffer limit n p packet
  IsReady-weaken r = record {
    kept = r.kept;
    at_end = r.at_end;
    bytes_before = r.bytes_before;
    aligned = r.aligned;
    enough = omega (arith, r.enough);
    at_most = r.at_most;
    inside = r.inside;
    spare = r.spare;
    allocated = r.allocated;
    bytes = r.bytes;
  }

  module _ {n : ℕ} (layer4 : Layer4) (good : Good buffer limit (suc n) layer4) where
    -- What follows the tests of the IPv4 header.
    ipv4_inside :
        {p : ℕ} (packet : Packet) (header total : ℕ)
        → IsReady buffer limit n p packet
        → 20 ≤ header
        → header % 4 ≡ 0
        → header ≤ total
        → p + total ≤ limit
        → Returns buffer limit (ipv4_payload layer4 packet p header total limit)
    unfolding ipv4_payload
    ipv4_inside {p} packet header total ready min_size words fits inside =
        elim (append-cases buffer limit HeaderType.ipv4 header total ready refl fits inside words) [
          | inl full ↦ rw full ready.kept
          | inr (packet1, i, e, ready1) ↦
              let q : Packet = set_total_bytes packet1 i total in
              let len : length q.buffer ≡ length buffer = ap length ready1.kept.same_buffer in
              elim (byte-Found q (p + 9) (omega (arith, ready.spare))) [
                | found protocol at ↦
                    rw (e, leb-true (p + header) limit (omega arith), at)
                      (finish_ipv4-Returns (layer4_is_inner protocol) (packet.ip_bytes == 0) p total
                        _ (good q (p + header) protocol (total - header) ready1 (omega arith)))
              ]
        ]

    -- The tests behind the reads of the total length.
    ipv4_tail :
        {p : ℕ} (packet : Packet) (header total : ℕ)
        → IsReady buffer limit n p packet
        → 20 ≤ header
        → header % 4 ≡ 0
        → p + header ≤ limit
        → Returns buffer limit (ipv4_checks layer4 packet p header total limit)
    unfolding ipv4_checks
    ipv4_tail {p} packet header total ready min_size words header_fits =
        let len : length packet.buffer ≡ length buffer = ap length ready.kept.same_buffer in
        elim (Bool-cases (ltb limit (p + total))) [
          | inl over ↦ rw over ready.kept
          | inr inside ↦ elim (Bool-cases (ltb total header)) [
            | inl big ↦ rw (inside, big) ready.kept
            | inr fits ↦ elim (read16-Found packet (p + 6) (omega (arith, ready.spare))) [
              | found frag at ↦ elim (Bool-cases (bit_and frag 0x2000 == 0)) [
                | inr more ↦ rw (inside, fits, at, more) ready.kept
                | inl last ↦ elim (Bool-cases (bit_and frag 0x1fff == 0)) [
                  | inr offset ↦ rw (inside, fits, at, last, offset) ready.kept
                  | inl whole ↦
                      rw
                        (
                          inside,
                          fits,
                          at,
                          last,
                          whole,
                          ready.aligned,
                          leb-true (p + header) (length packet.buffer) (omega (arith, ready.spare)),
                        )
                        (elim (Bool-cases (ipv4_checksum (drop p packet.buffer) header == 0)) [
                          | inr wrong ↦ rw wrong ready.kept
                          | inl right ↦ rw right (
                              ipv4_inside packet header total ready min_size words (ground arith)
                                (ground arith))
                        ])
                ]
              ]
            ]
          ]
        ]

    pub parse_ipv4-Returns :
        {p : ℕ} (packet : Packet)
        → IsReady buffer limit n p packet
        → Returns buffer limit (parse_ipv4 layer4 packet p limit)
    unfolding parse_ipv4
    parse_ipv4-Returns {p} packet ready =
        let len : length packet.buffer ≡ length buffer = ap length ready.kept.same_buffer in
        elim (byte-Found packet p (omega (arith, ready.spare, ready.inside))) [
          | found v at ↦ rw at (elim (Bool-cases (ltb (v % 16 * 4) 20)) [
            | inl short ↦ rw short ready.kept
            | inr long ↦ elim (Bool-cases (ltb limit (p + v % 16 * 4))) [
              | inl over ↦ rw (long, over) ready.kept
              | inr fits ↦ elim (read16-Found packet (p + 2) (ground (arith, ready.spare))) [
                | found total at_total ↦
                    rw (long, fits, at_total)
                      (ipv4_tail packet (v % 16 * 4) total ready (ground arith) (omega arith)
                        (ground arith))
              ]
            ]
          ])
        ]

    pub parse_ipv6-Returns :
        {p : ℕ} (packet : Packet)
        → IsReady buffer limit n p packet
        → Returns buffer limit (parse_ipv6 layer4 packet p limit)
    unfolding parse_ipv6
    parse_ipv6-Returns {p} packet ready =
        let len : length packet.buffer ≡ length buffer = ap length ready.kept.same_buffer in
        elim (Bool-cases (ltb limit (p + 40))) [
          | inl over ↦ rw over ready.kept
          | inr header_fits ↦ elim (read16-Found packet (p + 4) (ground (arith, ready.spare))) [
            | found payload at ↦ elim (Bool-cases (ltb limit (p + (40 + payload)))) [
              | inl long ↦ rw (header_fits, at, long) ready.kept
              | inr inside ↦
                  rw (header_fits, at, inside, leb-true 40 (40 + payload) (omega arith))
                    (elim (append-cases buffer limit HeaderType.ipv6 40 (40 + payload) ready refl
                      (omega arith) (ground arith) refl) [
                        | inl full ↦ rw full ready.kept
                        | inr (packet1, i, e, ready1) ↦
                            let q : Packet = set_total_bytes packet1 i (40 + payload) in
                            let len1 : length q.buffer ≡ length buffer =
                              ap length ready1.kept.same_buffer in
                            elim (byte-Found q (p + 6) (ground (arith, ready.spare))) [
                              | found protocol at_protocol ↦
                                  rw (e, leb-true (p + 40) limit (ground arith), at_protocol)
                                    (finish_ipv6-Returns (layer4_is_inner protocol)
                                      (packet.ip_bytes == 0) p (40 + payload) _
                                      (good q (p + 40) protocol (40 + payload - 40) ready1
                                        (ground arith)))
                            ]
                      ])
            ]
          ]
        ]

    pub parse_layer3_packet-Returns :
        {p : ℕ} (packet : Packet)
        → IsReady buffer limit n p packet
        → Returns buffer limit (parse_layer3_packet layer4 packet p limit)
    unfolding parse_layer3_packet
    parse_layer3_packet-Returns {p} packet ready =
        let len : length packet.buffer ≡ length buffer = ap length ready.kept.same_buffer in
        elim (Bool-cases (ltb limit (p + 20))) [
          | inl over ↦ rw over ready.kept
          | inr fits ↦ elim (byte-Found packet p (ground (arith, ready.spare))) [
            | found v at ↦
                rw (fits, at)
                  (elim (Bool-cases (v / 16 == 4)) [
                    | inl v4 ↦ rw v4 (parse_ipv4-Returns packet ready)
                    | inr not_v4 ↦ elim (Bool-cases (v / 16 == 6)) [
                      | inl v6 ↦ rw (not_v4, v6) (parse_ipv6-Returns packet ready)
                      | inr other ↦ rw (not_v4, other) ready.kept
                    ]
                  ])
          ]
        ]
