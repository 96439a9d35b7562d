-- ===== src/Tests/Checksums.antt =====
-- The checksums on concrete blocks.
use packetdrill.Base.{ℕ, ◌-◌, ◌%◌, ◌<◌, ◌≡◌, refl, List, [], ◌∷◌, arith, get_or}
use packetdrill.Checksum.{
  ip_checksum_partial, ip_checksum_fold, ipv4_checksum, tcp_udp_v4_checksum,
  tcp_udp_v4_header_checksum_partial,
}
use packetdrill.Checksum.Crc.{crc_c, shift_bits, crc_c-eq-shift_bits}
use packetdrill.Checksum.Fold.{ip_checksum_fold_lem}
use packetdrill.Checksum.Verify.{ipv4_checksum_verifies, tcp_udp_v4_checksum_verifies}

abbrev before_check : List ℕ
before_check = 69 ∷ 0 ∷ 0 ∷ 28 ∷ 0 ∷ 0 ∷ 0 ∷ 0 ∷ 64 ∷ 17 ∷ []

abbrev addresses : List ℕ
addresses = 192 ∷ 168 ∷ 0 ∷ 1 ∷ 192 ∷ 168 ∷ 0 ∷ 2 ∷ []

header_checksum :
    ipv4_checksum (69 ∷ 0 ∷ 0 ∷ 28 ∷ 0 ∷ 0 ∷ 0 ∷ 0 ∷ 64 ∷ 17 ∷ 0 ∷ 0 ∷ addresses) 20 ≡ 32249
unfolding ipv4_checksum ip_checksum_fold ip_checksum_partial
header_checksum = refl

ipv4_checksum_verifies_example :
    ipv4_checksum (69 ∷ 0 ∷ 0 ∷ 28 ∷ 0 ∷ 0 ∷ 0 ∷ 0 ∷ 64 ∷ 17 ∷ 249 ∷ 125 ∷ addresses) 20 ≡ 0
ipv4_checksum_verifies_example =
    ipv4_checksum_verifies before_check addresses 20 32249 refl (omega arith) (omega arith) refl
      (omega arith) header_checksum

-- A UDP segment of eight bytes with its checksum field at offset 2.
segment_checksum :
    tcp_udp_v4_checksum
      (192 ∷ 168 ∷ 0 ∷ 1 ∷ [])
      (192 ∷ 168 ∷ 0 ∷ 2 ∷ [])
      17
      (1 ∷ 2 ∷ 0 ∷ 0 ∷ 5 ∷ 6 ∷ 7 ∷ 8 ∷ [])
      8
    ≡ 33393
unfolding tcp_udp_v4_checksum tcp_udp_v4_header_checksum_partial ip_checksum_fold
    ip_checksum_partial
segment_checksum = refl

tcp_udp_v4_checksum_verifies_example :
    tcp_udp_v4_checksum
      (192 ∷ 168 ∷ 0 ∷ 1 ∷ [])
      (192 ∷ 168 ∷ 0 ∷ 2 ∷ [])
      17
      (1 ∷ 2 ∷ 113 ∷ 130 ∷ 5 ∷ 6 ∷ 7 ∷ 8 ∷ [])
      8
    ≡ 0
tcp_udp_v4_checksum_verifies_example =
    tcp_udp_v4_checksum_verifies (192 ∷ 168 ∷ 0 ∷ 1 ∷ []) (192 ∷ 168 ∷ 0 ∷ 2 ∷ []) 17 (1 ∷ 2 ∷ [])
      (5 ∷ 6 ∷ 7 ∷ 8 ∷ []) 8 33393 refl refl (omega arith) (omega arith) (omega arith) refl
      (omega arith) (omega arith) refl (omega arith) segment_checksum

ip_checksum_fold_lem_example :
    (t : ℕ) × (ip_checksum_fold 0x1_2345_6789 ≡ 65535 - t)
    × (t < 65536)
    × (t % 65535 ≡ 0x1_2345_6789 % 65535)
    × (0 < 0x1_2345_6789 → 0 < t)
    × (0 < t → 0 < 0x1_2345_6789)
ip_checksum_fold_lem_example = ip_checksum_fold_lem 0x1_2345_6789

crc_c-eq-shift_bits_example : get_or crc_c 200 0 ≡ shift_bits 8 200
crc_c-eq-shift_bits_example = crc_c-eq-shift_bits 200 (omega arith)
