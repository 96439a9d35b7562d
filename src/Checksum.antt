-- ===== src/Checksum.antt =====
-- The Internet checksum of gtests/net/packetdrill/checksum.c: `ip_checksum_partial`,
-- `ip_checksum_fold` and the checksums over pseudo-headers. Memory is a list of bytes, and the
-- host is little-endian. The assertion on the pointer's alignment is the caller's.
pub mod Crc
pub mod Fold
pub mod Verify
use packetdrill.Base.{
  ℕ, ◌+◌, ◌-◌, ◌*◌, ◌/◌, ◌%◌, ◌^◌, ◌≤◌, ◌<◌, List, [], ◌∷◌, ◌++◌, take, arith, u8, u64, word16,
  word32, lt_wf,
}
use mathlib.Core.Logic.{dite}
use mathlib.Core.WellFounded.{Acc}
use native.Mathlib.Decide.{dec_lt}

-- The list holds the `len` bytes at `p`. `ntohs(*p8 << 8)` is the last byte on this host.
unfoldable pub ip_checksum_partial : List ℕ → ℕ → ℕ
ip_checksum_partial [] sum = sum
ip_checksum_partial (a ∷ []) sum = u64 (sum + a)
ip_checksum_partial (a ∷ b ∷ []) sum = u64 (sum + word16 a b)
ip_checksum_partial (a ∷ b ∷ c ∷ []) sum = u64 (u64 (sum + word16 a b) + c)
ip_checksum_partial (a ∷ b ∷ c ∷ d ∷ rest) sum =
    ip_checksum_partial rest (u64 (sum + word32 a b c d))

pub fold32_shrinks : (s : ℕ) → 0 < s / 2 ^ 32 → s / 2 ^ 32 + s % 2 ^ 32 < s
fold32_shrinks s h = omega arith

-- `while (sum & ~0xffffffffULL)`.
pub fold32 : (s : ℕ) → Acc ◌<◌ s → ℕ
fold32 s (Acc.intro _ smaller) =
    dite (dec_lt 0 (s / 2 ^ 32))
      (λ more. fold32 (s / 2 ^ 32 + s % 2 ^ 32) (smaller _ (fold32_shrinks s more))) (λ _. s)

pub fold16_shrinks : (s : ℕ) → 0 < s / 2 ^ 16 % 2 ^ 16 → s / 2 ^ 16 + s % 2 ^ 16 < s
fold16_shrinks s h = omega arith

-- `while (sum & 0xffff0000ULL)`: bits 16 to 31 are tested.
pub fold16 : (s : ℕ) → Acc ◌<◌ s → ℕ
fold16 s (Acc.intro _ smaller) =
    dite (dec_lt 0 (s / 2 ^ 16 % 2 ^ 16))
      (λ more. fold16 (s / 2 ^ 16 + s % 2 ^ 16) (smaller _ (fold16_shrinks s more))) (λ _. s)

-- The complement is cut to 16 bits by the return type.
unfoldable pub ip_checksum_fold : ℕ → ℕ
unfolding fold32 fold16 lt_wf dec_lt
ip_checksum_fold sum =
    let s = fold32 sum (lt_wf.apply sum) in
    let t = fold16 s (lt_wf.apply s) in 2 ^ 16 - 1 - t % 2 ^ 16

unfoldable pub ipv4_checksum : List ℕ → ℕ → ℕ
ipv4_checksum ip_header ip_header_bytes =
    ip_checksum_fold (ip_checksum_partial (take ip_header_bytes ip_header) 0)

-- The pseudo-header is the source, the destination, a zero byte, the protocol and `htons(len)`.
unfoldable pub tcp_udp_v4_header_checksum_partial : List ℕ → List ℕ → ℕ → ℕ → ℕ
tcp_udp_v4_header_checksum_partial src_ip dst_ip protocol len =
    ip_checksum_partial (src_ip ++ (dst_ip ++ (0 ∷ protocol ∷ u8 (len / 256) ∷ u8 len ∷ []))) 0

unfoldable pub tcp_udp_v4_checksum : List ℕ → List ℕ → ℕ → List ℕ → ℕ → ℕ
tcp_udp_v4_checksum src_ip dst_ip protocol payload len =
    let sum = tcp_udp_v4_header_checksum_partial src_ip dst_ip protocol len in
    ip_checksum_fold (ip_checksum_partial (take len payload) sum)

unfoldable pub udplite_v4_checksum : List ℕ → List ℕ → ℕ → List ℕ → ℕ → ℕ → ℕ
udplite_v4_checksum src_ip dst_ip protocol payload len cov =
    let sum = tcp_udp_v4_header_checksum_partial src_ip dst_ip protocol len in
    ip_checksum_fold (ip_checksum_partial (take cov payload) sum)

-- The length is `htonl(len)`, then three zero bytes and the protocol.
unfoldable pub tcp_udp_v6_header_checksum_partial : List ℕ → List ℕ → ℕ → ℕ → ℕ
tcp_udp_v6_header_checksum_partial src_ip dst_ip protocol len =
    ip_checksum_partial
      (src_ip
        ++ (dst_ip
            ++ (u8 (len / 2 ^ 24)
                ∷ u8 (len / 2 ^ 16)
                ∷ u8 (len / 2 ^ 8)
                ∷ u8 len
                ∷ 0
                ∷ 0
                ∷ 0
                ∷ protocol
                ∷ [])))
      0

unfoldable pub tcp_udp_v6_checksum : List ℕ → List ℕ → ℕ → List ℕ → ℕ → ℕ
tcp_udp_v6_checksum src_ip dst_ip protocol payload len =
    let sum = tcp_udp_v6_header_checksum_partial src_ip dst_ip protocol len in
    ip_checksum_fold (ip_checksum_partial (take len payload) sum)

unfoldable pub udplite_v6_checksum : List ℕ → List ℕ → ℕ → List ℕ → ℕ → ℕ → ℕ
udplite_v6_checksum src_ip dst_ip protocol payload len cov =
    let sum = tcp_udp_v6_header_checksum_partial src_ip dst_ip protocol len in
    ip_checksum_fold (ip_checksum_partial (take cov payload) sum)
