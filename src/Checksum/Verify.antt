-- ===== src/Checksum/Verify.antt =====
-- The checksum against the sum of 16-bit words of RFC 1071, and a block that carries its own
-- checksum.
use packetdrill.Base.{
  All-append, ℕ, zero, suc, ◌+◌, ◌*◌, ◌/◌, ◌%◌, ◌^◌, ◌≤◌, ◌<◌, ◌≡◌, refl, List, [], ◌∷◌, ◌++◌,
  arith, length, All, IsByte, length-append, take, word32, u8,
}
use packetdrill.Checksum.{
  ip_checksum_partial, ip_checksum_fold, ipv4_checksum, tcp_udp_v4_checksum,
  tcp_udp_v4_header_checksum_partial,
}
use native.Mathlib.Decide.{dec_lt}
use packetdrill.Checksum.Fold.{IsFolded, ip_checksum_fold_lem, fold-eq-zero}

-- The sum of the 16-bit words, an odd last byte padded by zero.
abbrev pub sum16 : List ℕ → ℕ
sum16 [] = 0
sum16 (a ∷ []) = a
sum16 (a ∷ b ∷ rest) = a + b * 256 + sum16 rest

-- On bytes, from a start that leaves room for them in 64 bits, `ip_checksum_partial`, which adds 32
-- bits at a time, is congruent modulo 65535 to the start plus the sum of the 16-bit words, and is
-- positive exactly if that is.
partial-IsFolded :
    (xs : List ℕ) (s : ℕ)
    → All IsByte xs
    → s + 4294967296 * length xs < 2 ^ 64
    → IsFolded (s + sum16 xs) (ip_checksum_partial xs s)
unfolding ip_checksum_partial
partial-IsFolded [] s h fits = omega arith
partial-IsFolded (a ∷ []) s h fits = omega arith
partial-IsFolded (a ∷ b ∷ []) s h fits = omega arith
partial-IsFolded (a ∷ b ∷ c ∷ []) s h fits = omega arith
partial-IsFolded (a ∷ b ∷ c ∷ d ∷ rest) s (ha, (hb, (hc, (hd, hr)))) fits =
    let s' : ℕ = (s + word32 a b c d) % 2 ^ 64 in
    let exact : s' ≡ s + word32 a b c d = omega arith in
    let ih = partial-IsFolded rest s' hr (omega arith) in
    let r = ih.residue in
    let q = ih.positive in
    let n = ih.needed in
    record {
      residue = omega arith;
      positive = λ h. q (omega arith);
      needed = λ h. omega (arith, n h);
    }

abbrev IsEven : List ℕ → Type 0
IsEven xs = length xs % 2 ≡ 0

-- A 16-bit word at an even offset adds its value to the sum.
sum16-append :
    (xs ys : List ℕ) (a b : ℕ)
    → IsEven xs
    → sum16 (xs ++ (a ∷ b ∷ ys)) ≡ sum16 xs + (a + b * 256) + sum16 ys
sum16-append [] ys a b h = omega arith
sum16-append (x ∷ []) ys a b h = absurd (omega arith)
sum16-append (x ∷ y ∷ xs) ys a b h = omega (arith, sum16-append xs ys a b (omega arith))

take_all : (n : ℕ) (xs : List ℕ) → n ≡ length xs → take n xs ≡ xs
take_all zero [] h = refl
take_all (suc n) [] h = refl
take_all zero (x ∷ xs) h = absurd (omega arith)
take_all (suc n) (x ∷ xs) h = rw (take_all n xs (omega arith))

-- The partial sum over `4 k` bytes grows by less than `k * 2^32`.
partial_bound :
    (xs : List ℕ) (s : ℕ)
    → All IsByte xs
    → s + 4294967296 * length xs < 2 ^ 64
    → ip_checksum_partial xs s ≤ s + 4294967296 * length xs
unfolding ip_checksum_partial
partial_bound [] s h fits = omega arith
partial_bound (a ∷ []) s h fits = omega arith
partial_bound (a ∷ b ∷ []) s h fits = omega arith
partial_bound (a ∷ b ∷ c ∷ []) s h fits = omega arith
partial_bound (a ∷ b ∷ c ∷ d ∷ rest) s (ha, (hb, (hc, (hd, hr)))) fits =
    let s' : ℕ = (s + word32 a b c d) % 2 ^ 64 in
    let exact : s' ≡ s + word32 a b c d = omega arith in
    omega (arith, partial_bound rest s' hr (omega arith))

-- With the checksum of a block in place of a zero field, the checksum is 0.
module _ (s : ℕ) (xs ys : List ℕ) (even : IsEven xs) (bx : All IsByte xs) (by : All IsByte ys)
    (fits : s + 4294967296 * (length xs + length ys + 2) < 2 ^ 64) where
  abbrev pub with_field : ℕ → ℕ → List ℕ
  with_field a b = xs ++ (a ∷ b ∷ ys)

  field_lem :
      (a b : ℕ)
      → IsByte a
      → IsByte b
      → IsFolded (s + sum16 xs + (a + b * 256) + sum16 ys) (ip_checksum_partial (with_field a b) s)
  field_lem a b ha hb =
      let f =
        partial-IsFolded (with_field a b) s (All-append IsByte xs (a ∷ b ∷ ys) bx (ha, (hb, by)))
          (rw length-append (omega arith)) in
      let e = sum16-append xs ys a b even in
      let r = f.residue in
      let q = f.positive in
      let n = f.needed in
      record {
        residue = omega arith;
        positive = λ h. q (omega arith);
        needed = λ h. omega (arith, n h);
      }

  pub checksum_verifies :
      (c : ℕ)
      → ip_checksum_fold (ip_checksum_partial (with_field 0 0) s) ≡ c
      → ip_checksum_fold (ip_checksum_partial (with_field (c % 256) (c / 256)) s) ≡ 0
  checksum_verifies c e =
      let f = field_lem 0 0 (omega arith) (omega arith) in
      let (t, et, bt, rt, pt, nt) = ip_checksum_fold_lem (ip_checksum_partial (with_field 0 0) s) in
      let g = field_lem (c % 256) (c / 256) (omega arith) (omega arith) in
      let gr = g.residue in
      let fr = f.residue in
      let m : ℕ = ip_checksum_partial (with_field (c % 256) (c / 256)) s in
      let total : 0 < s + sum16 xs + (c % 256 + c / 256 * 256) + sum16 ys = elim (dec_lt 0 c) [
        | yes p ↦ omega arith
        | no p ↦ omega (arith, f.needed (nt (omega arith)))
      ] in
      let pos : 0 < m = g.positive total in fold-eq-zero m pos (omega arith)

-- `ipv4_checksum` of a header whose checksum field, at an even offset, holds the checksum of the
-- header with a zero field, is 0: what is sent passes the check of the receiver. The header holds
-- bytes, and is shorter than 2^16 bytes.
pub ipv4_checksum_verifies :
    (xs ys : List ℕ) (n c : ℕ)
    → length xs % 2 ≡ 0
    → All IsByte xs
    → All IsByte ys
    → n ≡ length xs + length ys + 2
    → n < 65536
    → ipv4_checksum (xs ++ (0 ∷ 0 ∷ ys)) n ≡ c
    → ipv4_checksum (xs ++ (c % 256 ∷ c / 256 ∷ ys)) n ≡ 0
unfolding ipv4_checksum
ipv4_checksum_verifies xs ys n c even bx by hn small e =
    rw (take_whole (c % 256) (c / 256))
      (checksum_verifies 0 xs ys even bx by (omega arith) c (rw (take_whole 0 0) at e))
  where
    take_whole : (a b : ℕ) → take n (xs ++ (a ∷ b ∷ ys)) ≡ xs ++ (a ∷ b ∷ ys)
    take_whole a b = take_all n (xs ++ (a ∷ b ∷ ys)) (omega (arith, length-append xs (a ∷ b ∷ ys)))

abbrev v4_fields : ℕ → ℕ → List ℕ
v4_fields protocol n = 0 ∷ protocol ∷ u8 (n / 256) ∷ u8 n ∷ []

v4_header_bound :
    (src_ip dst_ip : List ℕ) (protocol n : ℕ)
    → length src_ip ≡ 4
    → length dst_ip ≡ 4
    → All IsByte src_ip
    → All IsByte dst_ip
    → IsByte protocol
    → tcp_udp_v4_header_checksum_partial src_ip dst_ip protocol n ≤ 4294967296 * 12
unfolding tcp_udp_v4_header_checksum_partial
v4_header_bound src_ip dst_ip protocol n ls ld bs bd bp = omega (
  arith,
  partial_bound (src_ip ++ (dst_ip ++ v4_fields protocol n)) 0
      (All-append IsByte src_ip (dst_ip ++ v4_fields protocol n) bs
        (All-append IsByte dst_ip (v4_fields protocol n) bd (omega arith)))
      (omega (arith, count)),
  count,
)
  where
    count : length (src_ip ++ (dst_ip ++ v4_fields protocol n)) ≡ 12
    count = rw length-append (rw length-append (omega arith))

-- `tcp_udp_v4_checksum` of a segment whose checksum field, at an even offset, holds the checksum of
-- the segment with a zero field, is 0. The segment and the pseudo-header hold bytes, the addresses
-- four each, and the segment is shorter than 2^16 bytes.
pub tcp_udp_v4_checksum_verifies :
    (src_ip dst_ip : List ℕ) (protocol : ℕ) (xs ys : List ℕ) (n c : ℕ)
    → length src_ip ≡ 4
    → length dst_ip ≡ 4
    → All IsByte src_ip
    → All IsByte dst_ip
    → IsByte protocol
    → length xs % 2 ≡ 0
    → All IsByte xs
    → All IsByte ys
    → n ≡ length xs + length ys + 2
    → n < 65536
    → tcp_udp_v4_checksum src_ip dst_ip protocol (xs ++ (0 ∷ 0 ∷ ys)) n ≡ c
    → tcp_udp_v4_checksum src_ip dst_ip protocol (xs ++ (c % 256 ∷ c / 256 ∷ ys)) n ≡ 0
unfolding tcp_udp_v4_checksum
tcp_udp_v4_checksum_verifies src_ip dst_ip protocol xs ys n c ls ld bs bd bp even bx by hn small e =
    rw (take_whole (c % 256) (c / 256)) (
      checksum_verifies (tcp_udp_v4_header_checksum_partial src_ip dst_ip protocol n) xs ys even bx
        by (omega (arith, v4_header_bound src_ip dst_ip protocol n ls ld bs bd bp)) c
        (rw (take_whole 0 0) at e))
  where
    take_whole : (a b : ℕ) → take n (xs ++ (a ∷ b ∷ ys)) ≡ xs ++ (a ∷ b ∷ ys)
    take_whole a b = take_all n (xs ++ (a ∷ b ∷ ys)) (omega (arith, length-append xs (a ∷ b ∷ ys)))
