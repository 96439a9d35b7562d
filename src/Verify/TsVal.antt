-- ===== src/Verify/TsVal.antt =====
-- Timestamp values in the bytes of TCP options: what is read and written, and which are close.
use packetdrill.Base.{
  ℕ, zero, suc, ◌+◌, ◌-◌, ◌*◌, ◌/◌, ◌%◌, ◌^◌, min, ◌≤◌, ◌<◌, ◌≡◌, ◌↔◌, ◌⊎◌, refl, sym, List, [],
  ◌∷◌, some, length, take, drop, memcpy, be32, be32_bytes, u32, arith, All, IsByte, ◌==◌,
  if◌then◌else◌, ltb, leb,
}
use packetdrill.Verify.Options.{ok, bad_ts_val, overflow, packet_tcp_ts_val, abs, check_ts_val}

-- The lists agree but for the four bytes from `v` on.
abbrev pub AgreeOutside : ℕ → List ℕ → List ℕ → Type 0
AgreeOutside v xs ys = (take v xs ≡ take v ys) × (drop 4 (drop v xs) ≡ drop 4 (drop v ys))

memcpy_nil : (xs : List ℕ) → memcpy xs 0 [] ≡ xs
memcpy_nil [] = refl
memcpy_nil (x ∷ xs) = refl

four_first :
    (ys xs : List ℕ) (a b c d : ℕ)
    → take 4 ys ≡ a ∷ b ∷ c ∷ d ∷ []
    → xs ≡ drop 4 ys
    → (a ∷ b ∷ c ∷ d ∷ memcpy xs 0 []) ≡ ys
four_first (y ∷ y' ∷ y'' ∷ y''' ∷ ys) xs a b c d w q = cc (w, q, memcpy_nil xs)
four_first ys xs a b c d w q = absurd (cc w)

-- Four bytes written over a list make it another one that has them and agrees with it elsewhere.
pub memcpy_iff :
    (v : ℕ) (xs ys : List ℕ) (a b c d : ℕ)
    → v + 4 ≤ length xs
    → (memcpy xs v (a ∷ b ∷ c ∷ d ∷ []) ≡ ys)
      ↔ ((take 4 (drop v ys) ≡ a ∷ b ∷ c ∷ d ∷ []) × AgreeOutside v xs ys)
memcpy_iff zero (x ∷ x' ∷ x'' ∷ x''' ∷ xs) ys a b c d h =
    (λ e. rw⁻¹ e (refl, (refl, sym (memcpy_nil xs))), λ (w, (p, q)). four_first ys xs a b c d w q)
memcpy_iff (suc v) (x ∷ xs) [] a b c d h = (λ e. absurd (cc e), λ (w, (p, q)). absurd (cc w))
memcpy_iff (suc v) (x ∷ xs) (y ∷ ys) a b c d h =
    let (f, g) = memcpy_iff v xs ys a b c d (omega arith) in
    (
      λ e. let (w, (p, q)) = f (cc e) in (w, (cc (e, p), q)),
      λ (w, (p, q)). cc (g (w, (cc p, q)), p),
    )
memcpy_iff v xs ys a b c d h = absurd (omega arith)

bytes_of_be32 :
    (a b c d : ℕ)
    → IsByte a
    → IsByte b
    → IsByte c
    → IsByte d
    → (a ∷ b ∷ c ∷ d ∷ []) ≡ be32_bytes (be32 a b c d)
bytes_of_be32 a b c d ha hb hc hd =
    let ea : be32 a b c d / 2 ^ 24 % 256 ≡ a = omega arith in
    let eb : be32 a b c d / 2 ^ 16 % 256 ≡ b = omega arith in
    let ec : be32 a b c d / 2 ^ 8 % 256 ≡ c = omega arith in
    let ed : be32 a b c d % 256 ≡ d = omega arith in rw (ea, eb, ec, ed) refl

-- The four bytes at `v` are the timestamp value that is read there.
abbrev pub Holds : List ℕ → ℕ → ℕ → Type 0
Holds options v n =
    (packet_tcp_ts_val options v ≡ some n) × (take 4 (drop v options) ≡ be32_bytes n) × (n < 2 ^ 32)

pub read_ts_val :
    (options : List ℕ) (v : ℕ)
    → v + 4 ≤ length options
    → All IsByte options
    → (n : ℕ) × Holds options v n
unfolding packet_tcp_ts_val
read_ts_val (a ∷ b ∷ c ∷ d ∷ rest) zero h (ha, (hb, (hc, (hd, hs)))) =
    (be32 a b c d, (refl, bytes_of_be32 a b c d ha hb hc hd, omega arith))
read_ts_val (b ∷ bs) (suc v) h (hb, hs) = read_ts_val bs v (omega arith) hs
read_ts_val few v h hs = absurd (omega arith)

-- The values are at most the tolerance apart, counted in ticks around the circle of the 32-bit
-- words, unless the ticks have length zero.
pub IsClose : ℕ → ℕ → ℕ → ℕ → Type 0
IsClose tick_usecs tolerance_usecs s a =
    (tick_usecs ≡ 0)
    ⊎ (min (u32 (a + 2 ^ 32 - s)) (u32 (s + 2 ^ 32 - a)) * tick_usecs ≤ tolerance_usecs)

verdict_iff :
    (deviation tick_usecs tolerance_usecs : ℕ)
    → tolerance_usecs < 2 ^ 31
    → ((if tick_usecs == 0
          then ok
          else (if leb (2 ^ 31) deviation
              then overflow
              else (if ltb tolerance_usecs deviation then bad_ts_val else ok)))
        ≡ ok)
      ↔ ((tick_usecs ≡ 0) ⊎ (deviation ≤ tolerance_usecs))
verdict_iff deviation tick_usecs tolerance_usecs ht = ground arith

pub check_ts_val_iff :
    (tick_usecs tolerance_usecs s a : ℕ)
    → tolerance_usecs < 2 ^ 31
    → s < 2 ^ 32
    → a < 2 ^ 32
    → (check_ts_val tick_usecs tolerance_usecs s a ≡ ok) ↔ IsClose tick_usecs tolerance_usecs s a
unfolding check_ts_val IsClose
check_ts_val_iff tick_usecs tolerance_usecs s a ht hs ha =
    let same : abs (u32 (a + 2 ^ 32 - s)) ≡ min (u32 (a + 2 ^ 32 - s)) (u32 (s + 2 ^ 32 - a)) =
      ground arith in
    rw same (
      verdict_iff (min (u32 (a + 2 ^ 32 - s)) (u32 (s + 2 ^ 32 - a)) * tick_usecs) tick_usecs
        tolerance_usecs ht)
