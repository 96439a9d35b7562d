-- ===== src/Parser/FieldRestored.antt =====
-- The four bytes of a field that `parse_sctp` zeroes and writes back are what they were.
use packetdrill.Base.{
  ℕ, zero, suc, ◌+◌, ◌*◌, ◌/◌, ◌%◌, ◌^◌, ◌<◌, ◌≡◌, refl, some, List, [], ◌∷◌, arith, length,
  get_elem?, get_elem?-in_range, memcpy, All, All-get_elem?, IsByte, be32_bytes, ap, subst, ◌∙◌,
}
use packetdrill.Packet.{Packet}
use packetdrill.Parser.Outcome.{read32}

memcpy-memcpy :
    (xs : List ℕ) (i : ℕ) (a b c d a' b' c' d' : ℕ)
    → memcpy (memcpy xs i (a ∷ b ∷ c ∷ d ∷ [])) i (a' ∷ b' ∷ c' ∷ d' ∷ [])
      ≡ memcpy xs i (a' ∷ b' ∷ c' ∷ d' ∷ [])
memcpy-memcpy [] i a b c d a' b' c' d' = refl
memcpy-memcpy (x ∷ []) zero a b c d a' b' c' d' = refl
memcpy-memcpy (x ∷ y ∷ []) zero a b c d a' b' c' d' = refl
memcpy-memcpy (x ∷ y ∷ z ∷ []) zero a b c d a' b' c' d' = refl
memcpy-memcpy (x ∷ y ∷ z ∷ w ∷ []) zero a b c d a' b' c' d' = refl
memcpy-memcpy (x ∷ y ∷ z ∷ w ∷ v ∷ xs) zero a b c d a' b' c' d' = refl
memcpy-memcpy (x ∷ xs) (suc i) a b c d a' b' c' d' =
    ap (λ ys. x ∷ ys) (memcpy-memcpy xs i a b c d a' b' c' d')

-- Writing back the four bytes that stand at an index changes nothing.
memcpy_same :
    (xs : List ℕ) (i a b c d : ℕ)
    → get_elem? xs i ≡ some a
    → get_elem? xs (suc i) ≡ some b
    → get_elem? xs (suc (suc i)) ≡ some c
    → get_elem? xs (suc (suc (suc i))) ≡ some d
    → memcpy xs i (a ∷ b ∷ c ∷ d ∷ []) ≡ xs
memcpy_same [] i a b c d p q r s = cc
memcpy_same (x ∷ []) zero a b c d p q r s = cc
memcpy_same (x ∷ y ∷ []) zero a b c d p q r s = cc
memcpy_same (x ∷ y ∷ z ∷ []) zero a b c d p q r s = cc
memcpy_same (x ∷ y ∷ z ∷ w ∷ []) zero a b c d p q r s = cc
memcpy_same (x ∷ y ∷ z ∷ w ∷ v ∷ xs) zero a b c d p q r s = cc
memcpy_same (x ∷ xs) (suc i) a b c d p q r s = ap (λ ys. x ∷ ys) (memcpy_same xs i a b c d p q r s)

-- The field of four bytes, and that zeroing and restoring it changes nothing.
pub data Field (packet : Packet) (i : ℕ) : Type 0 where
  field :
      (v : ℕ)
      → read32 packet i ≡ some v
      → memcpy (memcpy packet.buffer i (be32_bytes 0)) i (be32_bytes v) ≡ packet.buffer
      → Field packet i

pub read32-Field :
    (packet : Packet) (i : ℕ)
    → All IsByte packet.buffer
    → i + 3 < length packet.buffer
    → Field packet i
read32-Field packet i bytes h =
    let xs : List ℕ = packet.buffer in
    let (a, p) = get_elem?-in_range xs i (omega arith) in
    let (b, q) = get_elem?-in_range xs (i + 1) (omega arith) in
    let (c, r) = get_elem?-in_range xs (i + 2) (omega arith) in
    let (d, s) = get_elem?-in_range xs (i + 2 + 1) (omega arith) in
    field ((a * 256 + b) * 65536 + (c * 256 + d)) (rw (p, q, r, s) refl)
      (restored packet.buffer i a b c d bytes p q r s)
  where
    restored :
        (xs : List ℕ) (i a b c d : ℕ)
        → All IsByte xs
        → get_elem? xs i ≡ some a
        → get_elem? xs (i + 1) ≡ some b
        → get_elem? xs (i + 2) ≡ some c
        → get_elem? xs (i + 2 + 1) ≡ some d
        → memcpy (memcpy xs i (be32_bytes 0)) i (be32_bytes ((a * 256 + b) * 65536 + (c * 256 + d)))
          ≡ xs
    restored xs i a b c d bytes p q r s =
        let ha = All-get_elem? IsByte xs i a bytes p in
        let hb = All-get_elem? IsByte xs (i + 1) b bytes q in
        let hc = All-get_elem? IsByte xs (i + 2) c bytes r in
        let hd = All-get_elem? IsByte xs (i + 2 + 1) d bytes s in
        let v : ℕ = (a * 256 + b) * 65536 + (c * 256 + d) in
        memcpy-memcpy xs i 0 0 0 0 (v / 2 ^ 24 % 256) (v / 2 ^ 16 % 256) (v / 2 ^ 8 % 256) (v % 256)
        ∙ memcpy_same xs i (v / 2 ^ 24 % 256) (v / 2 ^ 16 % 256) (v / 2 ^ 8 % 256) (v % 256)
            (p ∙ ap some (omega arith)) (at (i + 1) (suc i) (omega arith) q (omega arith))
            (at (i + 2) (suc (suc i)) (omega arith) r (omega arith))
            (at (i + 2 + 1) (suc (suc (suc i))) (omega arith) s (omega arith))
      where
        at : (j k : ℕ) {x y : ℕ} → j ≡ k → get_elem? xs j ≡ some x → x ≡ y → get_elem? xs k ≡ some y
        at j k {y = y} e f g = subst (λ m. get_elem? xs m ≡ some y) e (f ∙ ap some g)
