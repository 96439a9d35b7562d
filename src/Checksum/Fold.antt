-- ===== src/Checksum/Fold.antt =====
-- What the folding loops of `ip_checksum_fold` compute, and the round trip of the checksum.
use packetdrill.Base.{ℕ, ◌+◌, ◌-◌, ◌/◌, ◌%◌, ◌^◌, ◌<◌, ◌≡◌, refl, arith, lt_wf, ◌∙◌}
use mathlib.Core.WellFounded.{Acc}
use mathlib.Core.Logic.{dif_pos, dif_neg}
use native.Mathlib.Decide.{dec_lt}
use native.Mathlib.Bridge.{le_prop}
use packetdrill.Checksum.{fold32_shrinks, fold16_shrinks, fold32, fold16, ip_checksum_fold}

-- Folding keeps the residue modulo 65535, and keeps a positive number positive.
pub record IsFolded (s t : ℕ) : Type 0 where
  pub residue : t % 65535 ≡ s % 65535
  pub positive : 0 < s → 0 < t
  pub needed : 0 < t → 0 < s

fold32_step : (s : ℕ) → IsFolded s (s / 2 ^ 32 + s % 2 ^ 32)
fold32_step s = record {
  residue = omega arith;
  positive = λ h. omega arith;
  needed = λ h. omega arith;
}

fold16_step : (s : ℕ) → IsFolded s (s / 2 ^ 16 + s % 2 ^ 16)
fold16_step s = record {
  residue = omega arith;
  positive = λ h. omega arith;
  needed = λ h. omega arith;
}

pub IsFolded-trans : {s t u : ℕ} → IsFolded s t → IsFolded t u → IsFolded s u
IsFolded-trans p q = record {
  residue = q.residue ∙ p.residue;
  positive = λ h. q.positive (p.positive h);
  needed = λ h. p.needed (q.needed h);
}

pub IsFolded-refl : (s : ℕ) → IsFolded s s
IsFolded-refl s = record { residue = refl; positive = λ h. h; needed = λ h. h }

fold32_lem : (s : ℕ) (w : Acc ◌<◌ s) → IsFolded s (fold32 s w) × (fold32 s w < 2 ^ 32)
unfolding fold32
fold32_lem s (Acc.intro _ smaller) = elim (dec_lt 0 (s / 2 ^ 32)) [
  | yes p ↦
      let (i, b) = fold32_lem (s / 2 ^ 32 + s % 2 ^ 32) (smaller _ (fold32_shrinks s p)) in
      rw (dif_pos (dec_lt 0 (s / 2 ^ 32)) le_prop p) (IsFolded-trans (fold32_step s) i, b)
  | no p ↦ rw (dif_neg _ p) (IsFolded-refl s, omega arith)
]

fold16_lem : (s : ℕ) (w : Acc ◌<◌ s) → s < 2 ^ 32 → IsFolded s (fold16 s w) × (fold16 s w < 2 ^ 16)
unfolding fold16
fold16_lem s (Acc.intro _ smaller) h = elim (dec_lt 0 (s / 2 ^ 16 % 2 ^ 16)) [
  | yes p ↦
      let (i, b) =
        fold16_lem (s / 2 ^ 16 + s % 2 ^ 16) (smaller _ (fold16_shrinks s p)) (omega arith) in
      rw (dif_pos (dec_lt 0 (s / 2 ^ 16 % 2 ^ 16)) le_prop p) (IsFolded-trans (fold16_step s) i, b)
  | no p ↦ rw (dif_neg _ p) (IsFolded-refl s, omega arith)
]

-- The folding loops end on every sum, and the result is the complement of a 16-bit number that is
-- congruent to the sum modulo 65535 and positive exactly if the sum is.
pub ip_checksum_fold_lem :
    (sum : ℕ)
    → (t : ℕ) × (ip_checksum_fold sum ≡ 65535 - t)
      × (t < 65536)
      × (t % 65535 ≡ sum % 65535)
      × (0 < sum → 0 < t)
      × (0 < t → 0 < sum)
unfolding ip_checksum_fold
ip_checksum_fold_lem sum =
    let (i, b) = fold32_lem sum (lt_wf.apply sum) in
    let (j, c) =
      fold16_lem (fold32 sum (lt_wf.apply sum)) (lt_wf.apply (fold32 sum (lt_wf.apply sum))) b in
    let k = IsFolded-trans i j in
    (
      fold16 (fold32 sum (lt_wf.apply sum)) (lt_wf.apply (fold32 sum (lt_wf.apply sum))),
      omega arith,
      c,
      k.residue,
      k.positive,
      k.needed,
    )

-- The checksum is 0 for the positive multiples of 65535.
pub fold-eq-zero : (sum : ℕ) → 0 < sum → sum % 65535 ≡ 0 → ip_checksum_fold sum ≡ 0
fold-eq-zero sum pos h = let (t, e, b, r, q, n) = ip_checksum_fold_lem sum in omega (arith, q pos)
