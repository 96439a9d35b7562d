-- ===== src/Verify/Labels.antt =====
-- What it means that `verify_mpls` passes a label stack.
use packetdrill.Base.{
  ℕ, zero, suc, ◌*◌, ◌/◌, ◌≤◌, ◌≡◌, ◌↔◌, refl, Bool, true, ◌&&◌, List, [], ◌∷◌, arith, length, take,
  Bool-cases, inl, inr, ◌==◌, if◌then◌else◌,
}
use packetdrill.Verify.Layers.{LayerVerdict, ok, mpls_label, mpls_entries, verify_mpls}

take-step :
    (n a b c d : ℕ) (xs : List ℕ)
    → take (suc n * 4) (a ∷ b ∷ c ∷ d ∷ xs) ≡ a ∷ b ∷ c ∷ d ∷ take (n * 4) xs
take-step n a b c d xs =
    let four : suc n * 4 ≡ suc (suc (suc (suc (n * 4)))) = omega arith in rw four refl

same_entry : ℕ → ℕ → ℕ → ℕ → ℕ → ℕ → ℕ → ℕ → Bool
same_entry a b c d a' b' c' d' = (a == a') && ((b == b') && ((c == c') && (d == d')))

same_entry_iff :
    (a b c d a' b' c' d' : ℕ)
    → (same_entry a b c d a' b' c' d' ≡ true) ↔ ((a ≡ a') × (b ≡ b') × (c ≡ c') × (d ≡ d'))
unfolding same_entry
same_entry_iff a b c d a' b' c' d' = ground arith

cons_inj :
    (a b c d a' b' c' d' : ℕ) (xs ys : List ℕ)
    → (a ∷ b ∷ c ∷ d ∷ xs) ≡ (a' ∷ b' ∷ c' ∷ d' ∷ ys)
    → ((a ≡ a') × (b ≡ b') × (c ≡ c') × (d ≡ d')) × (xs ≡ ys)
cons_inj a b c d a' b' c' d' xs ys e = ((cc e, cc e, cc e, cc e), cc e)

entry_iff :
    (i a b c d a' b' c' d' : ℕ) (xs ys : List ℕ) (rest : LayerVerdict)
    → (rest ≡ ok) ↔ (xs ≡ ys)
    → ((if same_entry a b c d a' b' c' d' then rest else mpls_label i) ≡ ok)
      ↔ ((a ∷ b ∷ c ∷ d ∷ xs) ≡ (a' ∷ b' ∷ c' ∷ d' ∷ ys))
entry_iff i a b c d a' b' c' d' xs ys rest h = elim (Bool-cases (same_entry a b c d a' b' c' d')) [
  | inl t ↦
      let (ea, eb, ec, ed) = (same_entry_iff a b c d a' b' c' d').0 t in
      rw t (λ e. rw (ea, eb, ec, ed, h.0 e) refl, λ e. h.1 (cons_inj a b c d a' b' c' d' xs ys e).1)
  | inr f ↦ rw f (
    λ e. absurd (cc e),
    λ e.
        absurd
          (cc (f, (same_entry_iff a b c d a' b' c' d').1 (cons_inj a b c d a' b' c' d' xs ys e).0)),
  )
]

mpls_entries_iff :
    (n i : ℕ) (actual script : List ℕ)
    → n * 4 ≤ length actual
    → n * 4 ≤ length script
    → (mpls_entries n i actual script ≡ ok) ↔ (take (n * 4) actual ≡ take (n * 4) script)
unfolding mpls_entries same_entry
mpls_entries_iff zero i actual script ha hs = (λ e. refl, λ e. refl)
mpls_entries_iff (suc n) i [] script ha hs = absurd (omega arith)
mpls_entries_iff (suc n) i (a ∷ []) script ha hs = absurd (omega arith)
mpls_entries_iff (suc n) i (a ∷ b ∷ []) script ha hs = absurd (omega arith)
mpls_entries_iff (suc n) i (a ∷ b ∷ c ∷ []) script ha hs = absurd (omega arith)
mpls_entries_iff (suc n) i (a ∷ b ∷ c ∷ d ∷ actual) [] ha hs = absurd (omega arith)
mpls_entries_iff (suc n) i (a ∷ b ∷ c ∷ d ∷ actual) (a' ∷ []) ha hs = absurd (omega arith)
mpls_entries_iff (suc n) i (a ∷ b ∷ c ∷ d ∷ actual) (a' ∷ b' ∷ []) ha hs = absurd (omega arith)
mpls_entries_iff (suc n) i (a ∷ b ∷ c ∷ d ∷ actual) (a' ∷ b' ∷ c' ∷ []) ha hs = absurd (omega arith)
mpls_entries_iff (suc n) i (a ∷ b ∷ c ∷ d ∷ actual) (a' ∷ b' ∷ c' ∷ d' ∷ script) ha hs =
    rw (take-step n a b c d actual, take-step n a' b' c' d' script)
      (entry_iff i a b c d a' b' c' d' (take (n * 4) actual) (take (n * 4) script)
        (mpls_entries n (suc i) actual script)
        (mpls_entries_iff n (suc i) actual script (omega arith) (omega arith)))

-- If both memories hold the label stacks, of whole entries, `verify_mpls` passes exactly the stacks
-- of the script's depth with the script's bytes.
pub verify_mpls_iff :
    (actual_bytes script_entries : ℕ) (actual script : List ℕ)
    → actual_bytes ≤ length actual
    → script_entries * 4 ≤ length script
    → (verify_mpls actual_bytes (script_entries * 4) actual script ≡ ok) ↔ (
        (actual_bytes ≡ script_entries * 4)
        × (take (script_entries * 4) actual ≡ take (script_entries * 4) script))
unfolding verify_mpls
verify_mpls_iff actual_bytes script_entries actual script ha hs =
    let entries : script_entries * 4 / 4 ≡ script_entries = omega arith in
    elim (Bool-cases (script_entries * 4 == actual_bytes)) [
      | inl same ↦
          let equal : actual_bytes ≡ script_entries * 4 = ground arith in
          let h : (mpls_entries script_entries 0 actual script ≡ ok)
              ↔ (take (script_entries * 4) actual ≡ take (script_entries * 4) script) =
            mpls_entries_iff script_entries 0 actual script (omega arith) hs in
          rw (same, entries) (λ e. (equal, h.0 e), λ (x, y). h.1 y)
      | inr other ↦ rw other (λ e. absurd (cc e), λ (x, y). absurd (ground (arith, other, x)))
    ]
