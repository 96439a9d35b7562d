-- ===== src/Verify/Fields.antt =====
-- A chain of checks passes exactly if every check of it does.
use packetdrill.Base.{ℕ, ◌≡◌, ◌↔◌, refl, Bool, true, false, arith, if◌then◌else◌}
use packetdrill.Verify.{Field, Verdict, ok, mismatch, ecn_not_ect, ◌>>>◌, check_field}

infixr 4 ◌and◌
abbrev pub ◌and◌ : Type 0 → Type 0 → Type 0
P and Q = P × Q

-- `P` where the test holds, and `Q` where it does not.
abbrev pub Either : Bool → Type 0 → Type 0 → Type 0
Either c P Q = (c ≡ true → P) × (c ≡ false → Q)

pub check_field_iff :
    (name : Field) (expected actual : ℕ)
    → (check_field name expected actual ≡ ok) ↔ (actual ≡ expected)
unfolding check_field
check_field_iff name expected actual = ground arith

pub then_iff :
    (a b : Verdict) {P Q : Type 0} → ((a ≡ ok) ↔ P) → ((b ≡ ok) ↔ Q) → ((a >>> b) ≡ ok) ↔ (P and Q)
then_iff ok b p q = (λ e. (p.0 refl, q.0 e), λ (x, y). q.1 y)
then_iff (mismatch f e a) b p q = (λ h. cc h, λ (x, y). absurd (cc (p.1 x)))
then_iff (ecn_not_ect a) b p q = (λ h. cc h, λ (x, y). absurd (cc (p.1 x)))

pub ok_iff : (ok ≡ ok) ↔ Unit {0}
ok_iff = (λ e. tt, λ u. refl)

-- A test decides which of two checks is made.
pub if_iff :
    (c : Bool) (a b : Verdict) {P Q : Type 0}
    → ((a ≡ ok) ↔ P)
    → ((b ≡ ok) ↔ Q)
    → ((if c then a else b) ≡ ok) ↔ Either c P Q
if_iff true a b p q = (λ e. (λ t. p.0 e, λ f. absurd (cc f)), λ (x, y). p.1 (x refl))
if_iff false a b p q = (λ e. (λ t. absurd (cc t), λ f. q.0 e), λ (x, y). q.1 (y refl))
