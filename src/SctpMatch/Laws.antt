-- ===== src/SctpMatch/Laws.antt =====
-- When a comparison of SCTP chunks passes: a field, a chain, a loop and a block of bytes.
use packetdrill.Base.{
  ℕ, zero, suc, ◌+◌, ◌≤◌, ◌<◌, ◌==◌, ◌≡◌, ◌↔◌, refl, subst, Bool, true, false, List, [], ◌∷◌,
  Option, none, some, arith, Bool-cases, inl, inr, if◌then◌else◌,
}
use packetdrill.SctpMatch.Compare.{
  with_field, Place, Width, bits8, Name, Message, CheckResult, passed, differs, rejected,
  assertion_failed, bad_read, ◌>>>◌, load, check_chunk_field, compare_field, unless, assert,
  for_each, bytes_from, same_bytes, compare_bytes, byte_at, prepend,
}

-- The two fields lie in the memory and have the same value.
abbrev pub SameField : Width → Place → ℕ → Place → ℕ → Type 0
SameField w script i actual j = (v : ℕ) × (load w script i ≡ some v) × (load w actual j ≡ some v)

infixr 4 ◌and◌
abbrev pub ◌and◌ : Type 0 → Type 0 → Type 0
P and Q = P × Q

pub check_field_iff :
    (name : Name) (expected actual : ℕ)
    → (check_chunk_field name expected actual ≡ passed) ↔ (expected ≡ actual)
unfolding check_chunk_field
check_field_iff name expected actual = ground arith

pub then_iff :
    (a b : CheckResult) {P Q : Type 0}
    → ((a ≡ passed) ↔ P)
    → ((b ≡ passed) ↔ Q)
    → ((a >>> b) ≡ passed) ↔ (P and Q)
then_iff passed b p q = (λ e. (p.0 refl, q.0 e), λ (x, y). q.1 y)
then_iff (differs n e a) b p q = (λ h. absurd (cc h), λ (x, y). absurd (cc (p.1 x)))
then_iff (rejected m) b p q = (λ h. absurd (cc h), λ (x, y). absurd (cc (p.1 x)))
then_iff assertion_failed b p q = (λ h. absurd (cc h), λ (x, y). absurd (cc (p.1 x)))
then_iff bad_read b p q = (λ h. absurd (cc h), λ (x, y). absurd (cc (p.1 x)))

pub unless_iff :
    (c : Bool) (a : CheckResult) {P : Type 0}
    → ((a ≡ passed) ↔ P)
    → (unless c a ≡ passed) ↔ (c ≡ false → P)
unless_iff true a p = (λ e f. absurd (cc f), λ x. refl)
unless_iff false a p = (λ e f. p.0 e, λ x. p.1 (x refl))

pub assert_iff : (c : Bool) → (assert c ≡ passed) ↔ (c ≡ true)
assert_iff true = (λ e. refl, λ e. refl)
assert_iff false = (λ e. absurd (cc e), λ e. absurd (cc e))

pub with_field_iff {ℓ} :
    {A : Type ℓ} (o : Option A) (k : A → CheckResult) {P : A → Type ℓ}
    → ((v : A) → (k v ≡ passed) ↔ P v)
    → (with_field o k ≡ passed) ↔ ((v : A) × (o ≡ some v) × P v)
with_field_iff none k p = (λ e. absurd (cc e), λ (v, x, y). absurd (cc x))
with_field_iff (some w) k {P = P} p =
    (λ e. (w, refl, (p w).0 e), λ (v, x, y). (p w).1 (subst P (cc x) y))

pub compare_field_iff :
    (name : Name) (w : Width) (script : Place) (i : ℕ) (actual : Place) (j : ℕ)
    → (compare_field name w script i actual j ≡ passed) ↔ SameField w script i actual j
unfolding compare_field
compare_field_iff name w script i actual j =
    let outer =
      with_field_iff (load w script i)
        (λ e. with_field (load w actual j) (λ f. check_chunk_field name e f))
        (λ (e : ℕ).
          with_field_iff (load w actual j) (λ f. check_chunk_field name e f)
            (λ f. check_field_iff name e f)) in
    (
      λ h. let (v, x, (u, y, z)) = outer.0 h in (v, x, cc (y, z)),
      λ (v, x, y). outer.1 (v, x, (v, y, refl)),
    )

-- A loop of checks passes exactly if every check does.
pub for_each_iff :
    (n i : ℕ) (body : ℕ → CheckResult)
    → (for_each n i body ≡ passed) ↔ ((k : ℕ) → i ≤ k → k < i + n → body k ≡ passed)
unfolding for_each
for_each_iff zero i body = (λ e k h hk. absurd (omega arith), λ x. refl)
for_each_iff (suc n) i body =
    let rest = for_each_iff n (i + 1) body in
    let all =
      then_iff (body i) (for_each n (i + 1) body) {P = body i ≡ passed} (λ e. e, λ e. e) rest in
    (
      λ h.
          let (x, y) = all.0 h in
          λ k hi hk. elim (Bool-cases (k == i)) [
            | inl e ↦ subst (λ q. body q ≡ passed) (ground arith) x
            | inr e ↦ y k (ground arith) (omega arith)
          ],
      λ f. all.1 (f i (omega arith) (omega arith), λ k hi hk. f k (omega arith) (omega arith)),
    )

-- The `n` bytes at `i` of the one block and at `j` of the other are there and the same.
abbrev pub SameBytes : ℕ → Place → ℕ → Place → ℕ → Type 0
SameBytes zero script i actual j = Unit
SameBytes (suc n) script i actual j =
    SameField bits8 script i actual j × SameBytes n script (i + 1) actual (j + 1)

bytes_from-same :
    (n : ℕ) (script : Place) (i : ℕ) (actual : Place) (j : ℕ)
    → SameBytes n script i actual j
    → (bs : List ℕ) × (bytes_from script i n ≡ some bs) × (bytes_from actual j n ≡ some bs)
unfolding bytes_from load
bytes_from-same zero script i actual j s = ([], refl, refl)
bytes_from-same (suc n) script i actual j ((v, x, y), s) =
    let (bs, ex, ey) = bytes_from-same n script (i + 1) actual (j + 1) s in
    let bx : byte_at script i ≡ some v = x in
    let by_ : byte_at actual j ≡ some v = y in
    (v ∷ bs, rw (bytes_from, bx, ex) refl, rw (bytes_from, by_, ey) refl)

pub same_bytes_refl : (bs : List ℕ) → same_bytes bs bs ≡ true
unfolding same_bytes
same_bytes_refl [] = refl
same_bytes_refl (b ∷ bs) = let t : (b == b) ≡ true = ground arith in rw (t, same_bytes_refl bs) refl

pub same_bytes-eq : (as_ bs : List ℕ) → same_bytes as_ bs ≡ true → as_ ≡ bs
unfolding same_bytes
same_bytes-eq [] [] e = refl
same_bytes-eq [] (b ∷ bs) e = absurd (cc e)
same_bytes-eq (a ∷ as_) [] e = absurd (cc e)
same_bytes-eq (a ∷ as_) (b ∷ bs) e = elim (Bool-cases (a == b)) [
  | inl t ↦
      let h : a ≡ b = ground arith in
      let r : same_bytes as_ bs ≡ true = rw t at e in cc (h, same_bytes-eq as_ bs r)
  | inr t ↦ absurd (cc (rw t at e))
]

prepend-some :
    (o : Option ℕ) (r : Option (List ℕ)) (bs : List ℕ)
    → prepend o r ≡ some bs
    → (b : ℕ) × (cs : List ℕ) × (o ≡ some b) × (r ≡ some cs) × (bs ≡ b ∷ cs)
prepend-some none r bs e = absurd (cc e)
prepend-some (some b) none bs e = absurd (cc e)
prepend-some (some b) (some cs) bs e = (b, cs, refl, refl, cc e)

bytes_from-SameBytes :
    (n : ℕ) (script : Place) (i : ℕ) (actual : Place) (j : ℕ) (bs : List ℕ)
    → bytes_from script i n ≡ some bs
    → bytes_from actual j n ≡ some bs
    → SameBytes n script i actual j
unfolding bytes_from load
bytes_from-SameBytes zero script i actual j bs x y = tt
bytes_from-SameBytes (suc n) script i actual j bs x y =
    let (a, as_, ea, eas, ex) =
      prepend-some (byte_at script i) (bytes_from script (i + 1) n) bs x in
    let (b, bs', eb, ebs, ey) =
      prepend-some (byte_at actual j) (bytes_from actual (j + 1) n) bs y in
    (
      (a, ea, cc (eb, ex, ey)),
      bytes_from-SameBytes n script (i + 1) actual (j + 1) as_ eas (cc (ebs, ex, ey)),
    )

-- `memcmp` passes exactly if all the bytes are in the memory and the same.
pub compare_bytes_iff :
    (message : Message) (script : Place) (i : ℕ) (actual : Place) (j n : ℕ)
    → (compare_bytes message script i actual j n ≡ passed) ↔ SameBytes n script i actual j
unfolding compare_bytes
compare_bytes_iff message script i actual j n =
    let outer =
      with_field_iff (bytes_from script i n)
        (λ e.
          with_field (bytes_from actual j n)
            (λ f. if same_bytes e f then passed else rejected message))
        (λ (e : List ℕ).
          with_field_iff (bytes_from actual j n)
            (λ f. if same_bytes e f then passed else rejected message) (λ f. verdict_iff e f)) in
    (
      λ h.
          let (xs, x, (ys, y, z)) = outer.0 h in
          bytes_from-SameBytes n script i actual j xs x (cc (y, z)),
      λ s. let (bs, x, y) = bytes_from-same n script i actual j s in outer.1 (bs, x, (bs, y, refl)),
    )
  where
    verdict_iff :
        (e f : List ℕ) → ((if same_bytes e f then passed else rejected message) ≡ passed) ↔ (e ≡ f)
    verdict_iff e f = (
      λ h. elim (Bool-cases (same_bytes e f)) [
        | inl t ↦ same_bytes-eq e f t
        | inr t ↦ absurd (cc (rw t at h))
      ],
      λ h. rw (h, same_bytes_refl f) refl,
    )

pub each_iff :
    (n : ℕ) (body : ℕ → CheckResult) {P : ℕ → Type 0}
    → ((k : ℕ) → (body k ≡ passed) ↔ P k)
    → (for_each n 0 body ≡ passed) ↔ ((k : ℕ) → k < n → P k)
each_iff n body p =
    let all = for_each_iff n 0 body in
    (
      λ h k hk. (p k).0 (all.0 h k (omega arith) (omega arith)),
      λ f. all.1 (λ k hi hk. (p k).1 (f k (omega arith))),
    )

pub passed_iff : (passed ≡ passed) ↔ Unit {0}
passed_iff = (λ e. tt, λ u. refl)
