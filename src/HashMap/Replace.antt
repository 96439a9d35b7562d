-- ===== src/HashMap/Replace.antt =====
-- Replacing the value of a key within a bucket.
use packetdrill.Base.{
  ℕ, ◌≡◌, refl, false, [], ◌∷◌, Option, none, some, ◌==◌, arith, All, Bool-cases, inl, inr,
  if◌then◌else◌, ◌∙◌, subst,
}
use packetdrill.HashMap.{HashNode, Bucket, lookup, replace}
use packetdrill.HashMap.Buckets.{IsDistinct}

-- The bucket `new` is `old` with the value of `key` replaced.
pub record IsReplaced (old : Bucket) (key value : ℕ) (new : Bucket) : Type 1 where
  pub search : (k : ℕ) → lookup new k ≡ (if key == k then some value else lookup old k)
  pub distinct : IsDistinct old → IsDistinct new
  pub keys :
      (P : ℕ → Type 0)
      → All (λ (node : HashNode). P node.key) old
      → All (λ (node : HashNode). P node.key) new

IsReplaced-head :
    (node : HashNode) (next : Bucket) (value : ℕ)
    → IsReplaced (node ∷ next) node.key value (record { key = node.key; value = value } ∷ next)
unfolding lookup IsDistinct
IsReplaced-head node next value = record {
  search = λ k. elim (Bool-cases (node.key == k)) [ inl e ↦ rw e refl | inr e ↦ rw e refl ];
  distinct = λ d. d;
  keys = λ P a. a;
}

IsReplaced-next :
    (node : HashNode) (next new : Bucket) (key value : ℕ)
    → (node.key == key) ≡ false
    → IsReplaced next key value new
    → IsReplaced (node ∷ next) key value (node ∷ new)
unfolding lookup IsDistinct
IsReplaced-next node next new key value ne r = record {
  search = λ k. elim (Bool-cases (node.key == k)) [
    | inl e ↦ let other : (key == k) ≡ false = ground arith in rw (e, other) refl
    | inr e ↦ rw e (r.search k)
  ];
  distinct = λ d.
      let other : (key == node.key) ≡ false = ground arith in
      (r.search node.key ∙ rw other d.0, r.distinct d.1);
  keys = λ P a. (a.0, r.keys P a.1);
}

-- What replacing may result in.
pub data Replaces (old : Bucket) (key value : ℕ) : Option Bucket → Type 1 where
  missing : lookup old key ≡ none → Replaces old key value none
  replaced : (new : Bucket) → IsReplaced old key value new → Replaces old key value (some new)

pub replace-Replaces :
    (old : Bucket) (key value : ℕ) → Replaces old key value (replace old key value)
unfolding replace lookup
replace-Replaces [] key value = missing refl
replace-Replaces (node ∷ next) key value = elim (Bool-cases (node.key == key)) [
  | inl same ↦
      let e : node.key ≡ key = ground arith in
      rw same (
        replaced (record { key = node.key; value = value } ∷ next) (
          subst
            (λ k.
              IsReplaced (node ∷ next) k value (record { key = node.key; value = value } ∷ next))
            e (IsReplaced-head node next value)))
  | inr other ↦ rw other (later (replace next key value) (replace-Replaces next key value) other)
]
  where
    later :
        (o : Option Bucket)
        → Replaces next key value o
        → (node.key == key) ≡ false
        → Replaces
            (node ∷ next)
            key
            value
            (elim o [ none ↦ none | some bucket ↦ some (node ∷ bucket) ])
    later none (missing e) ne = missing (rw ne e)
    later (some bucket) (replaced new r) ne =
        replaced (node ∷ new) (IsReplaced-next node next new key value ne r)
