-- ===== src/SctpMatch/Tiles.antt =====
-- The loop that moves over a live packet and the script's list passes exactly if the list's items
-- tile the packet one for one.
use packetdrill.Base.{
  ℕ, ◌+◌, ◌≤◌, ◌==◌, ◌≡◌, ◌↔◌, ◌⊎◌, ◌≢◌, refl, subst, false, List, [], ◌∷◌, none, some, ltb, length,
  arith, Bool-cases, inl, inr,
}
use packetdrill.Sctp.{
  Error, at, partial, too_short, item_length, item_bytes, get_current_chunk, sctp_chunks_next,
}
use packetdrill.Sctp.Walk.{next_item, next_chunk, tiny_chunk, item_length-in_range}
use packetdrill.SctpMatch.Compare.{
  Message, CheckResult, passed, differs, rejected, assertion_failed, bad_read, ◌>>>◌,
}
use packetdrill.SctpMatch.Laws.{then_iff}
use packetdrill.SctpMatch.Items.{compare_items}

-- One behind the other, padded to four bytes, there are as many live items up to `end` as the list
-- has, each whole and related to the list's.
pub data Tiles {I : Type 0} (memory : List ℕ) (end : ℕ) (P : ℕ → I → Type 0)
    : ℕ → List I → Type 0 where
  no_more : (p : ℕ) → p ≡ end → Tiles memory end P p []
  one_more :
      (p n : ℕ) (item : I) (items : List I)
      → item_length memory p ≡ some n
      → 4 ≤ n
      → p + n ≤ end
      → P p item
      → Tiles memory end P (next_item p n end) items
      → Tiles memory end P p (item ∷ items)

-- What the iterator gives before the end: the item's offset, and an error or a whole item.
pub current_cases :
    (memory : List ℕ) (p end : ℕ)
    → end ≤ length memory
    → p ≤ end
    → (p == end) ≡ false
    → ((e : Error) × (get_current_chunk memory p end
          ≡ at record { current = some p; end = end } (some e))
        × ((n : ℕ) → item_length memory p ≡ some n → 4 ≤ n → p + n ≤ end → ⊥))
      ⊎ ((n : ℕ) × (item_length memory p ≡ some n)
          × (p + n ≤ end)
          × (get_current_chunk memory p end ≡ at record { current = some p; end = end } none))
unfolding get_current_chunk
current_cases memory p end hm hp more = elim (Bool-cases (ltb end (p + item_bytes))) [
  | inl short ↦ inl (too_short, rw (get_current_chunk, more, short) refl, λ n e h4 h. ground arith)
  | inr fits ↦
      let (n, e) = item_length-in_range memory p (ground arith) in
      elim (Bool-cases (ltb end (p + n))) [
        | inl beyond ↦ inl (
          partial,
          rw (get_current_chunk, more, fits, e, beyond) refl,
          λ k ek h4 h. let same : k ≡ n = cc (e, ek) in ground arith,
        )
        | inr inside ↦ inr (n, e, ground arith, rw (get_current_chunk, more, fits, e, inside) refl)
      ]
]

never-passed : (a : CheckResult) → (a >>> assertion_failed) ≢ passed
never-passed passed e = cc e
never-passed (differs name x y) e = cc e
never-passed (rejected m) e = cc e
never-passed assertion_failed e = cc e
never-passed bad_read e = cc e

module _ {I : Type 0} (memory : List ℕ) (end : ℕ) (P : ℕ → I → Type 0) (body : ℕ → I → CheckResult)
    (body_iff : (p n : ℕ) (item : I)
      → item_length memory p ≡ some n
      → 4 ≤ n
      → p + n ≤ end
      → (body p item ≡ passed) ↔ P p item)
    (m m' : Message) where
  Tiles-head :
      (p : ℕ) (item : I) (items : List I)
      → Tiles memory end P p (item ∷ items)
      → (n : ℕ) × (item_length memory p ≡ some n)
        × (4 ≤ n)
        × (p + n ≤ end)
        × P p item
        × Tiles memory end P (next_item p n end) items
  Tiles-head p item items (one_more q n first rest e h4 h x t) = (n, e, h4, h, x, t)

  Tiles-end : (p : ℕ) → Tiles memory end P p [] → p ≡ end
  Tiles-end p (no_more q e) = e

  step_iff :
      (p n : ℕ) (item : I) (items : List I)
      → item_length memory p ≡ some n
      → p + n ≤ end
      → ((compare_items
              (sctp_chunks_next memory)
              body
              m
              m'
              (get_current_chunk memory (next_item p n end) end)
              items
            ≡ passed)
          ↔ Tiles memory end P (next_item p n end) items)
      → ((body p item
            >>> compare_items
                (sctp_chunks_next memory)
                body
                m
                m'
                (sctp_chunks_next memory record { current = some p; end = end } none)
                items)
          ≡ passed)
        ↔ Tiles memory end P p (item ∷ items)
  unfolding compare_items get_current_chunk
  step_iff p n item items e h rest = elim (Bool-cases (ltb n item_bytes)) [
    | inl tiny ↦ rw (tiny_chunk memory p n end e (ground arith)) (
      λ x. absurd (never-passed (body p item) x),
      λ t.
          let (k, ek, h4, hk, x, r) = Tiles-head p item items t in
          let same : k ≡ n = cc (e, ek) in absurd (ground arith),
    )
    | inr big ↦ rw (next_chunk memory p n end e (ground arith)) (
        let both =
          then_iff (body p item)
            (compare_items (sctp_chunks_next memory) body m m'
              (get_current_chunk memory (next_item p n end) end) items)
            (body_iff p n item e (ground arith) h) rest in
        (
          λ x. let (y, z) = both.0 x in one_more p n item items e (ground arith) h y z,
          λ t.
              let (k, ek, h4, hk, x, r) = Tiles-head p item items t in
              let same : k ≡ n = cc (e, ek) in
              both.1 (x, subst (λ q. Tiles memory end P (next_item p q end) items) same r),
        ))
  ]

  pub compare_items_iff :
      (p : ℕ) (items : List I)
      → end ≤ length memory
      → p ≤ end
      → (compare_items (sctp_chunks_next memory) body m m' (get_current_chunk memory p end) items
          ≡ passed)
        ↔ Tiles memory end P p items
  unfolding compare_items get_current_chunk
  compare_items_iff p [] hm hp = elim (Bool-cases (p == end)) [
    | inl done ↦ rw (get_current_chunk, done) (λ e. no_more p (ground arith), λ t. refl)
    | inr more ↦ elim (current_cases memory p end hm hp more) [
      | inl (e, c, bad) ↦
          rw c (λ x. absurd (cc x), λ t. let q = Tiles-end p t in absurd (ground arith))
      | inr (n, e, h, c) ↦
          rw c (λ x. absurd (cc x), λ t. let q = Tiles-end p t in absurd (ground arith))
    ]
  ]
  compare_items_iff p (item ∷ items) hm hp = elim (Bool-cases (p == end)) [
    | inl done ↦
        rw (get_current_chunk, done)
          (
            λ e. absurd (cc e),
            λ t. let (n, e, h4, h, x, r) = Tiles-head p item items t in absurd (ground arith),
          )
    | inr more ↦ elim (current_cases memory p end hm hp more) [
      | inl (e, c, bad) ↦ rw c (
        λ x. absurd (cc x),
        λ t. let (n, e, h4, h, x, r) = Tiles-head p item items t in absurd (bad n e h4 h),
      )
      | inr (n, e, h, c) ↦ rw c (
          step_iff p n item items e h
            (compare_items_iff (next_item p n end) items hm (omega arith)))
    ]
  ]
