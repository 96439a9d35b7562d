-- ===== src/SctpRewrite/Fields.antt =====
-- The changes of the fields of a chunk that stands behind a prefix of the memory.
use packetdrill.Base.{
  some, ℕ, ◌+◌, ◌*◌, ◌^◌, ◌<◌, ◌≡◌, refl, ap, ◌∙◌, Bool, List, [], ◌∷◌, ◌++◌, length, map, arith,
  All, ◌==◌, if◌then◌else◌, be32_bytes, be16_bytes, u32, get_elem?,
}
use packetdrill.SctpRewrite.{half, done, ◌>>=◌, translate, replace_tag, translate_each}
use packetdrill.SctpRewrite.Layout.{header, words, bytes_of, init}
use packetdrill.SctpRewrite.Edits.{
  half_behind, append_assoc, translate-behind, translate_each-behind, translate_front,
  translate_each_front, replace_tag_front, behind, replace_tag-behind,
}
use packetdrill.SctpRewrite.Chunks.{length-words}

pub head_behind : (pre xs : List ℕ) → get_elem? (pre ++ xs) (length pre) ≡ get_elem? xs 0
head_behind [] xs = refl
head_behind (x ∷ pre) xs = head_behind pre xs

-- The field behind the header of a chunk.
pub translate_first :
    (pre more : List ℕ) (t flags n tsn diff : ℕ) (rest : List ℕ)
    → tsn < 2 ^ 32
    → translate (length pre + 4) diff (pre ++ (header t flags n (be32_bytes tsn ++ rest) ++ more))
      ≡ done (pre ++ (header t flags n (be32_bytes (u32 (tsn + diff)) ++ rest) ++ more))
translate_first pre more t flags n tsn diff rest h =
    translate-behind pre (header t flags n (be32_bytes tsn ++ rest) ++ more) 4 diff
    ∙ ap (behind pre) (
        translate-behind (t ∷ flags ∷ be16_bytes n) (be32_bytes tsn ++ (rest ++ more)) 0 diff
        ∙ ap (behind (t ∷ flags ∷ be16_bytes n)) (translate_front tsn diff (rest ++ more) h))

-- The change of an INIT, of its TSN and then of its tag.
pub edit_init :
    (pre more : List ℕ) (is_ack : Bool) (flags n tag a_rwnd streams tsn : ℕ) (rest : List ℕ)
    (own from to : ℕ)
    → tsn < 2 ^ 32
    → tag < 2 ^ 32
    → (translate
          (length pre + 16)
          own
          (pre ++ (bytes_of (init is_ack flags n tag a_rwnd streams tsn rest) ++ more))
        >>= replace_tag (length pre + 4) from to)
      ≡ done (
          pre
          ++ (bytes_of (
                init is_ack flags n
                  (if tag == from then to else tag)
                  a_rwnd
                  streams
                  (u32 (tsn + own))
                  rest)
              ++ more))
edit_init pre more is_ack flags n tag a_rwnd streams tsn rest own from to h k =
    let t : ℕ = if is_ack then 0x02 else 0x01 in
    let front = t ∷ flags ∷ be16_bytes n in
    let before = front ++ (be32_bytes tag ++ be32_bytes a_rwnd ++ be32_bytes streams) in
    let moved = be32_bytes (u32 (tsn + own)) ++ (rest ++ more) in
    let first : translate 16 own (before ++ (be32_bytes tsn ++ (rest ++ more)))
        ≡ done (before ++ moved) =
      translate-behind before (be32_bytes tsn ++ (rest ++ more)) 0 own
      ∙ ap (behind before) (translate_front tsn own (rest ++ more) h) in
    let after_tag = be32_bytes a_rwnd ++ (be32_bytes streams ++ moved) in
    let second : replace_tag 4 from to (front ++ (be32_bytes tag ++ after_tag))
        ≡ done (front ++ (be32_bytes (if tag == from then to else tag) ++ after_tag)) =
      replace_tag-behind front (be32_bytes tag ++ after_tag) 0 from to
      ∙ ap (behind front) (replace_tag_front tag from to after_tag k) in
    rw
      (
        translate-behind pre (before ++ (be32_bytes tsn ++ (rest ++ more))) 16 own,
        first,
        replace_tag-behind pre (front ++ (be32_bytes tag ++ after_tag)) 4 from to,
        second,
      )
      refl

-- The duplicate TSNs of a SACK.
pub edit_dups :
    (pre more : List ℕ) (flags cum_tsn a_rwnd : ℕ) (gaps dups : List ℕ) (n diff : ℕ)
    → All (λ v. v < 2 ^ 32) dups
    → translate_each (length dups) (length pre + 16 + 4 * length gaps) diff (
        pre
        ++ (header 0x03 flags n (
              be32_bytes cum_tsn
              ++ be32_bytes a_rwnd
              ++ be16_bytes (length gaps)
              ++ be16_bytes (length dups)
              ++ words gaps
              ++ words dups)
            ++ more))
      ≡ done (
          pre
          ++ (header 0x03 flags n (
                be32_bytes cum_tsn
                ++ be32_bytes a_rwnd
                ++ be16_bytes (length gaps)
                ++ be16_bytes (length dups)
                ++ words gaps
                ++ words (map (λ v. u32 (v + diff)) dups))
              ++ more))
edit_dups pre more flags cum_tsn a_rwnd gaps dups n diff h =
    let front : List ℕ = header 0x03 flags n (
      be32_bytes cum_tsn
      ++ be32_bytes a_rwnd
      ++ be16_bytes (length gaps)
      ++ be16_bytes (length dups)
      ++ words gaps) in
    let place : length pre + 16 + 4 * length gaps ≡ length pre + (length front + 0) =
      omega (arith, length-words gaps) in
    rw
      (
        place,
        translate_each-behind (length dups) pre _ (length front + 0) diff,
        append_assoc (words gaps) (words dups) more,
        append_assoc (words gaps) (words (map (λ v. u32 (v + diff)) dups)) more,
        translate_each-behind (length dups) front (words dups ++ more) 0 diff,
        translate_each_front dups diff more h,
      )
      refl

-- The two numbers of blocks behind the window of a SACK or an NR-SACK.
pub block_counts :
    (pre more : List ℕ) (t flags n cum_tsn a_rwnd x y : ℕ) (rest : List ℕ)
    → x < 2 ^ 16
    → y < 2 ^ 16
    → let memory =
        pre
        ++ (header t flags n
              (be32_bytes cum_tsn ++ (be32_bytes a_rwnd ++ be16_bytes x ++ be16_bytes y ++ rest))
            ++ more) in
      (half memory (length pre + 12) ≡ some x) × (half memory (length pre + 14) ≡ some y)
unfolding half
block_counts pre more t flags n cum_tsn a_rwnd x y rest hx hy =
    let xs : List ℕ =
      header t flags n
        (be32_bytes cum_tsn ++ (be32_bytes a_rwnd ++ be16_bytes x ++ be16_bytes y ++ rest))
      ++ more in
    (half_behind pre xs 12 ∙ ap some (omega arith), half_behind pre xs 14 ∙ ap some (omega arith))
