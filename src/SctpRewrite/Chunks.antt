-- ===== src/SctpRewrite/Chunks.antt =====
-- The loop over the chunks, where the body turns each chunk of a layout into another one of the same
-- length.
use packetdrill.Base.{
  ℕ, zero, suc, ◌+◌, ◌*◌, ◌<◌, ◌≤◌, ◌≡◌, refl, ap, ◌∙◌, true, false, List, [], ◌∷◌, ◌++◌, none,
  some, length, map, arith, All, length-append, ltb, ◌==◌,
}
use packetdrill.Sctp.{at, item_length, item_bytes, get_current_chunk, sctp_chunks_next}
use packetdrill.Sctp.Walk.{next_item, next_chunk, rounded}
use packetdrill.SctpRewrite.{Rewrite, done, items_loop}
use packetdrill.SctpRewrite.Layout.{
  Layout, numbered, plain, sack, init, Numbered, bytes_of, chunk_bytes, all_bytes, IsWhole, words,
  sack_length, least, data_, shutdown, ecne, cwr, i_data, forward_tsn, i_forward_tsn,
}
use packetdrill.SctpRewrite.Edits.{append_assoc, item_length_behind}

pub length-words : (vs : List ℕ) → length (words vs) ≡ 4 * length vs
length-words [] = refl
length-words (v ∷ vs) = omega (arith, length-words vs)

pub length-map : (f : ℕ → ℕ) (vs : List ℕ) → length (map f vs) ≡ length vs
length-map f [] = refl
length-map f (v ∷ vs) = ap suc (length-map f vs)

least_bound : (k : Numbered) → 8 ≤ least k
least_bound data_ = omega arith
least_bound shutdown = omega arith
least_bound ecne = omega arith
least_bound cwr = omega arith
least_bound i_data = omega arith
least_bound forward_tsn = omega arith
least_bound i_forward_tsn = omega arith

pub length-bytes_of : (c : Layout) → IsWhole c → length (bytes_of c) ≡ rounded (chunk_bytes c)
length-bytes_of (numbered k flags n tsn rest) (a, b, c, d) = omega arith
length-bytes_of (plain k flags n rest) (b, c, d) = omega arith
length-bytes_of (sack flags cum_tsn a_rwnd gaps dups) h =
    let e : rounded (sack_length gaps dups) ≡ sack_length gaps dups = ground arith in
    omega
      (arith, e, length-append {0} (words gaps) (words dups), length-words gaps, length-words dups)
length-bytes_of (init is_ack flags n tag a_rwnd streams tsn rest) (a, b, c, d, e) = omega arith

pub chunk_bytes_whole : (c : Layout) → IsWhole c → 4 ≤ chunk_bytes c
chunk_bytes_whole (numbered k flags n tsn rest) (a, b, c, d) = omega (arith, least_bound k)
chunk_bytes_whole (plain k flags n rest) (b, c, d) = b
chunk_bytes_whole (sack flags cum_tsn a_rwnd gaps dups) h = omega arith
chunk_bytes_whole (init is_ack flags n tag a_rwnd streams tsn rest) (a, b, c, d, e) = omega arith

pub item_length-bytes_of :
    (c : Layout) (more : List ℕ)
    → IsWhole c
    → item_length (bytes_of c ++ more) 0 ≡ some (chunk_bytes c)
unfolding item_length
item_length-bytes_of (numbered k flags n tsn rest) more (a, b, c, d) = ap some (omega arith)
item_length-bytes_of (plain k flags n rest) more (b, c, d) = ap some (omega arith)
item_length-bytes_of (sack flags cum_tsn a_rwnd gaps dups) more (a, b, c) = ap some (omega arith)
item_length-bytes_of (init is_ack flags n tag a_rwnd streams tsn rest) more (a, b, c, d, e) =
    ap some (omega arith)

-- The iterator at a whole chunk.
at_chunk :
    (c : Layout) (pre more : List ℕ) (end : ℕ)
    → IsWhole c
    → length pre + length (bytes_of c) ≤ end
    → get_current_chunk (pre ++ (bytes_of c ++ more)) (length pre) end
      ≡ at record { current = some (length pre); end = end } none
unfolding get_current_chunk
at_chunk c pre more end w h =
    let h4 = chunk_bytes_whole c w in
    let len = length-bytes_of c w in
    let sized = item_length_behind pre (bytes_of c ++ more) ∙ item_length-bytes_of c more w in
    let not_end : (length pre == end) ≡ false = ground arith in
    let room : ltb end (length pre + item_bytes) ≡ false = ground arith in
    let inside : ltb end (length pre + chunk_bytes c) ≡ false = ground arith in
    rw (not_end, room, sized, inside) refl

next_after :
    (c : Layout) (pre more : List ℕ) (end : ℕ)
    → IsWhole c
    → length pre + length (bytes_of c) ≤ end
    → sctp_chunks_next
        (pre ++ (bytes_of c ++ more))
        record { current = some (length pre); end = end }
        none
      ≡ get_current_chunk (pre ++ (bytes_of c ++ more)) (length (pre ++ bytes_of c)) end
next_after c pre more end w h =
    let len = length-bytes_of c w in
    let place : next_item (length pre) (chunk_bytes c) end ≡ length (pre ++ bytes_of c) =
      ground (arith, length-append {0} pre (bytes_of c)) in
    next_chunk (pre ++ (bytes_of c ++ more)) (length pre) (chunk_bytes c) end
      (item_length_behind pre (bytes_of c ++ more) ∙ item_length-bytes_of c more w)
      (chunk_bytes_whole c w)
    ∙ ap (λ q. get_current_chunk (pre ++ (bytes_of c ++ more)) q end) place

abbrev pub all_kept : {F : Type 0} → (Layout → F → F) → List Layout → F → F
all_kept upd [] kept = kept
all_kept upd (c ∷ cs) kept = all_kept upd cs (upd c kept)

-- The body turns each chunk `c` into `tr c`, which has the same length, and keeps `upd c`.
module _ {F : Type 0} (on_error : List ℕ → F → Rewrite (List ℕ × F))
    (body : ℕ → List ℕ → F → Rewrite (List ℕ × F)) (tr : Layout → Layout) (upd : Layout → F → F)
    (turns : (c : Layout) (pre more : List ℕ) (kept : F)
      → IsWhole c
      → body (length pre) (pre ++ (bytes_of c ++ more)) kept
        ≡ done (pre ++ (bytes_of (tr c) ++ more), upd c kept))
    (stays_whole : (c : Layout) → IsWhole c → IsWhole (tr c))
    (same_bytes : (c : Layout) → chunk_bytes (tr c) ≡ chunk_bytes c) where
  pub items_loop_chunks :
      (cs : List Layout) (fuel : ℕ) (pre : List ℕ) (end : ℕ) (kept : F)
      → All IsWhole cs
      → length cs < fuel
      → end ≡ length pre + length (all_bytes cs)
      → items_loop sctp_chunks_next on_error body fuel
          (get_current_chunk (pre ++ all_bytes cs) (length pre) end)
          (pre ++ all_bytes cs)
          kept
        ≡ done (pre ++ all_bytes (map tr cs), all_kept upd cs kept)
  unfolding items_loop get_current_chunk
  items_loop_chunks cs zero pre end kept w f e = absurd (omega arith)
  items_loop_chunks [] (suc fuel) pre end kept w f e =
      let over : (length pre == end) ≡ true = ground arith in rw (get_current_chunk, over) refl
  items_loop_chunks (c ∷ cs) (suc fuel) pre end kept (w, ws) f e =
      let total = length-append {0} (bytes_of c) (all_bytes cs) in
      let total' = length-append {0} pre (bytes_of (tr c)) in
      let len = length-bytes_of c w in
      let len' = length-bytes_of (tr c) (stays_whole c w) in
      let same = same_bytes c in
      let len_eq : length (bytes_of (tr c)) ≡ length (bytes_of c) = rw (len', same, len) refl in
      rw
        (
          at_chunk c pre (all_bytes cs) end w (omega arith),
          turns c pre (all_bytes cs) kept w,
          next_after (tr c) pre (all_bytes cs) end (stays_whole c w) (omega arith),
          ← append_assoc pre (bytes_of (tr c)) (all_bytes cs),
          items_loop_chunks cs fuel (pre ++ bytes_of (tr c)) end (upd c kept) ws (omega arith)
              (omega arith),
          append_assoc pre (bytes_of (tr c)) (all_bytes (map tr cs)),
        )
        refl

pub length-all_bytes : (cs : List Layout) → All IsWhole cs → length cs ≤ length (all_bytes cs)
length-all_bytes [] h = omega arith
length-all_bytes (c ∷ cs) (w, ws) = omega (
  arith,
  length-append {0} (bytes_of c) (all_bytes cs),
  length-bytes_of c w,
  chunk_bytes_whole c w,
  length-all_bytes cs ws,
)
