-- ===== src/SctpRewrite/Faults.antt =====
-- Where the rewriting of SCTP packets does not do what it means to: SACK chunks that announce more
-- blocks than they have, and NR-SACK chunks with non-renegable gap blocks.
use packetdrill.Base.{
  ℕ, zero, suc, ◌+◌, ◌*◌, ◌^◌, ◌<◌, ◌≤◌, ◌≡◌, refl, ap, ◌∙◌, false, List, [], ◌∷◌, ◌++◌, Option,
  none, some, length, arith, ◌==◌, ltb, inl, inr, ◌⊎◌, be32_bytes, be16_bytes, u32, get_elem?,
  memcpy, length-memcpy, length-append,
}
use packetdrill.Sctp.{item_length, item_bytes, get_current_chunk, sctp_chunks_begin}
use packetdrill.Sctp.{both}
use packetdrill.SctpMatch.Compare.{both32}
use packetdrill.SctpMatch.Packet.{chunk_type}
use packetdrill.Connect.{TestSocket}
use packetdrill.SctpRewrite.{
  done, bad_access, ◌>>=◌, half, word, translate, translate_each, access, items_loop,
}
use packetdrill.SctpRewrite.Layout.{header, words}
use packetdrill.SctpRewrite.Edits.{half_behind, item_length_behind}
use packetdrill.SctpRewrite.Fields.{block_counts, head_behind, translate_first}
use packetdrill.SctpRewrite.Inbound.{local_to_live, inbound_nr_sack}
use packetdrill.SctpRewrite.Outbound.{
  remote_to_script, outbound_chunk, outbound_by_type, outbound_sack, map_outbound_live_sctp_packet,
}

-- An NR-SACK with its blocks.
abbrev pub nr_sack_length : List ℕ → List ℕ → List ℕ → ℕ
nr_sack_length gaps nr_gaps dups = 20 + 4 * (length gaps + length nr_gaps + length dups)

abbrev pub nr_sack_bytes : (f cum_tsn a_rwnd : ℕ) → List ℕ → List ℕ → List ℕ → List ℕ
nr_sack_bytes f cum_tsn a_rwnd gaps nr_gaps dups =
    header 0x10 f (nr_sack_length gaps nr_gaps dups) (
      be32_bytes cum_tsn
      ++ (be32_bytes a_rwnd
          ++ be16_bytes (length gaps)
          ++ be16_bytes (length nr_gaps)
          ++ be16_bytes (length dups)
          ++ be16_bytes 0
          ++ words gaps
          ++ words nr_gaps
          ++ words dups))

-- For an NR-SACK with at least one non-renegable gap block, of the length that its blocks have, the
-- inbound rewriting moves the cumulative TSN to the live numbers and leaves the duplicate TSNs as the
-- script gives them, since the length is compared without those blocks.
pub inbound_nr_sack_keeps_dups :
    (socket : TestSocket) (pre more : List ℕ) (f cum_tsn a_rwnd block : ℕ)
    (gaps nr_gaps dups : List ℕ)
    → cum_tsn < 2 ^ 32
    → nr_sack_length gaps (block ∷ nr_gaps) dups < 2 ^ 16
    → inbound_nr_sack socket
        (length pre)
        (nr_sack_length gaps (block ∷ nr_gaps) dups)
        (pre ++ (nr_sack_bytes f cum_tsn a_rwnd gaps (block ∷ nr_gaps) dups ++ more))
      ≡ done (
          pre
          ++ (nr_sack_bytes f
                (u32 (cum_tsn + local_to_live socket))
                a_rwnd
                gaps
                (block ∷ nr_gaps)
                dups
              ++ more))
unfolding inbound_nr_sack half
inbound_nr_sack_keeps_dups socket pre more f cum_tsn a_rwnd block gaps nr_gaps dups h l =
    let n = nr_sack_length gaps (block ∷ nr_gaps) dups in
    let cum = u32 (cum_tsn + local_to_live socket) in
    let rest : List ℕ =
      be32_bytes a_rwnd
      ++ be16_bytes (length gaps)
      ++ be16_bytes (length (block ∷ nr_gaps))
      ++ be16_bytes (length dups)
      ++ be16_bytes 0
      ++ words gaps
      ++ words (block ∷ nr_gaps)
      ++ words dups in
    let xs : List ℕ = header 0x10 f n (be32_bytes cum ++ rest) ++ more in
    let counts =
      block_counts pre more 0x10 f n cum a_rwnd (length gaps) (length (block ∷ nr_gaps))
        (be16_bytes (length dups)
          ++ be16_bytes 0
          ++ words gaps
          ++ words (block ∷ nr_gaps)
          ++ words dups)
        (omega arith) (omega arith) in
    let nr_dups : half (pre ++ xs) (length pre + 16) ≡ some (length dups) =
      half_behind pre xs 16 ∙ ap some (omega arith) in
    let differs : (n == 20 + 4 * (length dups + length gaps)) ≡ false = ground arith in
    rw
      (
        translate_first pre more 0x10 f n cum_tsn (local_to_live socket) rest h,
        counts.0,
        counts.1,
        nr_dups,
        differs,
      )
      refl

get_elem?_outside : (xs : List ℕ) (i : ℕ) → length xs ≤ i → get_elem? xs i ≡ none
get_elem?_outside [] i h = refl
get_elem?_outside (x ∷ xs) zero h = absurd (omega arith)
get_elem?_outside (x ∷ xs) (suc i) h = get_elem?_outside xs i (omega arith)

-- A read that goes beyond the memory.
word_outside : (m : List ℕ) (p : ℕ) → length m < p + 4 → word m p ≡ none
unfolding word half
word_outside m p h =
    rw (get_elem?_outside m (p + 2 + 1) (omega arith))
      (none_last (get_elem? m p) (get_elem? m (p + 1)) (get_elem? m (p + 2)))
  where
    none_last : (a b c : Option ℕ) → both32 (both a b) (both c none) ≡ none
    none_last none b none = refl
    none_last none b (some c) = refl
    none_last (some a) none none = refl
    none_last (some a) none (some c) = refl
    none_last (some a) (some b) none = refl
    none_last (some a) (some b) (some c) = refl

translate-cases :
    (p diff : ℕ) (m : List ℕ)
    → (translate p diff m ≡ bad_access)
      ⊎ ((m' : List ℕ) × (translate p diff m ≡ done m') × (length m' ≡ length m))
unfolding translate
translate-cases p diff m = by_word (word m p)
  where
    moved : ℕ → List ℕ
    moved v = memcpy m p (be32_bytes (u32 (v + diff)))

    by_word :
        (o : Option ℕ)
        → ((access o >>= λ v. done (moved v)) ≡ bad_access)
          ⊎ ((m' : List ℕ) × ((access o >>= λ v. done (moved v)) ≡ done m')
              × (length m' ≡ length m))
    by_word none = inl refl
    by_word (some v) = inr (moved v, refl, length-memcpy m p (be32_bytes (u32 (v + diff))))

translate_each_outside :
    (n p diff : ℕ) (m : List ℕ)
    → length m < p + 4 * suc n
    → translate_each (suc n) p diff m ≡ bad_access
unfolding translate_each translate
translate_each_outside zero p diff m h = let e = word_outside m p (omega arith) in rw e refl
translate_each_outside (suc n) p diff m h = elim (translate-cases p diff m) [
  | inl e ↦ rw e refl
  | inr (m', e, same) ↦ rw e (translate_each_outside n (p + 4) diff m' (omega arith))
]

-- A SACK that announces at least one duplicate TSN, with `blocks` behind its fixed fields.
abbrev pub sack_start : (f n cum_tsn a_rwnd nr_gaps nr_dups : ℕ) → List ℕ → List ℕ
sack_start f n cum_tsn a_rwnd nr_gaps nr_dups blocks = header 0x03 f n (
    be32_bytes cum_tsn ++ (be32_bytes a_rwnd ++ be16_bytes nr_gaps ++ be16_bytes nr_dups ++ blocks))

sack_start_sized :
    (f n cum_tsn a_rwnd nr_gaps nr_dups : ℕ) (blocks : List ℕ)
    → n < 2 ^ 16
    → item_length (sack_start f n cum_tsn a_rwnd nr_gaps nr_dups blocks) 0 ≡ some n
unfolding item_length
sack_start_sized f n cum_tsn a_rwnd nr_gaps nr_dups blocks h = ap some (omega arith)

outbound_sack_overrun :
    (socket : TestSocket) (pre blocks : List ℕ) (f n cum_tsn a_rwnd nr_gaps nr_dups : ℕ)
    → cum_tsn < 2 ^ 32
    → nr_gaps < 2 ^ 16
    → suc nr_dups < 2 ^ 16
    → length blocks < 4 * (nr_gaps + suc nr_dups)
    → outbound_sack socket
        (length pre)
        (pre ++ sack_start f n cum_tsn a_rwnd nr_gaps (suc nr_dups) blocks)
      ≡ bad_access
unfolding outbound_sack
outbound_sack_overrun socket pre blocks f n cum_tsn a_rwnd nr_gaps nr_dups h hg hd short =
    let diff = remote_to_script socket in
    let fixed : List ℕ = be32_bytes a_rwnd ++ be16_bytes nr_gaps ++ be16_bytes (suc nr_dups) in
    let ys : List ℕ = header 0x03 f n (be32_bytes (u32 (cum_tsn + diff)) ++ fixed) ++ blocks in
    let counts =
      block_counts pre blocks 0x03 f n (u32 (cum_tsn + diff)) a_rwnd nr_gaps (suc nr_dups) [] hg
        hd in
    rw
      (
        translate_first pre blocks 0x03 f n cum_tsn diff fixed h,
        counts.0,
        counts.1,
        translate_each_outside nr_dups (length pre + 16 + 4 * nr_gaps) diff (pre ++ ys)
            (omega (arith, length-append {0} pre ys)),
      )
      refl

-- Where an outbound packet begins with a whole SACK chunk that announces duplicate TSNs beyond the
-- end of the memory, `map_outbound_live_sctp_packet` accesses memory behind the packet: the numbers
-- of blocks are not compared with the length of the chunk.
pub map_outbound_overrun :
    (socket : TestSocket) (pre blocks : List ℕ) (f n cum_tsn a_rwnd nr_gaps nr_dups : ℕ)
    → cum_tsn < 2 ^ 32
    → n < 2 ^ 16
    → nr_gaps < 2 ^ 16
    → suc nr_dups < 2 ^ 16
    → 16 ≤ n
    → n ≤ 16 + length blocks
    → length blocks < 4 * (nr_gaps + suc nr_dups)
    → map_outbound_live_sctp_packet socket
        (length pre)
        (length pre + (16 + length blocks))
        (pre ++ sack_start f n cum_tsn a_rwnd nr_gaps (suc nr_dups) blocks)
      ≡ bad_access
unfolding map_outbound_live_sctp_packet items_loop sctp_chunks_begin get_current_chunk
    outbound_chunk outbound_by_type chunk_type
map_outbound_overrun socket pre blocks f n cum_tsn a_rwnd nr_gaps nr_dups h hn hg hd l fits short =
    let xs = sack_start f n cum_tsn a_rwnd nr_gaps (suc nr_dups) blocks in
    let end = length pre + (16 + length blocks) in
    let not_end : (length pre == end) ≡ false = ground arith in
    let room : ltb end (length pre + item_bytes) ≡ false = ground arith in
    let inside : ltb end (length pre + n) ≡ false = ground arith in
    let sized : item_length (pre ++ xs) (length pre) ≡ some n =
      item_length_behind pre xs
      ∙ sack_start_sized f n cum_tsn a_rwnd nr_gaps (suc nr_dups) blocks hn in
    rw
      (
        not_end,
        room,
        sized,
        inside,
        head_behind pre xs,
        sized,
        outbound_sack_overrun socket pre blocks f n cum_tsn a_rwnd nr_gaps nr_dups h hg hd short,
      )
      refl
