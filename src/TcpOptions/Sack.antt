-- ===== src/TcpOptions/Sack.antt =====
-- `offset_sack_blocks`: its arithmetic is undone by the opposite offset, and its writes are not
-- bounded by the end of the options.
use packetdrill.Base.{
  ℕ, zero, suc, ◌+◌, ◌-◌, ◌*◌, ◌/◌, ◌%◌, ◌^◌, ◌≤◌, ◌<◌, ◌≡◌, refl, true, false, Option, some, none,
  List, [], ◌∷◌, ◌++◌, arith, be32, be32_bytes, u32, IsByte, All, ap, ◌∙◌, ltb, leb, ◌==◌,
}
use packetdrill.TcpOptions.{
  ok, data_too_far, tcpopt_sack, num_sack_blocks, option_length, get_tcp_option_length,
  get_expected_tcp_option_length,
}
use packetdrill.TcpOptions.Loops.{failed, offset_words, offset_option, offset_sack_blocks}

u32_undo : (w k : ℕ) → w < 2 ^ 32 → k < 2 ^ 32 → u32 (u32 (w + k) + u32 (2 ^ 32 - k)) ≡ w
u32_undo w k hw hk = omega arith

be32-be32_bytes :
    (v : ℕ)
    → v < 2 ^ 32
    → be32 (v / 2 ^ 24 % 256) (v / 2 ^ 16 % 256) (v / 2 ^ 8 % 256) (v % 256) ≡ v
be32-be32_bytes v h = omega arith

be32_bytes-be32 :
    (a b c d : ℕ)
    → IsByte a
    → IsByte b
    → IsByte c
    → IsByte d
    → be32_bytes (be32 a b c d) ≡ a ∷ b ∷ c ∷ d ∷ []
be32_bytes-be32 a b c d ha hb hc hd =
    let ea : be32 a b c d / 2 ^ 24 % 256 ≡ a = omega arith in
    let eb : be32 a b c d / 2 ^ 16 % 256 ≡ b = omega arith in
    let ec : be32 a b c d / 2 ^ 8 % 256 ≡ c = omega arith in
    let ed : be32 a b c d % 256 ≡ d = omega arith in rw (ea, eb, ec, ed) refl

be32_bytes-undo :
    (a b c d k : ℕ)
    → IsByte a
    → IsByte b
    → IsByte c
    → IsByte d
    → k < 2 ^ 32
    → be32_bytes (u32 (u32 (be32 a b c d + k) + u32 (2 ^ 32 - k))) ≡ a ∷ b ∷ c ∷ d ∷ []
be32_bytes-undo a b c d k ha hb hc hd hk =
    rw (u32_undo (be32 a b c d) k (omega arith) hk) (be32_bytes-be32 a b c d ha hb hc hd)

offset_words-step :
    (word moved : List ℕ) (o : Option (List ℕ))
    → elim o [ none ↦ none | some rest ↦ some (word ++ rest) ] ≡ some moved
    → (rest : List ℕ) × (o ≡ some rest) × (moved ≡ word ++ rest)
offset_words-step word moved none e = cc
offset_words-step word moved (some rest) e = (rest, refl, cc)

-- The words that `offset_words` has moved by an offset are moved back by the opposite offset.
offset_words-undo :
    (n ack_offset : ℕ) (bytes moved : List ℕ)
    → All IsByte bytes
    → ack_offset < 2 ^ 32
    → offset_words n ack_offset bytes ≡ some moved
    → offset_words n (u32 (2 ^ 32 - ack_offset)) moved ≡ some bytes
unfolding offset_words
offset_words-undo zero k bytes moved hb hk e = cc
offset_words-undo (suc n) k [] moved hb hk e = cc
offset_words-undo (suc n) k (a ∷ []) moved hb hk e = cc
offset_words-undo (suc n) k (a ∷ b ∷ []) moved hb hk e = cc
offset_words-undo (suc n) k (a ∷ b ∷ c ∷ []) moved hb hk e = cc
offset_words-undo (suc n) k (a ∷ b ∷ c ∷ d ∷ bytes) moved h hk e =
    let undone : be32_bytes (u32 (u32 (be32 a b c d + k) + u32 (2 ^ 32 - k))) ≡ a ∷ b ∷ c ∷ d ∷ [] =
      be32_bytes-undo a b c d k h.0 h.1.0 h.1.1.0 h.1.1.1.0 hk in
    let (rest, eq, moved_rest) =
      offset_words-step (be32_bytes (u32 (be32 a b c d + k))) moved (offset_words n k bytes) e in
    rw (moved_rest, offset_words-undo n k bytes rest h.1.1.1.1 hk eq)
      (ap (λ ys. some (ys ++ bytes))
        (ap (λ v. be32_bytes (u32 (v + u32 (2 ^ 32 - k))))
            (be32-be32_bytes (u32 (be32 a b c d + k)) (omega arith))
          ∙ undone))

-- If the option at hand is a SACK option whose length byte announces more bytes than the options
-- have left, and the announced blocks are whole, then the blocks are moved before the length is
-- compared with the end of the options: the error comes with the memory behind the options
-- changed as far as the announced blocks reach.
pub offset_sack_blocks_overrun :
    (ack_offset fuel left size blocks : ℕ) (bytes moved : List ℕ)
    → 2 ≤ left
    → left < size
    → num_sack_blocks size ≡ ok blocks
    → offset_words (2 * blocks) ack_offset bytes ≡ some moved
    → offset_sack_blocks ack_offset (suc fuel) (tcpopt_sack ∷ size ∷ bytes) left
      ≡ failed data_too_far (tcpopt_sack ∷ size ∷ moved)
unfolding offset_sack_blocks offset_option option_length get_expected_tcp_option_length
    get_tcp_option_length
offset_sack_blocks_overrun k fuel left size blocks bytes moved h2 hs eb ew =
    let nonzero : (left == 0) ≡ false = ground arith in
    let longer : leb left 1 ≡ false = ground arith in
    let sized : ltb size 2 ≡ false = ground arith in
    let beyond : ltb left size ≡ true = ground arith in
    rw (nonzero, eb, ew, longer, sized, beyond) refl
