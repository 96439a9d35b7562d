-- ===== src/SctpRewrite/InboundChunk.antt =====
-- What the inbound rewriting makes of one chunk.
use packetdrill.Base.{
  ℕ, ◌+◌, ◌*◌, ◌%◌, ◌^◌, ◌<◌, ◌≤◌, ◌≡◌, refl, Bool, true, false, List, ◌++◌, length, arith, All,
  ◌==◌, leb, if◌then◌else◌, be32_bytes, be16_bytes, u32, get_elem?, ◌||◌,
}
use packetdrill.SctpMatch.Packet.{chunk_type}
use packetdrill.Connect.{TestSocket}
use packetdrill.SctpRewrite.{Rewrite, done, ◌>>=◌, access}
use packetdrill.SctpRewrite.Layout.{
  Layout, numbered, plain, sack, init, Numbered, data_, shutdown, ecne, cwr, i_data, forward_tsn,
  i_forward_tsn, Plain, heartbeat, heartbeat_ack, abort, shutdown_ack, error, cookie_echo,
  cookie_ack, shutdown_complete, pad, header, words, sack_length, bytes_of, chunk_bytes, IsWhole,
  translated, with_flags, code, plain_code, least,
}
use packetdrill.SctpRewrite.Edits.{get_elem?_behind, item_length_behind}
use packetdrill.SctpRewrite.Chunks.{item_length-bytes_of, length-map}
use packetdrill.SctpRewrite.Fields.{
  block_counts, head_behind, translate_first, edit_init, edit_dups,
}
use packetdrill.SctpRewrite.Inbound.{
  remote_to_live, local_to_live, TagFlags, inbound_chunk, inbound_by_type, inbound_init,
  inbound_sack, reflect_on_t_bit,
}

-- The chunk in live numbers.
abbrev pub to_live : TestSocket → Layout → Layout
to_live socket =
    translated (remote_to_live socket) (local_to_live socket) socket.script.local_initiate_tag
      socket.live.local_initiate_tag

module _ (socket : TestSocket) (pre more : List ℕ) (flags : TagFlags) where
  numbered_turns :
      (k : Numbered) (f n tsn : ℕ) (rest : List ℕ)
      → tsn < 2 ^ 32
      → least k ≤ n
      → inbound_by_type socket
          (chunk_type (code k))
          (length pre)
          n
          (pre ++ (bytes_of (numbered k f n tsn rest) ++ more))
          flags
        ≡ done (pre ++ (bytes_of (to_live socket (numbered k f n tsn rest)) ++ more), flags)
  unfolding inbound_by_type chunk_type
  numbered_turns data_ f n tsn rest h l =
      let test : leb 16 n ≡ true = ground arith in
      rw (test, translate_first pre more 0x00 f n tsn (remote_to_live socket) rest h) refl
  numbered_turns shutdown f n tsn rest h l =
      let test : leb 8 n ≡ true = ground arith in
      rw (test, translate_first pre more 0x07 f n tsn (local_to_live socket) rest h) refl
  numbered_turns ecne f n tsn rest h l =
      let test : leb 8 n ≡ true = ground arith in
      rw (test, translate_first pre more 0x0c f n tsn (local_to_live socket) rest h) refl
  numbered_turns cwr f n tsn rest h l =
      let test : leb 8 n ≡ true = ground arith in
      rw (test, translate_first pre more 0x0d f n tsn (local_to_live socket) rest h) refl
  numbered_turns i_data f n tsn rest h l =
      let test : leb 20 n ≡ true = ground arith in
      rw (test, translate_first pre more 0x40 f n tsn (remote_to_live socket) rest h) refl
  numbered_turns forward_tsn f n tsn rest h l =
      let test : leb 8 n ≡ true = ground arith in
      rw (test, translate_first pre more 0xc0 f n tsn (remote_to_live socket) rest h) refl
  numbered_turns i_forward_tsn f n tsn rest h l =
      let test : leb 8 n ≡ true = ground arith in
      rw (test, translate_first pre more 0xc2 f n tsn (remote_to_live socket) rest h) refl

  t_bit_turns :
      (t f n : ℕ) (rest : List ℕ)
      → reflect_on_t_bit (length pre) (pre ++ (header t f n rest ++ more)) flags
        ≡ done (
          pre ++ (header t f n rest ++ more),
          record flags { reflect_v_tag = (f % 2 == 1) || flags.reflect_v_tag },
        )
  unfolding reflect_on_t_bit
  t_bit_turns t f n rest =
      rw (get_elem?_behind pre (header t f n rest ++ more) 1) (kept (f % 2 == 1))
    where
      kept :
          (b : Bool)
          → ◌≡◌ {A = Rewrite (List ℕ × TagFlags)}
              (done (
                pre ++ (header t f n rest ++ more),
                (if b then record flags { reflect_v_tag = true } else flags),
              ))
              (done (
                pre ++ (header t f n rest ++ more),
                record flags { reflect_v_tag = b || flags.reflect_v_tag },
              ))
      kept true = refl
      kept false = refl

  plain_turns :
      (k : Plain) (f n : ℕ) (rest : List ℕ)
      → 4 ≤ n
      → inbound_by_type socket
          (chunk_type (plain_code k))
          (length pre)
          n
          (pre ++ (bytes_of (plain k f n rest) ++ more))
          flags
        ≡ done (pre ++ (bytes_of (plain k f n rest) ++ more), with_flags (plain k f n rest) flags)
  unfolding inbound_by_type chunk_type
  plain_turns abort f n rest h =
      let test : leb 4 n ≡ true = ground arith in rw test (t_bit_turns 0x06 f n rest)
  plain_turns shutdown_complete f n rest h =
      let test : leb 4 n ≡ true = ground arith in rw test (t_bit_turns 0x0e f n rest)
  plain_turns heartbeat f n rest h = refl
  plain_turns heartbeat_ack f n rest h = refl
  plain_turns shutdown_ack f n rest h = refl
  plain_turns error f n rest h = refl
  plain_turns cookie_echo f n rest h = refl
  plain_turns cookie_ack f n rest h = refl
  plain_turns pad f n rest h = refl

  init_turns :
      (is_ack : Bool) (f n tag a_rwnd streams tsn : ℕ) (rest : List ℕ)
      → tsn < 2 ^ 32
      → tag < 2 ^ 32
      → 20 ≤ n
      → inbound_by_type socket
          (chunk_type (if is_ack then 0x02 else 0x01))
          (length pre)
          n
          (pre ++ (bytes_of (init is_ack f n tag a_rwnd streams tsn rest) ++ more))
          flags
        ≡ done (
          pre ++ (bytes_of (to_live socket (init is_ack f n tag a_rwnd streams tsn rest)) ++ more),
          with_flags (init is_ack f n tag a_rwnd streams tsn rest) flags,
        )
  unfolding inbound_by_type chunk_type inbound_init
  init_turns true f n tag a_rwnd streams tsn rest h k l =
      let test : leb 20 n ≡ true = ground arith in
      rw
        (
          test,
          edit_init pre more true f n tag a_rwnd streams tsn rest (remote_to_live socket)
              socket.script.local_initiate_tag socket.live.local_initiate_tag h k,
        )
        refl
  init_turns false f n tag a_rwnd streams tsn rest h k l =
      let test : leb 20 n ≡ true = ground arith in
      rw
        (
          test,
          edit_init pre more false f n tag a_rwnd streams tsn rest (remote_to_live socket)
              socket.script.local_initiate_tag socket.live.local_initiate_tag h k,
        )
        refl

  sack_turns :
      (f cum_tsn a_rwnd : ℕ) (gaps dups : List ℕ)
      → cum_tsn < 2 ^ 32
      → sack_length gaps dups < 2 ^ 16
      → All (λ v. v < 2 ^ 32) dups
      → inbound_by_type socket
          (chunk_type 0x03)
          (length pre)
          (sack_length gaps dups)
          (pre ++ (bytes_of (sack f cum_tsn a_rwnd gaps dups) ++ more))
          flags
        ≡ done (pre ++ (bytes_of (to_live socket (sack f cum_tsn a_rwnd gaps dups)) ++ more), flags)
  unfolding inbound_by_type chunk_type inbound_sack
  sack_turns f cum_tsn a_rwnd gaps dups h l hs =
      let n = sack_length gaps dups in
      let diff = local_to_live socket in
      let test : leb 16 n ≡ true = ground arith in
      let same : (n == 16 + 4 * (length dups + length gaps)) ≡ true = ground arith in
      let rest : List ℕ =
        be32_bytes a_rwnd
        ++ be16_bytes (length gaps)
        ++ be16_bytes (length dups)
        ++ words gaps
        ++ words dups in
      let counts =
        block_counts pre more 0x03 f n (u32 (cum_tsn + diff)) a_rwnd (length gaps) (length dups)
          (words gaps ++ words dups) (omega arith) (omega arith) in
      rw
        (
          test,
          translate_first pre more 0x03 f n cum_tsn diff rest h,
          counts.0,
          counts.1,
          same,
          edit_dups pre more f (u32 (cum_tsn + diff)) a_rwnd gaps dups n diff hs,
          length-map (λ v. u32 (v + diff)) dups,
        )
        refl

pub chunk_turns :
    (socket : TestSocket) (c : Layout) (pre more : List ℕ) (flags : TagFlags)
    → IsWhole c
    → inbound_chunk socket (length pre) (pre ++ (bytes_of c ++ more)) flags
      ≡ done (pre ++ (bytes_of (to_live socket c) ++ more), with_flags c flags)
unfolding inbound_chunk
chunk_turns socket c pre more flags w =
    rw
      (
        head_behind pre (bytes_of c ++ more),
        item_length_behind pre (bytes_of c ++ more),
        item_length-bytes_of c more w,
      )
      (by_layout c w)
  where
    by_layout :
        (c : Layout)
        → IsWhole c
        → (access (get_elem? (bytes_of c ++ more) 0) >>= λ t.
            inbound_by_type socket
              (chunk_type t)
              (length pre)
              (chunk_bytes c)
              (pre ++ (bytes_of c ++ more))
              flags)
          ≡ done (pre ++ (bytes_of (to_live socket c) ++ more), with_flags c flags)
    by_layout (numbered k f n tsn rest) (h, l, b, e) =
        numbered_turns socket pre more flags k f n tsn rest h l
    by_layout (plain k f n rest) (h, b, e) = plain_turns socket pre more flags k f n rest h
    by_layout (sack f cum_tsn a_rwnd gaps dups) (h, l, hs) =
        sack_turns socket pre more flags f cum_tsn a_rwnd gaps dups h l hs
    by_layout (init is_ack f n tag a_rwnd streams tsn rest) (h, k, l, b, e) =
        init_turns socket pre more flags is_ack f n tag a_rwnd streams tsn rest h k l
