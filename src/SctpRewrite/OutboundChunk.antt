-- ===== src/SctpRewrite/OutboundChunk.antt =====
-- What the outbound rewriting makes of one chunk.
use packetdrill.Base.{
  ℕ, ◌+◌, ◌^◌, ◌<◌, ◌≡◌, refl, ap, Bool, true, false, List, ◌++◌, length, arith, All, if◌then◌else◌,
  be32_bytes, be16_bytes, u32, get_elem?,
}
use packetdrill.SctpMatch.Packet.{chunk_type}
use packetdrill.Connect.{TestSocket}
use packetdrill.SctpRewrite.{Rewrite, done, ◌>>=◌, access}
use packetdrill.SctpRewrite.Layout.{
  Layout, numbered, plain, sack, init, Numbered, data_, shutdown, ecne, cwr, i_data, forward_tsn,
  i_forward_tsn, Plain, heartbeat, heartbeat_ack, abort, shutdown_ack, error, cookie_echo,
  cookie_ack, shutdown_complete, pad, words, sack_length, bytes_of, chunk_bytes, IsWhole,
  translated, code, plain_code,
}
use packetdrill.SctpRewrite.Edits.{item_length_behind}
use packetdrill.SctpRewrite.Chunks.{item_length-bytes_of, length-map}
use packetdrill.SctpRewrite.Fields.{
  block_counts, head_behind, translate_first, edit_init, edit_dups,
}
use packetdrill.SctpRewrite.Outbound.{
  remote_to_script, local_to_script, outbound_chunk, outbound_by_type, outbound_init, outbound_sack,
}

-- The chunk in the script's numbers.
abbrev pub to_script : TestSocket → Layout → Layout
to_script socket =
    translated (local_to_script socket) (remote_to_script socket) socket.live.local_initiate_tag
      socket.script.local_initiate_tag

module _ (socket : TestSocket) (pre more : List ℕ) where
  numbered_turns :
      (k : Numbered) (f n tsn : ℕ) (rest : List ℕ)
      → tsn < 2 ^ 32
      → outbound_by_type socket
          (chunk_type (code k))
          (length pre)
          n
          (pre ++ (bytes_of (numbered k f n tsn rest) ++ more))
        ≡ done (pre ++ (bytes_of (to_script socket (numbered k f n tsn rest)) ++ more))
  unfolding outbound_by_type chunk_type
  numbered_turns data_ f n tsn rest h =
      translate_first pre more 0x00 f n tsn (local_to_script socket) rest h
  numbered_turns shutdown f n tsn rest h =
      translate_first pre more 0x07 f n tsn (remote_to_script socket) rest h
  numbered_turns ecne f n tsn rest h =
      translate_first pre more 0x0c f n tsn (remote_to_script socket) rest h
  numbered_turns cwr f n tsn rest h =
      translate_first pre more 0x0d f n tsn (remote_to_script socket) rest h
  numbered_turns i_data f n tsn rest h =
      translate_first pre more 0x40 f n tsn (local_to_script socket) rest h
  numbered_turns forward_tsn f n tsn rest h =
      translate_first pre more 0xc0 f n tsn (local_to_script socket) rest h
  numbered_turns i_forward_tsn f n tsn rest h =
      translate_first pre more 0xc2 f n tsn (local_to_script socket) rest h

  plain_turns :
      (k : Plain) (f n : ℕ) (rest : List ℕ)
      → outbound_by_type socket
          (chunk_type (plain_code k))
          (length pre)
          n
          (pre ++ (bytes_of (plain k f n rest) ++ more))
        ≡ done (pre ++ (bytes_of (plain k f n rest) ++ more))
  unfolding outbound_by_type chunk_type
  plain_turns abort f n rest = refl
  plain_turns shutdown_complete f n rest = refl
  plain_turns heartbeat f n rest = refl
  plain_turns heartbeat_ack f n rest = refl
  plain_turns shutdown_ack f n rest = refl
  plain_turns error f n rest = refl
  plain_turns cookie_echo f n rest = refl
  plain_turns cookie_ack f n rest = refl
  plain_turns pad f n rest = refl

  init_turns :
      (is_ack : Bool) (f n tag a_rwnd streams tsn : ℕ) (rest : List ℕ)
      → tsn < 2 ^ 32
      → tag < 2 ^ 32
      → outbound_by_type socket
          (chunk_type (if is_ack then 0x02 else 0x01))
          (length pre)
          n
          (pre ++ (bytes_of (init is_ack f n tag a_rwnd streams tsn rest) ++ more))
        ≡ done (
            pre
            ++ (bytes_of (to_script socket (init is_ack f n tag a_rwnd streams tsn rest)) ++ more))
  unfolding outbound_by_type chunk_type outbound_init
  init_turns true f n tag a_rwnd streams tsn rest h k =
      edit_init pre more true f n tag a_rwnd streams tsn rest (local_to_script socket)
        socket.live.local_initiate_tag socket.script.local_initiate_tag h k
  init_turns false f n tag a_rwnd streams tsn rest h k =
      edit_init pre more false f n tag a_rwnd streams tsn rest (local_to_script socket)
        socket.live.local_initiate_tag socket.script.local_initiate_tag h k

  sack_turns :
      (f cum_tsn a_rwnd : ℕ) (gaps dups : List ℕ)
      → cum_tsn < 2 ^ 32
      → sack_length gaps dups < 2 ^ 16
      → All (λ v. v < 2 ^ 32) dups
      → outbound_by_type socket
          (chunk_type 0x03)
          (length pre)
          (sack_length gaps dups)
          (pre ++ (bytes_of (sack f cum_tsn a_rwnd gaps dups) ++ more))
        ≡ done (pre ++ (bytes_of (to_script socket (sack f cum_tsn a_rwnd gaps dups)) ++ more))
  unfolding outbound_by_type chunk_type outbound_sack
  sack_turns f cum_tsn a_rwnd gaps dups h l hs =
      let n = sack_length gaps dups in
      let diff = remote_to_script socket in
      let rest : List ℕ =
        be32_bytes a_rwnd
        ++ be16_bytes (length gaps)
        ++ be16_bytes (length dups)
        ++ words gaps
        ++ words dups in
      let counts =
        block_counts pre more 0x03 f n (u32 (cum_tsn + diff)) a_rwnd (length gaps) (length dups)
          (words gaps ++ words dups) (omega arith) (omega arith) in
      rw
        (
          translate_first pre more 0x03 f n cum_tsn diff rest h,
          counts.0,
          counts.1,
          edit_dups pre more f (u32 (cum_tsn + diff)) a_rwnd gaps dups n diff hs,
          length-map (λ v. u32 (v + diff)) dups,
        )
        refl

abbrev with_unit : Rewrite (List ℕ) → Rewrite (List ℕ × Unit {0})
with_unit r = r >>= λ memory. done (memory, tt)

pub chunk_turns :
    (socket : TestSocket) (c : Layout) (pre more : List ℕ)
    → IsWhole c
    → outbound_chunk socket (length pre) (pre ++ (bytes_of c ++ more)) tt
      ≡ done (pre ++ (bytes_of (to_script socket c) ++ more), tt)
unfolding outbound_chunk
chunk_turns socket c pre more w =
    rw
      (
        head_behind pre (bytes_of c ++ more),
        item_length_behind pre (bytes_of c ++ more),
        item_length-bytes_of c more w,
      )
      (by_layout c w)
  where
    by_layout :
        (c : Layout)
        → IsWhole c
        → (access (get_elem? (bytes_of c ++ more) 0) >>= λ t. with_unit (
            outbound_by_type socket
              (chunk_type t)
              (length pre)
              (chunk_bytes c)
              (pre ++ (bytes_of c ++ more))))
          ≡ done (pre ++ (bytes_of (to_script socket c) ++ more), tt)
    by_layout (numbered k f n tsn rest) (h, l, b, e) =
        ap with_unit (numbered_turns socket pre more k f n tsn rest h)
    by_layout (plain k f n rest) (h, b, e) = ap with_unit (plain_turns socket pre more k f n rest)
    by_layout (sack f cum_tsn a_rwnd gaps dups) (h, l, hs) =
        ap with_unit (sack_turns socket pre more f cum_tsn a_rwnd gaps dups h l hs)
    by_layout (init is_ack f n tag a_rwnd streams tsn rest) (h, k, l, b, e) =
        ap with_unit (init_turns socket pre more is_ack f n tag a_rwnd streams tsn rest h k)
