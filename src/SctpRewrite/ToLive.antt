-- ===== src/SctpRewrite/ToLive.antt =====
-- `map_inbound_sctp_packet` translates the numbers of the chunks, and sets the verification tag.
use packetdrill.Base.{
  ℕ, suc, ◌+◌, ◌-◌, ◌≡◌, refl, ◌∙◌, Bool, true, false, List, [], ◌∷◌, ◌++◌, length, map, arith, All,
  if◌then◌else◌, ◌||◌,
}
use packetdrill.Sctp.{sctp_chunks_begin}
use packetdrill.Connect.{TestSocket}
use packetdrill.SctpRewrite.{done}
use packetdrill.SctpRewrite.Layout.{Layout, all_bytes, IsWhole, with_flags, any, reflects, is_init}
use packetdrill.SctpRewrite.Chunks.{items_loop_chunks, all_kept, length-all_bytes}
use packetdrill.SctpRewrite.Whole.{chunk_bytes-translated, translated-IsWhole}
use packetdrill.SctpRewrite.Inbound.{
  remote_to_live, local_to_live, TagFlags, inbound_chunk, inbound_v_tag, SctpView, no_tag_flags,
  inbound_chunks, map_inbound_sctp_packet,
}
use packetdrill.SctpRewrite.Numbers.{HasWords, sent_by_peer, translated-sent_by_peer}
use packetdrill.SctpRewrite.InboundChunk.{to_live, chunk_turns}

or_swap : (a b c : Bool) → (a || (b || c)) ≡ ((b || a) || c)
or_swap true true c = refl
or_swap true false c = refl
or_swap false true c = refl
or_swap false false c = refl

-- The flags behind the loop.
any_flags :
    (cs : List Layout) (flags : TagFlags)
    → all_kept with_flags cs flags ≡ record {
      reflect_v_tag = any reflects cs || flags.reflect_v_tag;
      contains_init_chunk = any is_init cs || flags.contains_init_chunk;
    }
any_flags [] flags = refl
any_flags (c ∷ cs) flags =
    any_flags cs (with_flags c flags)
    ∙ rw
        (
          or_swap (any reflects cs) (reflects c) flags.reflect_v_tag,
          or_swap (any is_init cs) (is_init c) flags.contains_init_chunk,
        )
        refl

or_false : (b : Bool) → (b || false) ≡ b
or_false true = refl
or_false false = refl

-- A packet of whole chunks behind `pre`, for which the script gives no verification tag.
abbrev pub packet_of : List ℕ → List Layout → ℕ → SctpView
packet_of pre cs v_tag = record {
  is_generic = false;
  explicit_tag = false;
  v_tag = v_tag;
  memory = pre ++ all_bytes cs;
  payload = length pre;
  packet_end = length pre + length (all_bytes cs);
}

-- The tag that the live peer expects.
abbrev pub tag_of : TestSocket → List Layout → ℕ
tag_of socket cs =
    if any is_init cs
    then 0
    else (if any reflects cs
        then socket.live.remote_initiate_tag
        else socket.live.local_initiate_tag)

-- `map_inbound_sctp_packet` on a packet of whole chunks, of the layouts DATA, I-DATA, SHUTDOWN,
-- ECNE, CWR, FORWARD-TSN, I-FORWARD-TSN, SACK, INIT, INIT ACK and those without numbers (so not
-- NR-SACK and RE-CONFIG), returns: every TSN of the peer's data becomes the number as far behind
-- the live initial TSN as it is behind the script's, every TSN that acknowledges, SACK's
-- duplicates included, likewise on the local side, the script's own tag in an INIT becomes the
-- live one, and all else stays. Where the script gives no verification tag, it is 0 for an INIT,
-- the peer's if a chunk has the T bit, and else the local one. The numbers of the socket have 32
-- bits.
pub map_inbound_sctp_packet_lem :
    (socket : TestSocket) (pre : List ℕ) (cs : List Layout) (v_tag : ℕ)
    → HasWords socket
    → All IsWhole cs
    → map_inbound_sctp_packet socket (packet_of pre cs v_tag)
      ≡ done (record (packet_of pre (map (sent_by_peer socket) cs) (tag_of socket cs)) {
        packet_end = length pre + length (all_bytes cs);
      })
unfolding map_inbound_sctp_packet inbound_chunks sctp_chunks_begin inbound_v_tag
map_inbound_sctp_packet_lem socket pre cs v_tag words ws =
    let fuel = suc (length pre + length (all_bytes cs) - length pre) in
    let fit = length-all_bytes cs ws in
    let behind_loop =
      items_loop_chunks (λ m kept. done (m, kept)) (inbound_chunk socket) (to_live socket)
        with_flags (λ c pre more flags w. chunk_turns socket c pre more flags w)
        (λ c w.
          translated-IsWhole (remote_to_live socket) (local_to_live socket)
            socket.script.local_initiate_tag socket.live.local_initiate_tag c words.live_tag w)
        (chunk_bytes-translated (remote_to_live socket) (local_to_live socket)
          socket.script.local_initiate_tag socket.live.local_initiate_tag)
        cs fuel pre (length pre + length (all_bytes cs)) no_tag_flags ws (omega arith) refl in
    rw
      (
        behind_loop,
        translated-sent_by_peer socket words cs,
        any_flags cs no_tag_flags,
        or_false (any reflects cs),
        or_false (any is_init cs),
      )
      refl
