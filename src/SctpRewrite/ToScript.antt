-- ===== src/SctpRewrite/ToScript.antt =====
-- `map_outbound_live_sctp_packet` takes the live numbers of a packet back to the script's.
use packetdrill.Base.{
  ℕ, suc, ◌+◌, ◌-◌, ◌^◌, ◌<◌, ◌≡◌, ◌≢◌, ◌⊎◌, refl, ap, ap₂, ◌∙◌, Bool, true, false, List, [], ◌∷◌,
  ◌++◌, length, map, arith, All, ◌==◌, if◌then◌else◌, u32,
}
use packetdrill.Sctp.{sctp_chunks_begin}
use packetdrill.Connect.{TestSocket}
use packetdrill.SctpRewrite.{done, failed, difference}
use packetdrill.SctpRewrite.Layout.{Layout, numbered, plain, sack, init, all_bytes, IsWhole, is_own}
use packetdrill.SctpRewrite.Chunks.{items_loop_chunks, length-all_bytes}
use packetdrill.SctpRewrite.Whole.{chunk_bytes-translated, translated-IsWhole}
use packetdrill.SctpRewrite.Numbers.{
  HasWords, rebased, remote_live, local_live, sent_for, sent_for-IsWhole,
}
use packetdrill.SctpRewrite.Outbound.{
  remote_to_script, local_to_script, outbound_chunk, map_outbound_live_sctp_packet,
}
use packetdrill.SctpRewrite.OutboundChunk.{to_script, chunk_turns}

map_outbound_live_sctp_packet_lem :
    (socket : TestSocket) (pre : List ℕ) (cs : List Layout)
    → socket.script.local_initiate_tag < 2 ^ 32
    → All IsWhole cs
    → map_outbound_live_sctp_packet socket
        (length pre)
        (length pre + length (all_bytes cs))
        (pre ++ all_bytes cs)
      ≡ done (pre ++ all_bytes (map (to_script socket) cs))
unfolding map_outbound_live_sctp_packet sctp_chunks_begin
map_outbound_live_sctp_packet_lem socket pre cs small ws =
    let fuel = suc (length pre + length (all_bytes cs) - length pre) in
    let fit = length-all_bytes cs ws in
    rw
      (items_loop_chunks (λ m kept. failed) (outbound_chunk socket) (to_script socket)
        (λ c kept. kept) (λ c pre more kept w. chunk_turns socket c pre more w)
        (λ c w.
          translated-IsWhole (local_to_script socket) (remote_to_script socket)
            socket.live.local_initiate_tag socket.script.local_initiate_tag c small w)
        (chunk_bytes-translated (local_to_script socket) (remote_to_script socket)
          socket.live.local_initiate_tag socket.script.local_initiate_tag)
        cs fuel pre (length pre + length (all_bytes cs)) tt ws (omega arith) refl)
      refl

-- The tag of an INIT or an INIT ACK is the script's own, or is not the live one.
abbrev pub IsApart : TestSocket → Layout → Type 0
IsApart socket (numbered k f n tsn rest) = Unit
IsApart socket (plain k f n rest) = Unit
IsApart socket (sack f cum_tsn a_rwnd gaps dups) = Unit
IsApart socket (init is_ack f n tag a_rwnd streams tsn rest) =
    (tag ≡ socket.script.local_initiate_tag) ⊎ (tag ≢ socket.live.local_initiate_tag)

there_and_back :
    (x a b : ℕ) → x < 2 ^ 32 → a < 2 ^ 32 → b < 2 ^ 32 → u32 (rebased b a x + difference b a) ≡ x
there_and_back x a b hx ha hb = omega arith

tag_back :
    (tag script live : ℕ)
    → (tag ≡ script) ⊎ (tag ≢ live)
    → (if (if tag == script then live else tag) == live
        then script
        else (if tag == script then live else tag))
      ≡ tag
tag_back tag script live h = ground arith

to_script-sent_for :
    (socket : TestSocket) (c : Layout)
    → HasWords socket
    → IsWhole c
    → IsApart socket c
    → to_script socket (sent_for socket c) ≡ c
to_script-sent_for socket (numbered k f n tsn rest) s (h, l, b, e) u =
    ap (λ v. numbered k f n v rest) (back (is_own k))
  where
    back :
        (b : Bool)
        → u32 (
            (if b then local_live socket tsn else remote_live socket tsn)
            + (if b then local_to_script socket else remote_to_script socket))
          ≡ tsn
    back true = there_and_back tsn _ _ h s.live_local s.script_local
    back false = there_and_back tsn _ _ h s.live_remote s.script_remote
to_script-sent_for socket (plain k f n rest) s w u = refl
to_script-sent_for socket (sack f cum_tsn a_rwnd gaps dups) s (h, l, hs) u =
    ap₂ (λ v vs. sack f v a_rwnd gaps vs)
      (there_and_back cum_tsn _ _ h s.live_remote s.script_remote) (back dups hs)
  where
    back :
        (vs : List ℕ)
        → All (λ v. v < 2 ^ 32) vs
        → map (λ v. u32 (v + remote_to_script socket)) (map (remote_live socket) vs) ≡ vs
    back [] h = refl
    back (v ∷ vs) (h, hs) =
        ap₂ (λ x xs. x ∷ xs) (there_and_back v _ _ h s.live_remote s.script_remote) (back vs hs)
to_script-sent_for socket (init is_ack f n tag a_rwnd streams tsn rest) s (h, k, l, b, e) u =
    ap₂ (λ v w. init is_ack f n v a_rwnd streams w rest)
      (tag_back tag socket.script.local_initiate_tag socket.live.local_initiate_tag u)
      (there_and_back tsn _ _ h s.live_local s.script_local)

sent_back :
    (socket : TestSocket) (cs : List Layout)
    → HasWords socket
    → All IsWhole cs
    → All (IsApart socket) cs
    → map (to_script socket) (map (sent_for socket) cs) ≡ cs
sent_back socket [] s w u = refl
sent_back socket (c ∷ cs) s (w, ws) (u, us) =
    ap₂ (λ x xs. x ∷ xs) (to_script-sent_for socket c s w u) (sent_back socket cs s ws us)

sent-IsWhole :
    (socket : TestSocket) (cs : List Layout)
    → HasWords socket
    → All IsWhole cs
    → All IsWhole (map (sent_for socket) cs)
sent-IsWhole socket [] s w = tt
sent-IsWhole socket (c ∷ cs) s (w, ws) =
    (sent_for-IsWhole socket s c w, sent-IsWhole socket cs s ws)

-- Where the local side sends whole chunks of the script, of all layouts but NR-SACK and RE-CONFIG, in
-- its live numbers (its own TSNs as far behind the live initial TSN as the script's are behind the
-- script's, those it acknowledges likewise on the remote side, its tag the live one),
-- `map_outbound_live_sctp_packet` returns, and the memory then holds the script's chunks.
-- The numbers of the socket have 32 bits, and no tag of an INIT or an INIT ACK may be the live one
-- unless it is the script's.
pub map_outbound-sent_for :
    (socket : TestSocket) (pre : List ℕ) (cs : List Layout)
    → HasWords socket
    → All IsWhole cs
    → All (IsApart socket) cs
    → map_outbound_live_sctp_packet socket
        (length pre)
        (length pre + length (all_bytes (map (sent_for socket) cs)))
        (pre ++ all_bytes (map (sent_for socket) cs))
      ≡ done (pre ++ all_bytes cs)
map_outbound-sent_for socket pre cs s ws us =
    map_outbound_live_sctp_packet_lem socket pre (map (sent_for socket) cs) s.script_tag
      (sent-IsWhole socket cs s ws)
    ∙ ap (λ l. done (pre ++ all_bytes l)) (sent_back socket cs s ws us)
