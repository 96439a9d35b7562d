-- ===== src/Tests/SctpRewriting.antt =====
-- The rewriting of SCTP packets at concrete inputs.
use packetdrill.Base.{ℕ, ◌+◌, ◌≡◌, inl, refl, false, List, [], ◌∷◌, ◌++◌, length, map, All, arith}
use packetdrill.Connect.{TestSocket, socket_new}
use packetdrill.SctpRewrite.{done, bad_access}
use packetdrill.SctpRewrite.Layout.{
  Layout, numbered, plain, sack, init, data_, cookie_ack, all_bytes, IsWhole,
}
use packetdrill.SctpRewrite.Inbound.{map_inbound_sctp_packet, inbound_nr_sack}
use packetdrill.SctpRewrite.Outbound.{map_outbound_live_sctp_packet}
use packetdrill.SctpRewrite.Numbers.{HasWords, sent_by_peer, sent_for}
use packetdrill.SctpRewrite.ToLive.{packet_of, tag_of, map_inbound_sctp_packet_lem}
use packetdrill.SctpRewrite.ToScript.{IsApart, map_outbound-sent_for}
use packetdrill.SctpRewrite.Faults.{
  nr_sack_bytes, nr_sack_length, inbound_nr_sack_keeps_dups, sack_start, map_outbound_overrun,
}

abbrev peer : TestSocket
peer =
    let script = record (socket_new.script) {
      local_initial_tsn = 1000;
      remote_initial_tsn = 2000;
      local_initiate_tag = 5;
      remote_initiate_tag = 6;
    } in
    let live = record (socket_new.live) {
      local_initial_tsn = 7;
      remote_initial_tsn = 4294967290;
      local_initiate_tag = 77;
      remote_initiate_tag = 88;
    } in
    record socket_new { script = script; live = live }

-- A SACK, a DATA chunk with three bytes of user data, and a COOKIE ACK.
abbrev three_chunks : List Layout
three_chunks =
    sack 0 1003 1500 (131075 ∷ []) (1001 ∷ 1002 ∷ [])
    ∷ numbered data_ 3 19 2000 (0 ∷ 1 ∷ 0 ∷ 0 ∷ 0 ∷ 0 ∷ 0 ∷ 0 ∷ 97 ∷ 98 ∷ 99 ∷ 0 ∷ [])
    ∷ plain cookie_ack 0 4 []
    ∷ []

abbrev init_chunk : List Layout
init_chunk = init false 0 20 5 1500 65537 1000 [] ∷ []

abbrev front : List ℕ
front = 1 ∷ 2 ∷ 3 ∷ []

three_chunks-IsWhole : All IsWhole three_chunks
three_chunks-IsWhole = omega arith

peer-HasWords : HasWords peer
peer-HasWords = record {
  script_local = omega arith;
  script_remote = omega arith;
  live_local = omega arith;
  live_remote = omega arith;
  script_tag = omega arith;
  live_tag = omega arith;
}

map_inbound_sctp_packet_lem_example :
    map_inbound_sctp_packet peer (packet_of front three_chunks 0)
    ≡ done
        (record (packet_of front
          (map (sent_by_peer peer) three_chunks)
          (tag_of peer three_chunks)) {
            packet_end = length front + length (all_bytes three_chunks);
          })
map_inbound_sctp_packet_lem_example =
    map_inbound_sctp_packet_lem peer front three_chunks 0 peer-HasWords three_chunks-IsWhole

init_chunk-IsWhole : All IsWhole init_chunk
init_chunk-IsWhole = omega arith

init_chunk-IsApart : All (IsApart peer) init_chunk
init_chunk-IsApart = (inl refl, tt)

map_outbound-sent_for_example :
    map_outbound_live_sctp_packet peer
      (length front)
      (length front + length (all_bytes (map (sent_for peer) init_chunk)))
      (front ++ all_bytes (map (sent_for peer) init_chunk))
    ≡ done (front ++ all_bytes init_chunk)
map_outbound-sent_for_example =
    map_outbound-sent_for peer front init_chunk peer-HasWords init_chunk-IsWhole init_chunk-IsApart

inbound_nr_sack_keeps_dups_example :
    inbound_nr_sack peer
      (length front)
      (nr_sack_length [] (65537 ∷ []) (1001 ∷ []))
      (front ++ (nr_sack_bytes 0 1000 1500 [] (65537 ∷ []) (1001 ∷ []) ++ []))
    ≡ done (front ++ (nr_sack_bytes 0 7 1500 [] (65537 ∷ []) (1001 ∷ []) ++ []))
inbound_nr_sack_keeps_dups_example =
    inbound_nr_sack_keeps_dups peer front [] 0 1000 1500 65537 [] [] (1001 ∷ []) (omega arith)
      (omega arith)

map_outbound_overrun_example :
    map_outbound_live_sctp_packet peer
      (length front)
      (length front + (16 + length {A = ℕ} []))
      (front ++ sack_start 0 16 2000 1500 0 1 [])
    ≡ bad_access
map_outbound_overrun_example =
    map_outbound_overrun peer front [] 0 16 2000 1500 0 0 (omega arith) (omega arith) (omega arith)
      (omega arith) (omega arith) (omega arith) (omega arith)
