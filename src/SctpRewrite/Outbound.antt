-- ===== src/SctpRewrite/Outbound.antt =====
-- `map_outbound_live_sctp_packet` of gtests/net/packetdrill/run_packet.c: from the live numbers to
-- the script's. The lengths of the chunks are not compared with their types.
use packetdrill.Base.{
  ℕ, suc, ◌+◌, ◌-◌, ◌*◌, ◌^◌, ◌||◌, List, none, ◌==◌, ltb, if◌then◌else◌, get_elem?, u16,
}
use packetdrill.Sctp.{
  item_length, sctp_chunks_begin, sctp_chunks_next, sctp_parameters_begin, sctp_parameters_next,
}
use packetdrill.SctpMatch.Packet.{
  ChunkType, chunk_type, data_chunk, init_chunk, init_ack_chunk, sack_chunk, nr_sack_chunk,
  shutdown_chunk, ecne_chunk, cwr_chunk, i_data_chunk, reconfig_chunk, forward_tsn_chunk,
  i_forward_tsn_chunk,
}
use packetdrill.Connect.{TestSocket}
use packetdrill.SctpRewrite.{
  Rewrite, done, failed, ◌>>=◌, access, Edit, when, half, translate, replace_tag, translate_each,
  difference, items_loop,
}

abbrev pub remote_to_script : TestSocket → ℕ
remote_to_script socket = difference socket.script.remote_initial_tsn socket.live.remote_initial_tsn

abbrev pub local_to_script : TestSocket → ℕ
local_to_script socket = difference socket.script.local_initial_tsn socket.live.local_initial_tsn

-- The parameter at `p`, by its type and its length.
unfoldable pub outbound_parameter_by_type : TestSocket → ℕ → ℕ → ℕ → Edit
outbound_parameter_by_type socket p type_ length_ memory =
    let remote_diff = remote_to_script socket in
    let local_diff = local_to_script socket in
    if type_ == 0x0d
    then (translate (p + 4) local_diff memory
        >>= translate (p + 8) remote_diff
        >>= translate (p + 12) local_diff)
    else (if type_ == 0x10
        then (translate (p + 4) remote_diff memory
            >>= when (length_ == 20) (translate (p + 16) remote_diff)
            >>= when (length_ == 20) (translate (p + 12) local_diff))
        else (if (type_ == 0x0e) || (type_ == 0x0f) || (type_ == 0x11) || (type_ == 0x12)
            then translate (p + 4) local_diff memory
            else done memory))

unfoldable pub outbound_parameter : TestSocket → ℕ → List ℕ → Unit {0} → Rewrite (List ℕ × Unit {0})
outbound_parameter socket p memory kept = access (half memory p) >>= λ type_.
    access (half memory (p + 2)) >>= λ length_.
    outbound_parameter_by_type socket p type_ length_ memory >>= λ memory'. done (memory', tt)

unfoldable pub outbound_parameters : TestSocket → ℕ → ℕ → Edit
outbound_parameters socket p length_ memory =
    items_loop sctp_parameters_next (λ m kept. failed) (outbound_parameter socket) (suc length_)
      (sctp_parameters_begin memory p length_ none) memory tt
    >>= λ (memory', kept). done memory'

-- The test reads the length field without `ntohs`, so that its bytes are swapped.
unfoldable pub outbound_reconfig : TestSocket → ℕ → ℕ → Edit
outbound_reconfig socket p length_ memory = access (get_elem? memory (p + 2)) >>= λ low.
    access (get_elem? memory (p + 3)) >>= λ high.
    when (ltb 4 (low + high * 256))
      (outbound_parameters socket (p + 4) (u16 (length_ + 2 ^ 16 - 4))) memory

unfoldable pub outbound_init : TestSocket → ℕ → Edit
outbound_init socket p memory =
    translate (p + 16) (local_to_script socket) memory
    >>= replace_tag (p + 4) socket.live.local_initiate_tag socket.script.local_initiate_tag

unfoldable pub outbound_sack : TestSocket → ℕ → Edit
outbound_sack socket p memory = translate (p + 4) (remote_to_script socket) memory >>= λ memory'.
    access (half memory' (p + 12)) >>= λ nr_gap_blocks.
    access (half memory' (p + 14)) >>= λ nr_dup_tsns.
    translate_each nr_dup_tsns (p + 16 + 4 * nr_gap_blocks) (remote_to_script socket) memory'

unfoldable pub outbound_nr_sack : TestSocket → ℕ → Edit
outbound_nr_sack socket p memory = translate (p + 4) (remote_to_script socket) memory >>= λ memory'.
    access (half memory' (p + 12)) >>= λ nr_gap_blocks.
    access (half memory' (p + 14)) >>= λ number_of_nr_gap_blocks.
    access (half memory' (p + 16)) >>= λ nr_dup_tsns.
    translate_each nr_dup_tsns (p + 20 + 4 * u16 (nr_gap_blocks + number_of_nr_gap_blocks))
      (remote_to_script socket) memory'

-- The `switch` on the type of the chunk at `p`.
unfoldable pub outbound_by_type : TestSocket → ChunkType → ℕ → ℕ → Edit
outbound_by_type socket data_chunk p n memory = translate (p + 4) (local_to_script socket) memory
outbound_by_type socket init_chunk p n memory = outbound_init socket p memory
outbound_by_type socket init_ack_chunk p n memory = outbound_init socket p memory
outbound_by_type socket sack_chunk p n memory = outbound_sack socket p memory
outbound_by_type socket nr_sack_chunk p n memory = outbound_nr_sack socket p memory
outbound_by_type socket shutdown_chunk p n memory =
    translate (p + 4) (remote_to_script socket) memory
outbound_by_type socket ecne_chunk p n memory = translate (p + 4) (remote_to_script socket) memory
outbound_by_type socket cwr_chunk p n memory = translate (p + 4) (remote_to_script socket) memory
outbound_by_type socket i_data_chunk p n memory = translate (p + 4) (local_to_script socket) memory
outbound_by_type socket forward_tsn_chunk p n memory =
    translate (p + 4) (local_to_script socket) memory
outbound_by_type socket i_forward_tsn_chunk p n memory =
    translate (p + 4) (local_to_script socket) memory
outbound_by_type socket reconfig_chunk p n memory = outbound_reconfig socket p n memory
outbound_by_type socket other p n memory = done memory

unfoldable pub outbound_chunk : TestSocket → ℕ → List ℕ → Unit {0} → Rewrite (List ℕ × Unit {0})
outbound_chunk socket p memory kept = access (get_elem? memory p) >>= λ type_.
    access (item_length memory p) >>= λ length_.
    outbound_by_type socket (chunk_type type_) p length_ memory >>= λ memory'. done (memory', tt)

-- The memory of the actual packet, whose chunks are from `payload` to `packet_end`. A chunk that is
-- not whole is an error.
unfoldable pub map_outbound_live_sctp_packet : TestSocket → ℕ → ℕ → Edit
map_outbound_live_sctp_packet socket payload packet_end memory =
    items_loop sctp_chunks_next (λ m kept. failed) (outbound_chunk socket)
      (suc (packet_end - payload)) (sctp_chunks_begin memory payload packet_end none) memory tt
    >>= λ (memory', kept). done memory'
