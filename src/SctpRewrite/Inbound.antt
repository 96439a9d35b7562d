-- ===== src/SctpRewrite/Inbound.antt =====
-- `map_inbound_sctp_packet` of gtests/net/packetdrill/run_packet.c: from the script's numbers to the
-- live ones.
use packetdrill.Base.{
  ℕ, suc, ◌+◌, ◌-◌, ◌*◌, ◌%◌, Bool, true, false, ◌||◌, List, none, ◌==◌, leb, if◌then◌else◌,
  get_elem?, u16, u32,
}
use packetdrill.Sctp.{
  item_length, sctp_chunks_begin, sctp_chunks_next, sctp_parameters_begin, sctp_parameters_next,
}
use packetdrill.SctpMatch.Packet.{
  ChunkType, chunk_type, data_chunk, init_chunk, init_ack_chunk, sack_chunk, nr_sack_chunk,
  abort_chunk, shutdown_chunk, ecne_chunk, cwr_chunk, shutdown_complete_chunk, i_data_chunk,
  reconfig_chunk, forward_tsn_chunk, i_forward_tsn_chunk,
}
use packetdrill.Connect.{TestSocket}
use packetdrill.SctpRewrite.{
  Rewrite, done, ◌>>=◌, access, Edit, when, half, translate, replace_tag, translate_each,
  difference, items_loop,
}

-- `remote_diff` and `local_diff`.
abbrev pub remote_to_live : TestSocket → ℕ
remote_to_live socket = difference socket.live.remote_initial_tsn socket.script.remote_initial_tsn

abbrev pub local_to_live : TestSocket → ℕ
local_to_live socket = difference socket.live.local_initial_tsn socket.script.local_initial_tsn

-- The local variables `reflect_v_tag` and `contains_init_chunk`.
pub record TagFlags : Type 0 where
  pub reflect_v_tag : Bool
  pub contains_init_chunk : Bool

abbrev pub keep : TagFlags → Rewrite (List ℕ) → Rewrite (List ℕ × TagFlags)
keep flags r = r >>= λ memory. done (memory, flags)

-- The parameter at `p`, by its type and its length.
unfoldable pub inbound_parameter_by_type : TestSocket → ℕ → ℕ → ℕ → Edit
inbound_parameter_by_type socket p type_ length_ memory =
    let remote_diff = remote_to_live socket in
    let local_diff = local_to_live socket in
    if type_ == 0x0d
    then (when (leb 8 length_) (translate (p + 4) remote_diff) memory
        >>= when (leb 12 length_) (translate (p + 8) local_diff)
        >>= when (leb 16 length_) (translate (p + 12) remote_diff))
    else (if type_ == 0x10
        then (translate (p + 4) local_diff memory
            >>= when (leb 16 length_) (translate (p + 16) local_diff)
            >>= when (leb 20 length_) (translate (p + 12) remote_diff))
        else (if (type_ == 0x0e) || (type_ == 0x0f) || (type_ == 0x11) || (type_ == 0x12)
            then when (leb 8 length_) (translate (p + 4) remote_diff) memory
            else done memory))

unfoldable pub inbound_parameter : TestSocket → ℕ → List ℕ → Unit {0} → Rewrite (List ℕ × Unit {0})
inbound_parameter socket p memory kept = access (half memory p) >>= λ type_.
    access (half memory (p + 2)) >>= λ length_.
    inbound_parameter_by_type socket p type_ length_ memory >>= λ memory'. done (memory', tt)

-- A parameter that is not whole ends the loop without an error.
unfoldable pub inbound_parameters : TestSocket → ℕ → ℕ → Edit
inbound_parameters socket p length_ memory =
    items_loop sctp_parameters_next (λ m kept. done (m, kept)) (inbound_parameter socket)
      (suc length_) (sctp_parameters_begin memory p length_ none) memory tt
    >>= λ (memory', kept). done memory'

unfoldable pub inbound_init : TestSocket → ℕ → Edit
inbound_init socket p memory =
    translate (p + 16) (remote_to_live socket) memory
    >>= replace_tag (p + 4) socket.script.local_initiate_tag socket.live.local_initiate_tag

-- The duplicate TSNs are translated where the length fits to the numbers of blocks.
unfoldable pub inbound_sack : TestSocket → ℕ → ℕ → Edit
inbound_sack socket p length_ memory =
    translate (p + 4) (local_to_live socket) memory >>= λ memory'.
    access (half memory' (p + 12)) >>= λ nr_gap_blocks.
    access (half memory' (p + 14)) >>= λ nr_dup_tsns.
    when (length_ == 16 + 4 * (nr_dup_tsns + nr_gap_blocks))
      (translate_each nr_dup_tsns (p + 16 + 4 * nr_gap_blocks) (local_to_live socket)) memory'

unfoldable pub inbound_nr_sack : TestSocket → ℕ → ℕ → Edit
inbound_nr_sack socket p length_ memory =
    translate (p + 4) (local_to_live socket) memory >>= λ memory'.
    access (half memory' (p + 12)) >>= λ nr_gap_blocks.
    access (half memory' (p + 14)) >>= λ number_of_nr_gap_blocks.
    access (half memory' (p + 16)) >>= λ nr_dup_tsns.
    when (length_ == 20 + 4 * (nr_dup_tsns + nr_gap_blocks))
      (translate_each nr_dup_tsns (p + 20 + 4 * u16 (nr_gap_blocks + number_of_nr_gap_blocks))
        (local_to_live socket))
      memory'

-- `if (flags & T_BIT) reflect_v_tag = true;`.
unfoldable pub reflect_on_t_bit : ℕ → List ℕ → TagFlags → Rewrite (List ℕ × TagFlags)
reflect_on_t_bit p memory flags = access (get_elem? memory (p + 1)) >>= λ chunk_flags.
    done (memory, if chunk_flags % 2 == 1 then record flags { reflect_v_tag = true } else flags)

-- The `switch` on the type of the chunk at `p`.
unfoldable pub inbound_by_type :
    TestSocket → ChunkType → ℕ → ℕ → List ℕ → TagFlags → Rewrite (List ℕ × TagFlags)
inbound_by_type socket data_chunk p n memory flags =
    keep flags (when (leb 16 n) (translate (p + 4) (remote_to_live socket)) memory)
inbound_by_type socket init_chunk p n memory flags =
    if leb 20 n
    then keep (record flags { contains_init_chunk = true }) (inbound_init socket p memory)
    else done (memory, flags)
inbound_by_type socket init_ack_chunk p n memory flags =
    keep flags (when (leb 20 n) (inbound_init socket p) memory)
inbound_by_type socket sack_chunk p n memory flags =
    keep flags (when (leb 16 n) (inbound_sack socket p n) memory)
inbound_by_type socket nr_sack_chunk p n memory flags =
    keep flags (when (leb 20 n) (inbound_nr_sack socket p n) memory)
inbound_by_type socket abort_chunk p n memory flags =
    if leb 4 n then reflect_on_t_bit p memory flags else done (memory, flags)
inbound_by_type socket shutdown_chunk p n memory flags =
    keep flags (when (leb 8 n) (translate (p + 4) (local_to_live socket)) memory)
inbound_by_type socket ecne_chunk p n memory flags =
    keep flags (when (leb 8 n) (translate (p + 4) (local_to_live socket)) memory)
inbound_by_type socket cwr_chunk p n memory flags =
    keep flags (when (leb 8 n) (translate (p + 4) (local_to_live socket)) memory)
inbound_by_type socket shutdown_complete_chunk p n memory flags =
    if leb 4 n then reflect_on_t_bit p memory flags else done (memory, flags)
inbound_by_type socket i_data_chunk p n memory flags =
    keep flags (when (leb 20 n) (translate (p + 4) (remote_to_live socket)) memory)
inbound_by_type socket forward_tsn_chunk p n memory flags =
    keep flags (when (leb 8 n) (translate (p + 4) (remote_to_live socket)) memory)
inbound_by_type socket i_forward_tsn_chunk p n memory flags =
    keep flags (when (leb 8 n) (translate (p + 4) (remote_to_live socket)) memory)
inbound_by_type socket reconfig_chunk p n memory flags =
    keep flags (when (leb 8 n) (inbound_parameters socket (p + 4) (n - 4)) memory)
inbound_by_type socket other p n memory flags = done (memory, flags)

unfoldable pub inbound_chunk : TestSocket → ℕ → List ℕ → TagFlags → Rewrite (List ℕ × TagFlags)
inbound_chunk socket p memory flags = access (get_elem? memory p) >>= λ type_.
    access (item_length memory p) >>= λ length_.
    inbound_by_type socket (chunk_type type_) p length_ memory flags

-- The verification tag of the packet; `explicit` is FLAGS_SCTP_EXPLICIT_TAG.
unfoldable pub inbound_v_tag : TestSocket → Bool → ℕ → TagFlags → ℕ
inbound_v_tag socket true v_tag flags =
    let script_tag =
      if flags.reflect_v_tag
      then socket.script.remote_initiate_tag
      else socket.script.local_initiate_tag in
    let live_tag =
      if flags.reflect_v_tag
      then socket.live.remote_initiate_tag
      else socket.live.local_initiate_tag in
    let mapped = u32 (live_tag + difference v_tag script_tag) in
    if v_tag == 0 then 0 else (if mapped == 0 then 1 else mapped)
inbound_v_tag socket false v_tag flags =
    if flags.contains_init_chunk
    then 0
    else (if flags.reflect_v_tag
        then socket.live.remote_initiate_tag
        else socket.live.local_initiate_tag)

-- The packet's flags FLAGS_SCTP_GENERIC_PACKET and FLAGS_SCTP_EXPLICIT_TAG, the verification tag of
-- its common header, and its chunks, from `payload` to `packet_end` in the memory.
pub record SctpView : Type 0 where
  pub is_generic : Bool
  pub explicit_tag : Bool
  pub v_tag : ℕ
  pub memory : List ℕ
  pub payload : ℕ
  pub packet_end : ℕ

abbrev pub no_tag_flags : TagFlags
no_tag_flags = record { reflect_v_tag = false; contains_init_chunk = false }

-- The loop over the chunks. A chunk that is not whole ends it without an error.
unfoldable pub inbound_chunks : TestSocket → SctpView → Rewrite (List ℕ × TagFlags)
inbound_chunks socket packet =
    items_loop sctp_chunks_next (λ m kept. done (m, kept)) (inbound_chunk socket)
      (suc (packet.packet_end - packet.payload))
      (sctp_chunks_begin packet.memory packet.payload packet.packet_end none) packet.memory
      no_tag_flags

unfoldable pub map_inbound_sctp_packet : TestSocket → SctpView → Rewrite SctpView
map_inbound_sctp_packet socket packet =
    (if packet.is_generic then done (packet.memory, no_tag_flags) else inbound_chunks socket packet)
    >>= λ (memory, flags). done (record packet {
      memory = memory;
      v_tag = inbound_v_tag socket packet.explicit_tag packet.v_tag flags;
    })
