-- ===== src/SctpMatch/Packet.antt =====
-- `verify_sctp` of gtests/net/packetdrill/run_packet.c, and the comparison of the chunks that hold
-- parameters or error causes.
use packetdrill.Base.{ℕ, ◌+◌, ◌-◌, ◌^◌, List, [], ◌∷◌, none, ◌==◌, leb, if◌then◌else◌, u16}
use packetdrill.Sctp.{sctp_chunks_begin, sctp_chunks_next}
use packetdrill.SctpMatch.Flags
use packetdrill.SctpMatch.Compare.{
  with_field, Place, CheckResult, assertion_failed, ◌>>>◌, load, compare_field, unless, assert,
  bits8, bits16, bits32, flags_as_word, partial_chunk, number_of_chunks, sctp_chunk_type,
  sctp_chunk_flags, sctp_chunk_length, sctp_init_chunk_tag, sctp_init_chunk_a_rwnd,
  sctp_init_chunk_os, sctp_init_chunk_is, sctp_init_chunk_tsn, sctp_init_ack_chunk_tag,
  sctp_init_ack_chunk_a_rwnd, sctp_init_ack_chunk_os, sctp_init_ack_chunk_is,
  sctp_init_ack_chunk_tsn, sctp_reconfig_flags,
}
use packetdrill.SctpMatch.Fixed.{
  verify_data_chunk, verify_shutdown_chunk, verify_shutdown_ack_chunk, verify_cookie_ack_chunk,
  verify_ecne_chunk, verify_cwr_chunk, verify_shutdown_complete_chunk, verify_i_data_chunk,
  verify_pad_chunk,
}
use packetdrill.SctpMatch.Sacks.{verify_sack_chunk, verify_nr_sack_chunk}
use packetdrill.SctpMatch.Forward.{verify_forward_tsn_chunk, verify_i_forward_tsn_chunk}
use packetdrill.SctpMatch.Blobs.{
  verify_heartbeat_chunk, verify_heartbeat_ack_chunk, verify_cookie_echo_chunk,
}
use packetdrill.SctpMatch.Items.{ChunkItem, compare_items}
use packetdrill.SctpMatch.Parameters.{verify_sctp_parameters, verify_sctp_causes}

unfoldable pub verify_init_chunk : Place → ChunkItem → CheckResult
verify_init_chunk actual item = with_field (load bits16 actual 2) (λ length.
    assert (leb 20 length)
    >>> unless (Flags.waived item.flags Flags.flag_init_chunk_tag_nocheck)
        (compare_field sctp_init_chunk_tag bits32 item.chunk 4 actual 4)
    >>> unless (Flags.waived item.flags Flags.flag_init_chunk_a_rwnd_nocheck)
        (compare_field sctp_init_chunk_a_rwnd bits32 item.chunk 8 actual 8)
    >>> unless (Flags.waived item.flags Flags.flag_init_chunk_os_nocheck)
        (compare_field sctp_init_chunk_os bits16 item.chunk 12 actual 12)
    >>> unless (Flags.waived item.flags Flags.flag_init_chunk_is_nocheck)
        (compare_field sctp_init_chunk_is bits16 item.chunk 14 actual 14)
    >>> unless (Flags.waived item.flags Flags.flag_init_chunk_tsn_nocheck)
        (compare_field sctp_init_chunk_tsn bits32 item.chunk 16 actual 16)
    >>> unless (Flags.waived item.flags Flags.flag_init_chunk_opt_param_nocheck) (
        verify_sctp_parameters actual.memory (actual.start + 20) (length - 20) item.parameter_list))

unfoldable pub verify_init_ack_chunk : Place → ChunkItem → CheckResult
verify_init_ack_chunk actual item = with_field (load bits16 actual 2) (λ length.
    assert (leb 20 length)
    >>> unless (Flags.waived item.flags Flags.flag_init_ack_chunk_tag_nocheck)
        (compare_field sctp_init_ack_chunk_tag bits32 item.chunk 4 actual 4)
    >>> unless (Flags.waived item.flags Flags.flag_init_ack_chunk_a_rwnd_nocheck)
        (compare_field sctp_init_ack_chunk_a_rwnd bits32 item.chunk 8 actual 8)
    >>> unless (Flags.waived item.flags Flags.flag_init_ack_chunk_os_nocheck)
        (compare_field sctp_init_ack_chunk_os bits16 item.chunk 12 actual 12)
    >>> unless (Flags.waived item.flags Flags.flag_init_ack_chunk_is_nocheck)
        (compare_field sctp_init_ack_chunk_is bits16 item.chunk 14 actual 14)
    >>> unless (Flags.waived item.flags Flags.flag_init_ack_chunk_tsn_nocheck)
        (compare_field sctp_init_ack_chunk_tsn bits32 item.chunk 16 actual 16)
    >>> unless (Flags.waived item.flags Flags.flag_init_ack_chunk_opt_param_nocheck) (
        verify_sctp_parameters actual.memory (actual.start + 20) (length - 20) item.parameter_list))

unfoldable pub verify_abort_chunk : Place → ChunkItem → CheckResult
verify_abort_chunk actual item = with_field (load bits16 actual 2) (λ length.
    assert (leb 4 length)
    >>> unless (Flags.waived item.flags Flags.flag_abort_chunk_opt_causes_nocheck)
        (verify_sctp_causes actual.memory actual.start 4 item.cause_list))

unfoldable pub verify_error_chunk : Place → ChunkItem → CheckResult
verify_error_chunk actual item = with_field (load bits16 actual 2) (λ length.
    assert (leb 4 length)
    >>> unless (Flags.waived item.flags Flags.flag_error_chunk_opt_causes_nocheck)
        (verify_sctp_causes actual.memory actual.start 4 item.cause_list))

-- The length of the parameters is passed as a `u16`, so that it wraps around.
unfoldable pub verify_reconfig_chunk : Place → ChunkItem → ℕ → CheckResult
verify_reconfig_chunk actual item flags = with_field (load bits16 actual 2) (λ length.
    unless (Flags.waived flags Flags.flag_chunk_flags_nocheck)
      (compare_field sctp_reconfig_flags flags_as_word item.chunk 1 actual 1)
    >>> verify_sctp_parameters actual.memory (actual.start + 4) (u16 (length + 2 ^ 16 - 4))
        item.parameter_list)

-- `SCTP_..._CHUNK_TYPE`, for the types of the `switch` of `verify_sctp`.
pub data ChunkType : Type 0 where
  data_chunk init_chunk init_ack_chunk sack_chunk heartbeat_chunk heartbeat_ack_chunk : ChunkType
  abort_chunk shutdown_chunk shutdown_ack_chunk error_chunk cookie_echo_chunk : ChunkType
  cookie_ack_chunk ecne_chunk cwr_chunk shutdown_complete_chunk nr_sack_chunk : ChunkType
  i_data_chunk reconfig_chunk pad_chunk forward_tsn_chunk i_forward_tsn_chunk : ChunkType
  unsupported_chunk : ChunkType

-- The cases of the `switch`.
abbrev pub chunk_types : List (ℕ × ChunkType)
chunk_types =
    (0x00, data_chunk)
    ∷ (0x01, init_chunk)
    ∷ (0x02, init_ack_chunk)
    ∷ (0x03, sack_chunk)
    ∷ (0x10, nr_sack_chunk)
    ∷ (0x04, heartbeat_chunk)
    ∷ (0x05, heartbeat_ack_chunk)
    ∷ (0x06, abort_chunk)
    ∷ (0x07, shutdown_chunk)
    ∷ (0x08, shutdown_ack_chunk)
    ∷ (0x09, error_chunk)
    ∷ (0x0a, cookie_echo_chunk)
    ∷ (0x0b, cookie_ack_chunk)
    ∷ (0x0c, ecne_chunk)
    ∷ (0x0d, cwr_chunk)
    ∷ (0x0e, shutdown_complete_chunk)
    ∷ (0x40, i_data_chunk)
    ∷ (0x84, pad_chunk)
    ∷ (0x82, reconfig_chunk)
    ∷ (0xc0, forward_tsn_chunk)
    ∷ (0xc2, i_forward_tsn_chunk)
    ∷ []

abbrev pub find_type : ℕ → List (ℕ × ChunkType) → ChunkType
find_type n [] = unsupported_chunk
find_type n ((m, t) ∷ cases) = if n == m then t else find_type n cases

unfoldable pub chunk_type : ℕ → ChunkType
chunk_type n = find_type n chunk_types

-- The `switch` on the type of the live chunk.
unfoldable pub verify_chunk_by_type : ChunkType → Place → ChunkItem → CheckResult
verify_chunk_by_type data_chunk actual item = verify_data_chunk actual item.chunk item.flags
verify_chunk_by_type init_chunk actual item = verify_init_chunk actual item
verify_chunk_by_type init_ack_chunk actual item = verify_init_ack_chunk actual item
verify_chunk_by_type sack_chunk actual item = verify_sack_chunk actual item.chunk item.flags
verify_chunk_by_type nr_sack_chunk actual item = verify_nr_sack_chunk actual item.chunk item.flags
verify_chunk_by_type heartbeat_chunk actual item =
    verify_heartbeat_chunk actual item.chunk item.flags
verify_chunk_by_type heartbeat_ack_chunk actual item =
    verify_heartbeat_ack_chunk actual item.chunk item.flags
verify_chunk_by_type abort_chunk actual item = verify_abort_chunk actual item
verify_chunk_by_type shutdown_chunk actual item = verify_shutdown_chunk actual item.chunk item.flags
verify_chunk_by_type shutdown_ack_chunk actual item =
    verify_shutdown_ack_chunk actual item.chunk item.flags
verify_chunk_by_type error_chunk actual item = verify_error_chunk actual item
verify_chunk_by_type cookie_echo_chunk actual item =
    verify_cookie_echo_chunk actual item.chunk item.flags
verify_chunk_by_type cookie_ack_chunk actual item =
    verify_cookie_ack_chunk actual item.chunk item.flags
verify_chunk_by_type ecne_chunk actual item = verify_ecne_chunk actual item.chunk item.flags
verify_chunk_by_type cwr_chunk actual item = verify_cwr_chunk actual item.chunk item.flags
verify_chunk_by_type shutdown_complete_chunk actual item =
    verify_shutdown_complete_chunk actual item.chunk item.flags
verify_chunk_by_type i_data_chunk actual item = verify_i_data_chunk actual item.chunk item.flags
verify_chunk_by_type pad_chunk actual item = verify_pad_chunk actual item.chunk item.flags
verify_chunk_by_type reconfig_chunk actual item = verify_reconfig_chunk actual item item.flags
verify_chunk_by_type forward_tsn_chunk actual item =
    verify_forward_tsn_chunk actual item.chunk item.flags
verify_chunk_by_type i_forward_tsn_chunk actual item =
    verify_i_forward_tsn_chunk actual item.chunk item.flags
verify_chunk_by_type unsupported_chunk actual item = assertion_failed

-- The body of the loop over the chunks.
unfoldable pub verify_chunk : Place → ChunkItem → CheckResult
verify_chunk actual item =
    compare_field sctp_chunk_type bits8 item.chunk 0 actual 0
    >>> unless (Flags.waived item.flags Flags.flag_chunk_flags_nocheck)
        (compare_field sctp_chunk_flags bits8 item.chunk 1 actual 1)
    >>> unless (Flags.waived item.flags Flags.flag_chunk_length_nocheck)
        (compare_field sctp_chunk_length bits16 item.chunk 2 actual 2)
    >>> with_field (load bits8 actual 0)
        (λ type_. verify_chunk_by_type (chunk_type type_) actual item)

-- `memory` holds the live packet, whose SCTP payload is from `payload` to `packet_end`.
unfoldable pub verify_sctp : List ℕ → ℕ → ℕ → List ChunkItem → CheckResult
verify_sctp memory payload packet_end chunk_list =
    compare_items (sctp_chunks_next memory)
      (λ p. verify_chunk record { memory = memory; start = p }) partial_chunk number_of_chunks
      (sctp_chunks_begin memory payload packet_end none) chunk_list
