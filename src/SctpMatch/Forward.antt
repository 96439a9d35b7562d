-- ===== src/SctpMatch/Forward.antt =====
-- The comparison of FORWARD-TSN and I-FORWARD-TSN chunks: `verify_forward_tsn_chunk` and
-- `verify_i_forward_tsn_chunk` of gtests/net/packetdrill/run_packet.c.
use packetdrill.Base.{ℕ, ◌+◌, ◌-◌, ◌*◌, ◌/◌, ◌^◌, u16, u64}
use packetdrill.SctpMatch.Flags
use packetdrill.SctpMatch.Compare.{
  with_field, Place, CheckResult, ◌>>>◌, load, check_chunk_field, compare_field, unless, for_each,
  bits16, bits32, sctp_forward_tsn_cum_tsn, nr_sid_blocks, sctp_forward_tsn_stream_identifier,
  sctp_forward_tsn_stream_sequence_number, sctp_i_forward_tsn_cum_tsn, nr_id_blocks,
  sctp_i_forward_tsn_stream_identifier, sctp_i_forward_tsn_u_bit,
  sctp_i_forward_tsn_message_identifier,
}

-- The subtraction is made on a `size_t`, so that it wraps around for a length below eight.
unfoldable pub get_num_id_blocks : ℕ → ℕ
get_num_id_blocks packet_length = u16 (u64 (packet_length + 2 ^ 64 - 8) / 4)

-- Both lengths are taken from the script's chunk.
unfoldable pub verify_forward_tsn_chunk : Place → Place → ℕ → CheckResult
verify_forward_tsn_chunk actual script flags =
    with_field (load bits16 script 2) (λ actual_packet_length.
      with_field (load bits16 script 2) (λ script_packet_length.
        unless (Flags.waived flags Flags.flag_forward_tsn_chunk_cum_tsn_nocheck)
          (compare_field sctp_forward_tsn_cum_tsn bits32 script 4 actual 4)
        >>> unless (Flags.waived flags Flags.flag_forward_tsn_chunk_ids_nocheck) (
            check_chunk_field nr_sid_blocks (get_num_id_blocks actual_packet_length)
              (get_num_id_blocks script_packet_length)
            >>> for_each (get_num_id_blocks script_packet_length) 0 (λ i.
              compare_field sctp_forward_tsn_stream_identifier bits16 script (8 + 4 * i) actual
                (8 + 4 * i)
              >>> compare_field sctp_forward_tsn_stream_sequence_number bits16 script (10 + 4 * i)
                  actual (10 + 4 * i)))))

unfoldable pub get_num_id_blocks_for_i_forward_tsn : ℕ → ℕ
get_num_id_blocks_for_i_forward_tsn packet_length = u16 (u64 (packet_length + 2 ^ 64 - 8) / 8)

unfoldable pub verify_i_forward_tsn_chunk : Place → Place → ℕ → CheckResult
verify_i_forward_tsn_chunk actual script flags =
    with_field (load bits16 script 2) (λ actual_packet_length.
      with_field (load bits16 script 2) (λ script_packet_length.
        unless (Flags.waived flags Flags.flag_i_forward_tsn_chunk_cum_tsn_nocheck)
          (compare_field sctp_i_forward_tsn_cum_tsn bits32 script 4 actual 4)
        >>> unless (Flags.waived flags Flags.flag_i_forward_tsn_chunk_ids_nocheck) (
            check_chunk_field nr_id_blocks
              (get_num_id_blocks_for_i_forward_tsn actual_packet_length)
              (get_num_id_blocks_for_i_forward_tsn script_packet_length)
            >>> for_each (get_num_id_blocks_for_i_forward_tsn script_packet_length) 0 (λ i.
              compare_field sctp_i_forward_tsn_stream_identifier bits16 script (8 + 8 * i) actual
                (8 + 8 * i)
              >>> compare_field sctp_i_forward_tsn_u_bit bits16 script (10 + 8 * i) actual
                  (10 + 8 * i)
              >>> compare_field sctp_i_forward_tsn_message_identifier bits32 script (12 + 8 * i)
                  actual (12 + 8 * i)))))
