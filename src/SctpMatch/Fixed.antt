-- ===== src/SctpMatch/Fixed.antt =====
-- The comparison of SCTP chunks that have only fields at fixed offsets:
-- gtests/net/packetdrill/run_packet.c, `verify_data_chunk` and the like. The offsets are those of
-- the structures in gtests/net/packetdrill/sctp.h.
use packetdrill.Base.{ℕ}
use packetdrill.SctpMatch.Flags
use packetdrill.SctpMatch.Compare.{
  Place, CheckResult, passed, ◌>>>◌, compare_field, unless, bits16, bits32, sctp_data_chunk_tsn,
  sctp_data_chunk_sid, sctp_data_chunk_ssn, sctp_data_chunk_ppid, sctp_i_data_chunk_tsn,
  sctp_i_data_chunk_sid, sctp_i_data_chunk_res, sctp_i_data_chunk_mid, sctp_i_data_chunk_ppid,
  sctp_i_data_chunk_fsn, sctp_shutdown_chunk_cum_tsn, sctp_ecne_chunk_lowest_tsn,
  sctp_cwr_chunk_lowest_tsn,
}

unfoldable pub verify_data_chunk : Place → Place → ℕ → CheckResult
verify_data_chunk actual script flags =
    compare_field sctp_data_chunk_tsn bits32 script 4 actual 4
    >>> unless (Flags.waived flags Flags.flag_data_chunk_sid_nocheck)
        (compare_field sctp_data_chunk_sid bits16 script 8 actual 8)
    >>> unless (Flags.waived flags Flags.flag_data_chunk_ssn_nocheck)
        (compare_field sctp_data_chunk_ssn bits16 script 10 actual 10)
    >>> unless (Flags.waived flags Flags.flag_data_chunk_ppid_nocheck)
        (compare_field sctp_data_chunk_ppid bits32 script 12 actual 12)

unfoldable pub verify_shutdown_chunk : Place → Place → ℕ → CheckResult
verify_shutdown_chunk actual script flags =
    unless (Flags.waived flags Flags.flag_shutdown_chunk_cum_tsn_nocheck)
      (compare_field sctp_shutdown_chunk_cum_tsn bits32 script 4 actual 4)

unfoldable pub verify_shutdown_ack_chunk : Place → Place → ℕ → CheckResult
verify_shutdown_ack_chunk actual script flags = passed

unfoldable pub verify_cookie_ack_chunk : Place → Place → ℕ → CheckResult
verify_cookie_ack_chunk actual script flags = passed

unfoldable pub verify_ecne_chunk : Place → Place → ℕ → CheckResult
verify_ecne_chunk actual script flags =
    unless (Flags.waived flags Flags.flag_ecne_chunk_lowest_tsn_nocheck)
      (compare_field sctp_ecne_chunk_lowest_tsn bits32 script 4 actual 4)

unfoldable pub verify_cwr_chunk : Place → Place → ℕ → CheckResult
verify_cwr_chunk actual script flags =
    unless (Flags.waived flags Flags.flag_cwr_chunk_lowest_tsn_nocheck)
      (compare_field sctp_cwr_chunk_lowest_tsn bits32 script 4 actual 4)

unfoldable pub verify_shutdown_complete_chunk : Place → Place → ℕ → CheckResult
verify_shutdown_complete_chunk actual script flags = passed

-- The payload protocol and the fragment sequence number are a union.
unfoldable pub verify_i_data_chunk : Place → Place → ℕ → CheckResult
verify_i_data_chunk actual script flags =
    compare_field sctp_i_data_chunk_tsn bits32 script 4 actual 4
    >>> unless (Flags.waived flags Flags.flag_i_data_chunk_sid_nocheck)
        (compare_field sctp_i_data_chunk_sid bits16 script 8 actual 8)
    >>> unless (Flags.waived flags Flags.flag_i_data_chunk_res_nocheck)
        (compare_field sctp_i_data_chunk_res bits16 script 10 actual 10)
    >>> unless (Flags.waived flags Flags.flag_i_data_chunk_mid_nocheck)
        (compare_field sctp_i_data_chunk_mid bits32 script 12 actual 12)
    >>> unless (Flags.waived flags Flags.flag_i_data_chunk_ppid_nocheck)
        (compare_field sctp_i_data_chunk_ppid bits32 script 16 actual 16)
    >>> unless (Flags.waived flags Flags.flag_i_data_chunk_fsn_nocheck)
        (compare_field sctp_i_data_chunk_fsn bits32 script 16 actual 16)

unfoldable pub verify_pad_chunk : Place → Place → ℕ → CheckResult
verify_pad_chunk actual script flags = passed
