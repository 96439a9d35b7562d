-- ===== src/SctpMatch/Blobs.antt =====
-- The comparison of SCTP chunks that hold bytes without structure: `verify_heartbeat_chunk`,
-- `verify_heartbeat_ack_chunk` and `verify_cookie_echo_chunk` of
-- gtests/net/packetdrill/run_packet.c.
use packetdrill.Base.{ℕ, ◌-◌, not, leb}
use packetdrill.SctpMatch.Flags
use packetdrill.SctpMatch.Compare.{
  with_field, Place, CheckResult, ◌>>>◌, load, compare_bytes, unless, assert, bits16,
  heartbeat_info, no_message,
}

unfoldable pub verify_heartbeat_chunk : Place → Place → ℕ → CheckResult
verify_heartbeat_chunk actual script flags =
    unless (Flags.waived flags Flags.flag_chunk_value_nocheck) (
      assert (not (Flags.waived flags Flags.flag_chunk_length_nocheck))
      >>> with_field (load bits16 actual 2) (λ length.
        assert (leb 4 length) >>> compare_bytes heartbeat_info script 4 actual 4 (length - 4)))

unfoldable pub verify_heartbeat_ack_chunk : Place → Place → ℕ → CheckResult
verify_heartbeat_ack_chunk actual script flags =
    unless (Flags.waived flags Flags.flag_chunk_value_nocheck) (
      assert (not (Flags.waived flags Flags.flag_chunk_length_nocheck))
      >>> with_field (load bits16 actual 2) (λ length.
        assert (leb 4 length) >>> compare_bytes heartbeat_info script 4 actual 4 (length - 4)))

-- A different cookie is an error without a message.
unfoldable pub verify_cookie_echo_chunk : Place → Place → ℕ → CheckResult
verify_cookie_echo_chunk actual script flags =
    unless (Flags.waived flags Flags.flag_chunk_value_nocheck) (
      assert (not (Flags.waived flags Flags.flag_chunk_length_nocheck))
      >>> with_field (load bits16 actual 2) (λ length.
        assert (leb 4 length) >>> compare_bytes no_message script 4 actual 4 (length - 4)))
