-- ===== src/SctpMatch/Parameters.antt =====
-- The comparison of SCTP parameters and error causes: `verify_sctp_parameters` and
-- `verify_sctp_causes` of gtests/net/packetdrill/run_packet.c.
use packetdrill.Base.{ℕ, ◌+◌, ◌-◌, ◌/◌, ◌^◌, not, List, none, ◌==◌, if◌then◌else◌, u64}
use packetdrill.Sctp.{
  sctp_parameters_begin, sctp_parameters_next, sctp_causes_begin, sctp_causes_next,
}
use packetdrill.SctpMatch.Flags
use packetdrill.SctpMatch.Compare.{
  with_field, Place, CheckResult, passed, ◌>>>◌, load, compare_field, compare_bytes, unless, assert,
  for_each, bits16, bits32, partial_parameter, partial_cause, number_of_parameters,
  number_of_causes, parameter_value, cause_information, sctp_parameter_type, sctp_parameter_length,
  sctp_cause_code, sctp_cause_length, outgoing_req_sn, outgoing_resp_sn, outgoing_last_tsn,
  outgoing_sids, incoming_req_sn, incoming_sids, ssn_tsn_req_sn, response_resp_sn, response_result,
  response_sender_next_tsn, response_receiver_next_tsn, add_outgoing_req_sn,
  add_outgoing_number_of_new_streams, add_incoming_req_sn, add_incoming_number_of_new_streams,
}
use packetdrill.SctpMatch.Items.{ListItem, compare_items}

-- `sizeof(struct sctp_parameter)` taken from a length, as a `size_t`.
abbrev pub value_length : ℕ → ℕ
value_length n = u64 (n + 2 ^ 64 - 4)

-- How many stream numbers are behind the fields of `header` bytes.
unfoldable pub sids_count : ℕ → ℕ → ℕ
sids_count n header = u64 (n + 2 ^ 64 - header) / 2

unfoldable pub verify_outgoing_reset : Place → Place → ℕ → CheckResult
verify_outgoing_reset live script flags =
    unless (Flags.waived flags Flags.flag_reconfig_req_sn_nocheck)
      (compare_field outgoing_req_sn bits32 script 4 live 4)
    >>> unless (Flags.waived flags Flags.flag_reconfig_resp_sn_nocheck)
        (compare_field outgoing_resp_sn bits32 script 8 live 8)
    >>> unless (Flags.waived flags Flags.flag_reconfig_last_tsn_nocheck)
        (compare_field outgoing_last_tsn bits32 script 12 live 12)
    >>> with_field (load bits16 script 2) (λ length.
      for_each (sids_count length 16) 0
        (λ i. compare_field outgoing_sids bits16 script (16 + (i + i)) live (16 + (i + i))))

unfoldable pub verify_incoming_reset : Place → Place → ℕ → CheckResult
verify_incoming_reset live script flags =
    unless (Flags.waived flags Flags.flag_reconfig_req_sn_nocheck)
      (compare_field incoming_req_sn bits32 script 4 live 4)
    >>> with_field (load bits16 script 2) (λ length.
      for_each (sids_count length 8) 0
        (λ i. compare_field incoming_sids bits16 script (8 + (i + i)) live (8 + (i + i))))

unfoldable pub verify_reconfig_response : Place → Place → ℕ → CheckResult
verify_reconfig_response live script flags =
    unless (Flags.waived flags Flags.flag_reconfig_resp_sn_nocheck)
      (compare_field response_resp_sn bits32 script 4 live 4)
    >>> unless (Flags.waived flags Flags.flag_reconfig_result_nocheck)
        (compare_field response_result bits32 script 8 live 8)
    >>> with_field (load bits16 live 2) (λ length.
      if length == 20
      then (unless (Flags.waived flags Flags.flag_reconfig_sender_next_tsn_nocheck)
            (compare_field response_sender_next_tsn bits32 script 12 live 12)
          >>> unless (Flags.waived flags Flags.flag_reconfig_receiver_next_tsn_nocheck)
              (compare_field response_receiver_next_tsn bits32 script 16 live 16))
      else passed)

unfoldable pub verify_add_outgoing_streams : Place → Place → ℕ → CheckResult
verify_add_outgoing_streams live script flags =
    unless (Flags.waived flags Flags.flag_reconfig_req_sn_nocheck)
      (compare_field add_outgoing_req_sn bits32 script 4 live 4)
    >>> unless (Flags.waived flags Flags.flag_reconfig_number_of_new_streams_nocheck)
        (compare_field add_outgoing_number_of_new_streams bits16 script 8 live 8)

unfoldable pub verify_add_incoming_streams : Place → Place → ℕ → CheckResult
verify_add_incoming_streams live script flags =
    unless (Flags.waived flags Flags.flag_reconfig_req_sn_nocheck)
      (compare_field add_incoming_req_sn bits32 script 4 live 4)
    >>> unless (Flags.waived flags Flags.flag_reconfig_number_of_new_streams_nocheck)
        (compare_field add_incoming_number_of_new_streams bits16 script 8 live 8)

-- The `default:` of the switch; for a length below four the size given to `memcmp` wraps around.
unfoldable pub verify_parameter_value : Place → Place → ℕ → CheckResult
verify_parameter_value live script flags =
    unless (Flags.waived flags Flags.flag_parameter_value_nocheck) (
      assert (not (Flags.waived flags Flags.flag_parameter_length_nocheck))
      >>> with_field (load bits16 live 2)
          (λ length. compare_bytes parameter_value script 4 live 4 (value_length length)))

-- The `switch` on the type of the live parameter.
unfoldable pub verify_parameter_by_type : ℕ → Place → Place → ℕ → CheckResult
verify_parameter_by_type type_ live script flags =
    if type_ == 13
    then verify_outgoing_reset live script flags
    else (if type_ == 14
        then verify_incoming_reset live script flags
        else (if type_ == 15
            then unless (Flags.waived flags Flags.flag_reconfig_req_sn_nocheck)
                (compare_field ssn_tsn_req_sn bits32 script 4 live 4)
            else (if type_ == 16
                then verify_reconfig_response live script flags
                else (if type_ == 17
                    then verify_add_outgoing_streams live script flags
                    else (if type_ == 18
                        then verify_add_incoming_streams live script flags
                        else verify_parameter_value live script flags)))))

-- The body of the loop over the parameters.
unfoldable pub verify_parameter : Place → ListItem → CheckResult
verify_parameter live item =
    unless (Flags.waived item.flags Flags.flag_parameter_type_nocheck)
      (compare_field sctp_parameter_type bits16 item.place 0 live 0)
    >>> unless (Flags.waived item.flags Flags.flag_parameter_length_nocheck)
        (compare_field sctp_parameter_length bits16 item.place 2 live 2)
    >>> with_field (load bits16 live 0)
        (λ type_. verify_parameter_by_type type_ live item.place item.flags)

-- The parameters in the `length` bytes at `begin`.
unfoldable pub verify_sctp_parameters : List ℕ → ℕ → ℕ → List ListItem → CheckResult
verify_sctp_parameters memory begin length parameter_list =
    compare_items (sctp_parameters_next memory)
      (λ p. verify_parameter record { memory = memory; start = p }) partial_parameter
      number_of_parameters (sctp_parameters_begin memory begin length none) parameter_list

-- The body of the loop over the causes.
unfoldable pub verify_cause : Place → ListItem → CheckResult
verify_cause live item =
    unless (Flags.waived item.flags Flags.flag_cause_code_nocheck)
      (compare_field sctp_cause_code bits16 item.place 0 live 0)
    >>> unless (Flags.waived item.flags Flags.flag_cause_length_nocheck)
        (compare_field sctp_cause_length bits16 item.place 2 live 2)
    >>> unless (Flags.waived item.flags Flags.flag_cause_information_nocheck) (
        assert (not (Flags.waived item.flags Flags.flag_cause_length_nocheck))
        >>> with_field (load bits16 live 2)
            (λ length. compare_bytes cause_information item.place 4 live 4 (value_length length)))

-- The causes of the chunk at `chunk`, from `offset` on.
unfoldable pub verify_sctp_causes : List ℕ → ℕ → ℕ → List ListItem → CheckResult
verify_sctp_causes memory chunk offset cause_list =
    compare_items (sctp_causes_next memory)
      (λ p. verify_cause record { memory = memory; start = p }) partial_cause number_of_causes
      (sctp_causes_begin memory chunk offset none) cause_list
