-- ===== src/SctpMatch/Flags.antt =====
-- The marks of the wildcards in a scripted SCTP packet: the `FLAG_..._NOCHECK` of
-- gtests/net/packetdrill/sctp_packet.h.
use packetdrill.Base.{ℕ, Bool, not, ◌==◌, bit_and}

abbrev pub flag_chunk_type_nocheck : ℕ
flag_chunk_type_nocheck = 1

abbrev pub flag_chunk_flags_nocheck : ℕ
flag_chunk_flags_nocheck = 2

abbrev pub flag_chunk_length_nocheck : ℕ
flag_chunk_length_nocheck = 4

abbrev pub flag_chunk_value_nocheck : ℕ
flag_chunk_value_nocheck = 8

abbrev pub flag_data_chunk_tsn_nocheck : ℕ
flag_data_chunk_tsn_nocheck = 256

abbrev pub flag_data_chunk_sid_nocheck : ℕ
flag_data_chunk_sid_nocheck = 512

abbrev pub flag_data_chunk_ssn_nocheck : ℕ
flag_data_chunk_ssn_nocheck = 1024

abbrev pub flag_data_chunk_ppid_nocheck : ℕ
flag_data_chunk_ppid_nocheck = 2048

abbrev pub flag_init_chunk_tag_nocheck : ℕ
flag_init_chunk_tag_nocheck = 256

abbrev pub flag_init_chunk_a_rwnd_nocheck : ℕ
flag_init_chunk_a_rwnd_nocheck = 512

abbrev pub flag_init_chunk_os_nocheck : ℕ
flag_init_chunk_os_nocheck = 1024

abbrev pub flag_init_chunk_is_nocheck : ℕ
flag_init_chunk_is_nocheck = 2048

abbrev pub flag_init_chunk_tsn_nocheck : ℕ
flag_init_chunk_tsn_nocheck = 4096

abbrev pub flag_init_chunk_opt_param_nocheck : ℕ
flag_init_chunk_opt_param_nocheck = 8192

abbrev pub flag_init_ack_chunk_tag_nocheck : ℕ
flag_init_ack_chunk_tag_nocheck = 256

abbrev pub flag_init_ack_chunk_a_rwnd_nocheck : ℕ
flag_init_ack_chunk_a_rwnd_nocheck = 512

abbrev pub flag_init_ack_chunk_os_nocheck : ℕ
flag_init_ack_chunk_os_nocheck = 1024

abbrev pub flag_init_ack_chunk_is_nocheck : ℕ
flag_init_ack_chunk_is_nocheck = 2048

abbrev pub flag_init_ack_chunk_tsn_nocheck : ℕ
flag_init_ack_chunk_tsn_nocheck = 4096

abbrev pub flag_init_ack_chunk_opt_param_nocheck : ℕ
flag_init_ack_chunk_opt_param_nocheck = 8192

abbrev pub flag_sack_chunk_cum_tsn_nocheck : ℕ
flag_sack_chunk_cum_tsn_nocheck = 256

abbrev pub flag_sack_chunk_a_rwnd_nocheck : ℕ
flag_sack_chunk_a_rwnd_nocheck = 512

abbrev pub flag_sack_chunk_gap_blocks_nocheck : ℕ
flag_sack_chunk_gap_blocks_nocheck = 1024

abbrev pub flag_sack_chunk_dup_tsns_nocheck : ℕ
flag_sack_chunk_dup_tsns_nocheck = 2048

abbrev pub flag_nr_sack_chunk_cum_tsn_nocheck : ℕ
flag_nr_sack_chunk_cum_tsn_nocheck = 256

abbrev pub flag_nr_sack_chunk_a_rwnd_nocheck : ℕ
flag_nr_sack_chunk_a_rwnd_nocheck = 512

abbrev pub flag_nr_sack_chunk_gap_blocks_nocheck : ℕ
flag_nr_sack_chunk_gap_blocks_nocheck = 1024

abbrev pub flag_nr_sack_chunk_nr_gap_blocks_nocheck : ℕ
flag_nr_sack_chunk_nr_gap_blocks_nocheck = 2048

abbrev pub flag_nr_sack_chunk_dup_tsns_nocheck : ℕ
flag_nr_sack_chunk_dup_tsns_nocheck = 4096

abbrev pub flag_abort_chunk_opt_causes_nocheck : ℕ
flag_abort_chunk_opt_causes_nocheck = 256

abbrev pub flag_shutdown_chunk_cum_tsn_nocheck : ℕ
flag_shutdown_chunk_cum_tsn_nocheck = 256

abbrev pub flag_error_chunk_opt_causes_nocheck : ℕ
flag_error_chunk_opt_causes_nocheck = 256

abbrev pub flag_ecne_chunk_lowest_tsn_nocheck : ℕ
flag_ecne_chunk_lowest_tsn_nocheck = 256

abbrev pub flag_cwr_chunk_lowest_tsn_nocheck : ℕ
flag_cwr_chunk_lowest_tsn_nocheck = 256

abbrev pub flag_i_data_chunk_tsn_nocheck : ℕ
flag_i_data_chunk_tsn_nocheck = 256

abbrev pub flag_i_data_chunk_sid_nocheck : ℕ
flag_i_data_chunk_sid_nocheck = 512

abbrev pub flag_i_data_chunk_res_nocheck : ℕ
flag_i_data_chunk_res_nocheck = 1024

abbrev pub flag_i_data_chunk_mid_nocheck : ℕ
flag_i_data_chunk_mid_nocheck = 2048

abbrev pub flag_i_data_chunk_ppid_nocheck : ℕ
flag_i_data_chunk_ppid_nocheck = 4096

abbrev pub flag_i_data_chunk_fsn_nocheck : ℕ
flag_i_data_chunk_fsn_nocheck = 8192

abbrev pub flag_forward_tsn_chunk_cum_tsn_nocheck : ℕ
flag_forward_tsn_chunk_cum_tsn_nocheck = 256

abbrev pub flag_forward_tsn_chunk_ids_nocheck : ℕ
flag_forward_tsn_chunk_ids_nocheck = 512

abbrev pub flag_i_forward_tsn_chunk_cum_tsn_nocheck : ℕ
flag_i_forward_tsn_chunk_cum_tsn_nocheck = 256

abbrev pub flag_i_forward_tsn_chunk_ids_nocheck : ℕ
flag_i_forward_tsn_chunk_ids_nocheck = 512

abbrev pub flag_parameter_type_nocheck : ℕ
flag_parameter_type_nocheck = 1

abbrev pub flag_parameter_length_nocheck : ℕ
flag_parameter_length_nocheck = 2

abbrev pub flag_parameter_value_nocheck : ℕ
flag_parameter_value_nocheck = 4

abbrev pub flag_reconfig_req_sn_nocheck : ℕ
flag_reconfig_req_sn_nocheck = 16

abbrev pub flag_reconfig_resp_sn_nocheck : ℕ
flag_reconfig_resp_sn_nocheck = 32

abbrev pub flag_reconfig_last_tsn_nocheck : ℕ
flag_reconfig_last_tsn_nocheck = 64

abbrev pub flag_reconfig_result_nocheck : ℕ
flag_reconfig_result_nocheck = 16

abbrev pub flag_reconfig_sender_next_tsn_nocheck : ℕ
flag_reconfig_sender_next_tsn_nocheck = 64

abbrev pub flag_reconfig_receiver_next_tsn_nocheck : ℕ
flag_reconfig_receiver_next_tsn_nocheck = 128

abbrev pub flag_reconfig_number_of_new_streams_nocheck : ℕ
flag_reconfig_number_of_new_streams_nocheck = 128

abbrev pub flag_cause_code_nocheck : ℕ
flag_cause_code_nocheck = 1

abbrev pub flag_cause_length_nocheck : ℕ
flag_cause_length_nocheck = 2

abbrev pub flag_cause_information_nocheck : ℕ
flag_cause_information_nocheck = 4

-- `flags & mask`, as a condition.
abbrev pub waived : ℕ → ℕ → Bool
waived flags mask = not (bit_and flags mask == 0)
