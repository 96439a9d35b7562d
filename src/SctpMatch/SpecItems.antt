-- ===== src/SctpMatch/SpecItems.antt =====
-- What it means that a live SCTP parameter, error cause or chunk matches the script's.
use packetdrill.Base.{
  ℕ, ◌+◌, ◌-◌, ◌/◌, ◌%◌, ◌^◌, if◌then◌else◌, ◌<◌, ◌≡◌, Bool, true, false, List, ◌==◌, leb,
}
use packetdrill.SctpMatch.Flags
use packetdrill.SctpMatch.Compare.{Place, bits8, bits16, bits32, flags_as_word}
use packetdrill.SctpMatch.Laws.{◌and◌}
use packetdrill.SctpMatch.Items.{ListItem, ChunkItem}
use packetdrill.SctpMatch.Tiles.{Tiles}
use packetdrill.SctpMatch.Packet.{
  ChunkType, data_chunk, init_chunk, init_ack_chunk, sack_chunk, heartbeat_chunk,
  heartbeat_ack_chunk, abort_chunk, shutdown_chunk, shutdown_ack_chunk, error_chunk,
  cookie_echo_chunk, cookie_ack_chunk, ecne_chunk, cwr_chunk, shutdown_complete_chunk,
  nr_sack_chunk, i_data_chunk, reconfig_chunk, pad_chunk, forward_tsn_chunk, i_forward_tsn_chunk,
  unsupported_chunk, chunk_type,
}
use packetdrill.SctpMatch.Spec.{
  Wanted, Same, Has, DataMatches, IDataMatches, SackMatches, NrSackChunkMatches, ForwardTsnMatches,
  IForwardTsnMatches, BlobMatches, ValueMatches,
}

-- `P` where the test holds, and `Q` where it does not.
abbrev pub Either : Bool → Type 0 → Type 0 → Type 0
Either c P Q = (c ≡ true → P) × (c ≡ false → Q)

-- How many stream numbers of two bytes are behind `header` bytes; for a shorter length it is what 64
-- bits wrap around to.
unfoldable pub sids_behind : ℕ → ℕ → ℕ
sids_behind length header =
    (if leb header length then (length - header) % 2 ^ 64 else 2 ^ 64 - (header - length)) / 2

-- The numbers of the streams behind `header` bytes.
abbrev pub SidsMatch : ℕ → Place → Place → Type 0
SidsMatch header a s =
    Has bits16 s 2
      (λ length. (k : ℕ) → k < sids_behind length header → Same bits16 (header + (k + k)) a s)

abbrev pub ParameterValueMatches : ℕ → Place → Place → ℕ → Type 0
ParameterValueMatches type_ a s flags =
    let req_sn = Wanted flags Flags.flag_reconfig_req_sn_nocheck (Same bits32 4 a s) in
    let streams =
      req_sn
      and Wanted flags Flags.flag_reconfig_number_of_new_streams_nocheck (Same bits16 8 a s) in
    Either (type_ == 13)
      (req_sn
        and Wanted flags Flags.flag_reconfig_resp_sn_nocheck (Same bits32 8 a s)
        and Wanted flags Flags.flag_reconfig_last_tsn_nocheck (Same bits32 12 a s)
        and SidsMatch 16 a s)
      (Either (type_ == 14) (req_sn and SidsMatch 8 a s) (
        Either (type_ == 15) req_sn (
          Either (type_ == 16)
            (Wanted flags Flags.flag_reconfig_resp_sn_nocheck (Same bits32 4 a s)
              and Wanted flags Flags.flag_reconfig_result_nocheck (Same bits32 8 a s)
              and Has bits16 a 2 (λ length.
                Either (length == 20)
                  (Wanted flags Flags.flag_reconfig_sender_next_tsn_nocheck (Same bits32 12 a s)
                    and Wanted flags Flags.flag_reconfig_receiver_next_tsn_nocheck
                        (Same bits32 16 a s))
                  (Unit {0})))
            (Either (type_ == 17) streams (
              Either (type_ == 18) streams (
                ValueMatches Flags.flag_parameter_value_nocheck Flags.flag_parameter_length_nocheck
                  a s flags))))))

-- The type, the length, and the value as its type says.
abbrev pub ParameterMatches : Place → ListItem → Type 0
ParameterMatches a item =
    Wanted item.flags Flags.flag_parameter_type_nocheck (Same bits16 0 a item.place)
    and Wanted item.flags Flags.flag_parameter_length_nocheck (Same bits16 2 a item.place)
    and Has bits16 a 0 (λ type_. ParameterValueMatches type_ a item.place item.flags)

abbrev pub CauseMatches : Place → ListItem → Type 0
CauseMatches a item =
    Wanted item.flags Flags.flag_cause_code_nocheck (Same bits16 0 a item.place)
    and Wanted item.flags Flags.flag_cause_length_nocheck (Same bits16 2 a item.place)
    and ValueMatches Flags.flag_cause_information_nocheck Flags.flag_cause_length_nocheck a
        item.place item.flags

-- From `begin` to `end` there are as many parameters as the script has, and they match.
abbrev pub ParametersMatch : List ℕ → ℕ → ℕ → List ListItem → Type 0
ParametersMatch memory begin end items =
    Tiles memory end (λ p. ParameterMatches record { memory = memory; start = p }) begin items

abbrev pub CausesMatch : List ℕ → ℕ → ℕ → List ListItem → Type 0
CausesMatch memory begin end items =
    Tiles memory end (λ p. CauseMatches record { memory = memory; start = p }) begin items

abbrev pub InitMatches : Place → ChunkItem → Type 0
InitMatches a item = Has bits16 a 2 (λ length.
    (leb 20 length ≡ true)
    and Wanted item.flags Flags.flag_init_chunk_tag_nocheck (Same bits32 4 a item.chunk)
    and Wanted item.flags Flags.flag_init_chunk_a_rwnd_nocheck (Same bits32 8 a item.chunk)
    and Wanted item.flags Flags.flag_init_chunk_os_nocheck (Same bits16 12 a item.chunk)
    and Wanted item.flags Flags.flag_init_chunk_is_nocheck (Same bits16 14 a item.chunk)
    and Wanted item.flags Flags.flag_init_chunk_tsn_nocheck (Same bits32 16 a item.chunk)
    and Wanted item.flags Flags.flag_init_chunk_opt_param_nocheck
        (ParametersMatch a.memory (a.start + 20) (a.start + length) item.parameter_list))

abbrev pub CausedMatches : ℕ → Place → ChunkItem → Type 0
CausedMatches mask a item = Has bits16 a 2 (λ length.
    (leb 4 length ≡ true)
    and Wanted item.flags mask
        (CausesMatch a.memory (a.start + 4) (a.start + length) item.cause_list))

abbrev pub ReconfigMatches : Place → ChunkItem → Type 0
ReconfigMatches a item = Has bits16 a 2 (λ length.
    Wanted item.flags Flags.flag_chunk_flags_nocheck (Same flags_as_word 1 a item.chunk)
    and ParametersMatch a.memory (a.start + 4) (a.start + length) item.parameter_list)

abbrev pub BodyMatches : ChunkType → Place → ChunkItem → Type 0
BodyMatches data_chunk a item = DataMatches a item.chunk item.flags
BodyMatches init_chunk a item = InitMatches a item
BodyMatches init_ack_chunk a item = InitMatches a item
BodyMatches sack_chunk a item = SackMatches a item.chunk item.flags
BodyMatches nr_sack_chunk a item = NrSackChunkMatches a item.chunk item.flags
BodyMatches heartbeat_chunk a item = BlobMatches a item.chunk item.flags
BodyMatches heartbeat_ack_chunk a item = BlobMatches a item.chunk item.flags
BodyMatches abort_chunk a item = CausedMatches Flags.flag_abort_chunk_opt_causes_nocheck a item
BodyMatches shutdown_chunk a item =
    Wanted item.flags Flags.flag_shutdown_chunk_cum_tsn_nocheck (Same bits32 4 a item.chunk)
BodyMatches shutdown_ack_chunk a item = Unit {0}
BodyMatches error_chunk a item = CausedMatches Flags.flag_error_chunk_opt_causes_nocheck a item
BodyMatches cookie_echo_chunk a item = BlobMatches a item.chunk item.flags
BodyMatches cookie_ack_chunk a item = Unit {0}
BodyMatches ecne_chunk a item =
    Wanted item.flags Flags.flag_ecne_chunk_lowest_tsn_nocheck (Same bits32 4 a item.chunk)
BodyMatches cwr_chunk a item =
    Wanted item.flags Flags.flag_cwr_chunk_lowest_tsn_nocheck (Same bits32 4 a item.chunk)
BodyMatches shutdown_complete_chunk a item = Unit {0}
BodyMatches i_data_chunk a item = IDataMatches a item.chunk item.flags
BodyMatches pad_chunk a item = Unit {0}
BodyMatches reconfig_chunk a item = ReconfigMatches a item
BodyMatches forward_tsn_chunk a item = ForwardTsnMatches a item.chunk item.flags
BodyMatches i_forward_tsn_chunk a item = IForwardTsnMatches a item.chunk item.flags
BodyMatches unsupported_chunk a item = ⊥

-- The type, the flags and the length, and the rest of the chunk as its type says.
abbrev pub ChunkMatches : Place → ChunkItem → Type 0
ChunkMatches a item =
    Same bits8 0 a item.chunk
    and Wanted item.flags Flags.flag_chunk_flags_nocheck (Same bits8 1 a item.chunk)
    and Wanted item.flags Flags.flag_chunk_length_nocheck (Same bits16 2 a item.chunk)
    and Has bits8 a 0 (λ type_. BodyMatches (chunk_type type_) a item)
