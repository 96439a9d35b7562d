-- ===== src/SctpMatch/Compare.antt =====
-- The comparison of a field of a live SCTP chunk with the script's, `check_field` of
-- gtests/net/packetdrill/run_packet.c on what `ntohs` and `ntohl` load, and the chains and loops
-- of such comparisons.
use packetdrill.Base.{
  ℕ, zero, suc, ◌+◌, ◌*◌, Bool, true, false, not, ◌&&◌, List, [], ◌∷◌, Option, none, some, ◌==◌,
  if◌then◌else◌, get_elem?,
}
use packetdrill.Sctp.{both}

-- A pointer into an allocated block of bytes.
pub record Place : Type 0 where
  pub memory : List ℕ
  pub start : ℕ

-- How many bits a field has. `flags_as_word` is `ntohl` of a field of one byte.
pub data Width : Type 0 where
  bits8 bits16 bits32 flags_as_word : Width

abbrev pub byte_at : Place → ℕ → Option ℕ
byte_at p i = get_elem? p.memory (p.start + i)

abbrev pub both32 : Option ℕ → Option ℕ → Option ℕ
both32 none y = none
both32 (some a) none = none
both32 (some a) (some b) = some (a * 65536 + b)

abbrev pub shifted : Option ℕ → Option ℕ
shifted none = none
shifted (some a) = some (a * 16777216)

unfoldable pub load16 : Place → ℕ → Option ℕ
load16 p i = both (byte_at p i) (byte_at p (i + 1))

-- The field at offset `i`, in host byte order; `none` if it is not in the memory.
unfoldable pub load : Width → Place → ℕ → Option ℕ
load bits8 p i = byte_at p i
load bits16 p i = load16 p i
load bits32 p i = both32 (load16 p i) (load16 p (i + 2))
load flags_as_word p i = shifted (byte_at p i)

-- What a message names.
pub data Name : Type 0 where
  sctp_chunk_type sctp_chunk_flags sctp_chunk_length : Name
  sctp_parameter_type sctp_parameter_length sctp_cause_code sctp_cause_length : Name
  outgoing_req_sn outgoing_resp_sn outgoing_last_tsn outgoing_sids : Name
  incoming_req_sn incoming_sids ssn_tsn_req_sn : Name
  response_resp_sn response_result response_sender_next_tsn response_receiver_next_tsn : Name
  add_outgoing_req_sn add_outgoing_number_of_new_streams : Name
  add_incoming_req_sn add_incoming_number_of_new_streams : Name
  sctp_data_chunk_tsn sctp_data_chunk_sid sctp_data_chunk_ssn sctp_data_chunk_ppid : Name
  sctp_init_chunk_tag sctp_init_chunk_a_rwnd sctp_init_chunk_os sctp_init_chunk_is
        sctp_init_chunk_tsn :
      Name
  sctp_init_ack_chunk_tag sctp_init_ack_chunk_a_rwnd sctp_init_ack_chunk_os sctp_init_ack_chunk_is
        sctp_init_ack_chunk_tsn :
      Name
  sctp_sack_chunk_cum_tsn sctp_sack_chunk_a_rwnd sctp_sack_chunk_nr_gap_blocks
        sctp_sack_chunk_nr_dup_tsns sctp_sack_chunk_gap_block_start sctp_sack_chunk_gap_block_end
        sctp_sack_chunk_dup_tsn :
      Name
  sctp_nr_sack_chunk_cum_tsn sctp_nr_sack_chunk_a_rwnd sctp_nr_sack_chunk_nr_gap_blocks
        sctp_nr_sack_chunk_nr_of_nr_gap_blocks sctp_nr_sack_chunk_nr_dup_tsns
        sctp_nr_sack_chunk_gap_block_start sctp_nr_sack_chunk_gap_block_end
        sctp_nr_sack_chunk_nr_gap_block_start sctp_nr_sack_chunk_nr_gap_block_end
        sctp_nr_sack_chunk_dup_tsn :
      Name
  sctp_shutdown_chunk_cum_tsn sctp_ecne_chunk_lowest_tsn sctp_cwr_chunk_lowest_tsn : Name
  sctp_i_data_chunk_tsn sctp_i_data_chunk_sid sctp_i_data_chunk_res sctp_i_data_chunk_mid
        sctp_i_data_chunk_ppid sctp_i_data_chunk_fsn :
      Name
  sctp_reconfig_flags : Name
  sctp_forward_tsn_cum_tsn nr_sid_blocks sctp_forward_tsn_stream_identifier
        sctp_forward_tsn_stream_sequence_number :
      Name
  sctp_i_forward_tsn_cum_tsn nr_id_blocks sctp_i_forward_tsn_stream_identifier
        sctp_i_forward_tsn_u_bit sctp_i_forward_tsn_message_identifier :
      Name

-- The other messages; `no_message` is `STATUS_ERR` without one.
pub data Message : Type 0 where
  partial_chunk partial_parameter partial_cause : Message
  number_of_chunks number_of_parameters number_of_causes : Message
  parameter_value cause_information heartbeat_info no_message : Message

-- `passed` is `STATUS_OK`; `differs` names the field, the expected and the actual value;
-- `assertion_failed` ends the program; `bad_read` is a read outside the memory.
pub data CheckResult : Type 0 where
  passed : CheckResult
  differs : Name → ℕ → ℕ → CheckResult
  rejected : Message → CheckResult
  assertion_failed bad_read : CheckResult

-- `||` between checks: the next one is made if this one is passed.
infixr 3 ◌>>>◌
abbrev pub ◌>>>◌ : CheckResult → CheckResult → CheckResult
passed >>> next = next
differs name e a >>> next = differs name e a
rejected m >>> next = rejected m
assertion_failed >>> next = assertion_failed
bad_read >>> next = bad_read

unfoldable pub check_chunk_field : Name → ℕ → ℕ → CheckResult
check_chunk_field name expected actual =
    if not (actual == expected) then differs name expected actual else passed

-- A load, and what the code does with the value.
abbrev pub with_field {ℓ} : {A : Type ℓ} → Option A → (A → CheckResult) → CheckResult
with_field none k = bad_read
with_field (some v) k = k v

-- `check_field` of the script's field at `i` and the live one at `j`.
unfoldable pub compare_field : Name → Width → Place → ℕ → Place → ℕ → CheckResult
compare_field name w script i actual j =
    with_field (load w script i)
      (λ expected. with_field (load w actual j) (λ found. check_chunk_field name expected found))

-- `flags & mask ? STATUS_OK : check`.
abbrev pub unless : Bool → CheckResult → CheckResult
unless true check = passed
unless false check = check

abbrev pub assert : Bool → CheckResult
assert true = passed
assert false = assertion_failed

-- `for (i = 0; i < n; i++) if (body(i)) return STATUS_ERR;`, from `i` on.
unfoldable pub for_each : ℕ → ℕ → (ℕ → CheckResult) → CheckResult
for_each zero i body = passed
for_each (suc n) i body = body i >>> for_each n (i + 1) body

abbrev pub prepend : Option ℕ → Option (List ℕ) → Option (List ℕ)
prepend none rest = none
prepend (some b) none = none
prepend (some b) (some bs) = some (b ∷ bs)

unfoldable pub bytes_from : Place → ℕ → ℕ → Option (List ℕ)
bytes_from p i zero = some []
bytes_from p i (suc n) = prepend (byte_at p i) (bytes_from p (i + 1) n)

unfoldable pub same_bytes : List ℕ → List ℕ → Bool
same_bytes [] [] = true
same_bytes [] (b ∷ bs) = false
same_bytes (a ∷ as_) [] = false
same_bytes (a ∷ as_) (b ∷ bs) = (a == b) && same_bytes as_ bs

-- `memcmp` of `n` bytes, all of which have to lie in the memory.
unfoldable pub compare_bytes : Message → Place → ℕ → Place → ℕ → ℕ → CheckResult
compare_bytes message script i actual j n = with_field (bytes_from script i n) (λ expected.
    with_field (bytes_from actual j n)
      (λ found. if same_bytes expected found then passed else rejected message))
