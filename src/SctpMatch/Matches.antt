-- ===== src/SctpMatch/Matches.antt =====
-- Each comparison of an SCTP chunk without parameters and causes in
-- gtests/net/packetdrill/run_packet.c passes exactly the chunks that match.
use packetdrill.Base.{ℕ, ◌≡◌, ◌↔◌, Option, none, some, refl, ◌==◌, true, arith}
use packetdrill.SctpMatch.Flags
use packetdrill.SctpMatch.Compare.{
  Place, Name, CheckResult, passed, with_field, check_chunk_field, ◌>>>◌, bits32,
}
use packetdrill.SctpMatch.Fixed.{
  verify_data_chunk, verify_i_data_chunk, verify_shutdown_chunk, verify_ecne_chunk,
  verify_cwr_chunk,
}
use packetdrill.SctpMatch.Sacks.{
  verify_sack_chunk, verify_nr_sack_chunk, sack_checks, sack_gap_blocks, sack_dup_tsns,
  nr_sack_checks, nr_sack_gap_blocks, nr_sack_nr_gap_blocks, nr_sack_dup_tsns, with_counts,
}
use packetdrill.SctpMatch.Forward.{
  verify_forward_tsn_chunk, verify_i_forward_tsn_chunk, get_num_id_blocks,
  get_num_id_blocks_for_i_forward_tsn,
}
use packetdrill.SctpMatch.Blobs.{
  verify_heartbeat_chunk, verify_heartbeat_ack_chunk, verify_cookie_echo_chunk,
}
use packetdrill.SctpMatch.Laws.{
  compare_field_iff, then_iff, unless_iff, check_field_iff, each_iff, passed_iff, with_field_iff,
  assert_iff, compare_bytes_iff,
}
use packetdrill.SctpMatch.Spec.{
  Wanted, Same, DataMatches, IDataMatches, SackMatches, NrSackChunkMatches, ForwardTsnMatches,
  blocks_of_four, blocks_of_eight, IForwardTsnMatches, BlobMatches,
}

pub ruleset checks = (
  compare_field_iff, then_iff, unless_iff, check_field_iff, each_iff, with_field_iff, assert_iff,
  compare_bytes_iff,
)

-- A DATA chunk passes exactly if it has the script's TSN, whether or not that is a wildcard, and
-- the script's stream, sequence number and payload protocol where these are no wildcards.
pub verify_data_chunk_iff :
    (actual script : Place) (flags : ℕ)
    → (verify_data_chunk actual script flags ≡ passed) ↔ DataMatches actual script flags
unfolding verify_data_chunk
verify_data_chunk_iff actual script flags = search checks depth 16

pub verify_i_data_chunk_iff :
    (actual script : Place) (flags : ℕ)
    → (verify_i_data_chunk actual script flags ≡ passed) ↔ IDataMatches actual script flags
unfolding verify_i_data_chunk
verify_i_data_chunk_iff actual script flags = search checks depth 16

pub verify_sack_chunk_iff :
    (actual script : Place) (flags : ℕ)
    → (verify_sack_chunk actual script flags ≡ passed) ↔ SackMatches actual script flags
unfolding verify_sack_chunk sack_checks sack_gap_blocks sack_dup_tsns
verify_sack_chunk_iff actual script flags = search checks depth 16

-- An NR-SACK chunk passes exactly if, wildcards aside, the numbers of blocks and the blocks are the
-- script's: gaps from the first block, gaps without renege behind the live chunk's gaps, and
-- duplicates behind both.
pub verify_nr_sack_chunk_iff :
    (actual script : Place) (flags : ℕ)
    → (verify_nr_sack_chunk actual script flags ≡ passed) ↔ NrSackChunkMatches actual script flags
unfolding verify_nr_sack_chunk with_counts nr_sack_checks nr_sack_gap_blocks nr_sack_nr_gap_blocks
    nr_sack_dup_tsns
verify_nr_sack_chunk_iff actual script flags = search checks depth 24

-- A field that is loaded twice has one value.
with_field-twice :
    (o : Option ℕ) (k : ℕ → ℕ → CheckResult)
    → with_field o (λ a. with_field o (λ b. k a b)) ≡ with_field o (λ a. k a a)
with_field-twice none k = refl
with_field-twice (some a) k = refl

check_chunk_field_self :
    (name : Name) (v : ℕ) (r : CheckResult) → (check_chunk_field name v v >>> r) ≡ r
unfolding check_chunk_field
check_chunk_field_self name v r = let t : (v == v) ≡ true = ground arith in rw t refl

blocks_of_four_lem : (length : ℕ) → get_num_id_blocks length ≡ blocks_of_four length
unfolding get_num_id_blocks blocks_of_four
blocks_of_four_lem length = ground arith

blocks_of_eight_lem :
    (length : ℕ) → get_num_id_blocks_for_i_forward_tsn length ≡ blocks_of_eight length
unfolding get_num_id_blocks_for_i_forward_tsn blocks_of_eight
blocks_of_eight_lem length = ground arith

-- A FORWARD-TSN chunk passes exactly if, wildcards aside, the cumulative TSN is the script's and so
-- are as many blocks as the length of the script's chunk gives. The live chunk's length has no part.
pub verify_forward_tsn_chunk_iff :
    (actual script : Place) (flags : ℕ)
    → (verify_forward_tsn_chunk actual script flags ≡ passed)
      ↔ ForwardTsnMatches actual script flags
unfolding verify_forward_tsn_chunk
verify_forward_tsn_chunk_iff actual script flags =
    simp (with_field-twice, check_chunk_field_self, blocks_of_four_lem) (search checks depth 16)

pub verify_i_forward_tsn_chunk_iff :
    (actual script : Place) (flags : ℕ)
    → (verify_i_forward_tsn_chunk actual script flags ≡ passed)
      ↔ IForwardTsnMatches actual script flags
unfolding verify_i_forward_tsn_chunk
verify_i_forward_tsn_chunk_iff actual script flags =
    simp (with_field-twice, check_chunk_field_self, blocks_of_eight_lem) (search checks depth 16)

-- The chunks of bytes are compared alike.
pub blobs_iff :
    (actual script : Place) (flags : ℕ)
    → ((verify_heartbeat_chunk actual script flags ≡ passed) ↔ BlobMatches actual script flags)
      × ((verify_heartbeat_ack_chunk actual script flags ≡ passed)
          ↔ BlobMatches actual script flags)
      × ((verify_cookie_echo_chunk actual script flags ≡ passed) ↔ BlobMatches actual script flags)
unfolding verify_heartbeat_chunk verify_heartbeat_ack_chunk verify_cookie_echo_chunk
blobs_iff actual script flags =
    (search checks depth 16, search checks depth 16, search checks depth 16)

pub verify_shutdown_chunk_iff :
    (actual script : Place) (flags : ℕ)
    → (verify_shutdown_chunk actual script flags ≡ passed)
      ↔ Wanted flags Flags.flag_shutdown_chunk_cum_tsn_nocheck (Same bits32 4 actual script)
unfolding verify_shutdown_chunk
verify_shutdown_chunk_iff actual script flags = search checks

pub verify_ecne_chunk_iff :
    (actual script : Place) (flags : ℕ)
    → (verify_ecne_chunk actual script flags ≡ passed)
      ↔ Wanted flags Flags.flag_ecne_chunk_lowest_tsn_nocheck (Same bits32 4 actual script)
unfolding verify_ecne_chunk
verify_ecne_chunk_iff actual script flags = search checks

pub verify_cwr_chunk_iff :
    (actual script : Place) (flags : ℕ)
    → (verify_cwr_chunk actual script flags ≡ passed)
      ↔ Wanted flags Flags.flag_cwr_chunk_lowest_tsn_nocheck (Same bits32 4 actual script)
unfolding verify_cwr_chunk
verify_cwr_chunk_iff actual script flags = search checks
