-- ===== src/Tests/SctpMatching.antt =====
-- Comparisons of SCTP chunks: a SACK chunk with one gap and one duplicate behind a COOKIE ACK, and
-- chunks that the constructors build.
use packetdrill.Base.{some, ℕ, ◌+◌, ◌≡◌, ◌↔◌, ◌++◌, refl, List, [], ◌∷◌, length, arith, IsByte, All}
use packetdrill.Sctp.{item_length, get_current_chunk, sctp_chunks_begin, sctp_chunks_next}
use packetdrill.SctpMatch.Compare.{
  Place, passed, differs, load, load16, compare_field, check_chunk_field, for_each,
  sctp_data_chunk_tsn, sctp_sack_chunk_gap_block_end,
}
use packetdrill.SctpMatch.Items.{ChunkItem, ListItem, compare_items}
use packetdrill.SctpMatch.Fixed.{verify_data_chunk, verify_cookie_ack_chunk}
use packetdrill.SctpMatch.Sacks.{
  verify_sack_chunk, sack_checks, sack_gap_blocks, sack_dup_tsns, verify_nr_sack_chunk,
}
use packetdrill.SctpMatch.Forward.{verify_forward_tsn_chunk}
use packetdrill.SctpMatch.Parameters.{verify_sctp_parameters}
use packetdrill.SctpMatch.Packet.{chunk_type, verify_chunk, verify_chunk_by_type, verify_sctp}
use packetdrill.SctpMatch.Spec.{DataMatches, NrSackChunkMatches, ForwardTsnMatches}
use packetdrill.SctpMatch.SpecItems.{ChunkMatches, ParametersMatch}
use packetdrill.SctpMatch.Tiles.{Tiles}
use packetdrill.SctpMatch.Matches.{
  verify_data_chunk_iff, verify_nr_sack_chunk_iff, verify_forward_tsn_chunk_iff,
}
use packetdrill.SctpMatch.MatchesItems.{verify_sctp_parameters_iff}
use packetdrill.SctpMatch.MatchesPacket.{verify_sctp_iff}
use packetdrill.SctpMatch.Own.{IsOwn, chunks_bytes, verify_sctp_own}
use packetdrill.SctpPacket.{minus_one}
use packetdrill.SctpPacket.Fixed.{
  sctp_data_chunk_new, sctp_i_data_chunk_new, sctp_shutdown_chunk_new, sctp_shutdown_ack_chunk_new,
  sctp_cookie_ack_chunk_new, sctp_ecne_chunk_new, sctp_cwr_chunk_new,
  sctp_shutdown_complete_chunk_new,
}
use packetdrill.SctpPacket.Accepts.{BuildsFor}
use packetdrill.SctpPacket.Data.{
  DataFor, IDataFor, sctp_data_chunk_new-BuildsFor, sctp_i_data_chunk_new-BuildsFor,
}
use packetdrill.SctpPacket.Small.{ItemFor, NumberFor, PlainFor, small_chunks-ItemFor}

abbrev sack_bytes : List ℕ
sack_bytes =
    3 ∷ 0 ∷ 0 ∷ 24 ∷ 0 ∷ 0 ∷ 0 ∷ 9 ∷ 0 ∷ 0 ∷ 1 ∷ 0 ∷ 0 ∷ 1 ∷ 0 ∷ 1 ∷ 0 ∷ 2 ∷ 0 ∷ 3 ∷ 0 ∷ 0 ∷ 0 ∷ 7
    ∷ []

abbrev cookie_ack_bytes : List ℕ
cookie_ack_bytes = 11 ∷ 0 ∷ 0 ∷ 4 ∷ []

abbrev block_at : List ℕ → Place
block_at bytes = record { memory = bytes; start = 0 }

abbrev plain_item : List ℕ → ChunkItem
plain_item bytes = record {
  chunk = block_at bytes;
  parameter_list = [];
  cause_list = [];
  flags = 0;
}

abbrev script_items : List ChunkItem
script_items = plain_item cookie_ack_bytes ∷ plain_item sack_bytes ∷ []

abbrev live_bytes : List ℕ
live_bytes = 1 ∷ 2 ∷ 3 ∷ 4 ∷ cookie_ack_bytes ++ sack_bytes

live_passes : verify_sctp live_bytes 4 32 script_items ≡ passed
unfolding verify_sctp sctp_chunks_begin sctp_chunks_next get_current_chunk item_length compare_items
    verify_chunk chunk_type verify_chunk_by_type verify_cookie_ack_chunk verify_sack_chunk
    sack_checks sack_gap_blocks sack_dup_tsns compare_field check_chunk_field for_each load load16
live_passes = refl

-- The end of the gap is 4 in the live packet and 3 in the script.
other_gap :
    verify_sack_chunk
      (block_at (
        3 ∷ 0 ∷ 0 ∷ 24 ∷ 0 ∷ 0 ∷ 0 ∷ 9 ∷ 0 ∷ 0 ∷ 1 ∷ 0 ∷ 0 ∷ 1 ∷ 0 ∷ 1 ∷ 0 ∷ 2 ∷ 0 ∷ 4 ∷ 0 ∷ 0 ∷ 0
        ∷ 7 ∷ []))
      (block_at sack_bytes)
      0
    ≡ differs sctp_sack_chunk_gap_block_end 3 4
unfolding verify_sack_chunk sack_checks sack_gap_blocks sack_dup_tsns compare_field
    check_chunk_field for_each load load16
other_gap = refl

live_IsByte : All IsByte live_bytes
live_IsByte = ground arith

verify_sctp_iff_example :
    (verify_sctp live_bytes 4 32 script_items ≡ passed)
    ↔ Tiles live_bytes 32
        (λ p. ChunkMatches record { memory = live_bytes; start = p })
        4
        script_items
verify_sctp_iff_example =
    verify_sctp_iff live_bytes 4 32 script_items live_IsByte (omega arith) (omega arith)

script_IsOwn : All IsOwn script_items
unfolding verify_chunk chunk_type verify_chunk_by_type verify_cookie_ack_chunk verify_sack_chunk
    sack_checks sack_gap_blocks sack_dup_tsns compare_field check_chunk_field for_each load load16
    item_length
script_IsOwn = (
  (4, refl, refl, omega arith, refl, ground arith, refl),
  ((24, refl, refl, omega arith, refl, ground arith, refl), tt),
)

verify_sctp_own_example :
    verify_sctp
      ((1 ∷ 2 ∷ 3 ∷ 4 ∷ []) ++ chunks_bytes script_items)
      4
      (4 + length (chunks_bytes script_items))
      script_items
    ≡ passed
verify_sctp_own_example =
    verify_sctp_own (1 ∷ 2 ∷ 3 ∷ 4 ∷ []) script_items (ground arith) script_IsOwn

-- DATA chunks with the numbers 5 and 0. The script's has the mark of a wildcard there.
abbrev live_data : List ℕ
live_data = 0 ∷ 3 ∷ 0 ∷ 16 ∷ 0 ∷ 0 ∷ 0 ∷ 5 ∷ 0 ∷ 0 ∷ 0 ∷ 0 ∷ 0 ∷ 0 ∷ 0 ∷ 0 ∷ []

abbrev script_data : List ℕ
script_data = 0 ∷ 3 ∷ 0 ∷ 16 ∷ 0 ∷ 0 ∷ 0 ∷ 0 ∷ 0 ∷ 0 ∷ 0 ∷ 0 ∷ 0 ∷ 0 ∷ 0 ∷ 0 ∷ []

wildcard_tsn_differs :
    verify_data_chunk (block_at live_data) (block_at script_data) 0x100
    ≡ differs sctp_data_chunk_tsn 0 5
unfolding verify_data_chunk compare_field check_chunk_field load load16
wildcard_tsn_differs = refl

verify_data_chunk_iff_example :
    (verify_data_chunk (block_at live_data) (block_at script_data) 0x100 ≡ passed)
    ↔ DataMatches (block_at live_data) (block_at script_data) 0x100
verify_data_chunk_iff_example =
    verify_data_chunk_iff (block_at live_data) (block_at script_data) 0x100

-- One gap, one gap without renege, and one duplicate.
abbrev nr_sack_bytes : List ℕ
nr_sack_bytes =
    16 ∷ 0 ∷ 0 ∷ 32 ∷ 0 ∷ 0 ∷ 0 ∷ 9 ∷ 0 ∷ 0 ∷ 1 ∷ 0 ∷ 0 ∷ 1 ∷ 0 ∷ 1 ∷ 0 ∷ 1 ∷ 0 ∷ 0 ∷ 0 ∷ 2 ∷ 0 ∷ 3
    ∷ 0 ∷ 4 ∷ 0 ∷ 5 ∷ 0 ∷ 0 ∷ 0 ∷ 7 ∷ []

verify_nr_sack_chunk_iff_example :
    (verify_nr_sack_chunk (block_at nr_sack_bytes) (block_at nr_sack_bytes) 0 ≡ passed)
    ↔ NrSackChunkMatches (block_at nr_sack_bytes) (block_at nr_sack_bytes) 0
verify_nr_sack_chunk_iff_example =
    verify_nr_sack_chunk_iff (block_at nr_sack_bytes) (block_at nr_sack_bytes) 0

-- The live chunk has two blocks and the script's one.
abbrev live_forward : List ℕ
live_forward = 192 ∷ 0 ∷ 0 ∷ 16 ∷ 0 ∷ 0 ∷ 0 ∷ 9 ∷ 0 ∷ 1 ∷ 0 ∷ 2 ∷ 0 ∷ 3 ∷ 0 ∷ 4 ∷ []

abbrev script_forward : List ℕ
script_forward = 192 ∷ 0 ∷ 0 ∷ 12 ∷ 0 ∷ 0 ∷ 0 ∷ 9 ∷ 0 ∷ 1 ∷ 0 ∷ 2 ∷ []

verify_forward_tsn_chunk_iff_example :
    (verify_forward_tsn_chunk (block_at live_forward) (block_at script_forward) 0 ≡ passed)
    ↔ ForwardTsnMatches (block_at live_forward) (block_at script_forward) 0
verify_forward_tsn_chunk_iff_example =
    verify_forward_tsn_chunk_iff (block_at live_forward) (block_at script_forward) 0

-- A parameter of six bytes, padded to eight, and one of four bytes.
abbrev two_parameters : List ℕ
two_parameters = 0 ∷ 7 ∷ 0 ∷ 6 ∷ 1 ∷ 2 ∷ 0 ∷ 0 ∷ 128 ∷ 0 ∷ 0 ∷ 4 ∷ []

abbrev parameter_items : List ListItem
parameter_items =
    record { place = record { memory = two_parameters; start = 0 }; flags = 0 }
    ∷ record { place = record { memory = two_parameters; start = 8 }; flags = 0 }
    ∷ []

verify_sctp_parameters_iff_example :
    (verify_sctp_parameters two_parameters 0 12 parameter_items ≡ passed)
    ↔ ParametersMatch two_parameters 0 (0 + 12) parameter_items
verify_sctp_parameters_iff_example =
    verify_sctp_parameters_iff two_parameters 0 12 parameter_items (omega arith)

live_data_length : item_length live_data 0 ≡ some 16
unfolding item_length
live_data_length = refl

-- A length of nineteen bytes, and a wildcard TSN.
sctp_data_chunk_new-BuildsFor_example :
    BuildsFor
      (sctp_data_chunk_new 3 19 minus_one 1 2 0)
      (block_at live_data)
      (DataFor (block_at live_data) 3 19 minus_one 1 2 0)
sctp_data_chunk_new-BuildsFor_example =
    sctp_data_chunk_new-BuildsFor 3 19 minus_one 1 2 0 live_data 0 16 (omega arith) live_data_length
      (omega arith) (omega arith) (omega arith)

sctp_i_data_chunk_new-BuildsFor_example :
    BuildsFor
      (sctp_i_data_chunk_new 3 minus_one 7 1 0 2 minus_one 4)
      (block_at live_data)
      (IDataFor (block_at live_data) 3 minus_one 7 1 0 2 minus_one 4)
sctp_i_data_chunk_new-BuildsFor_example =
    sctp_i_data_chunk_new-BuildsFor 3 minus_one 7 1 0 2 minus_one 4 live_data 0 16 (omega arith)
      live_data_length (omega arith) (omega arith) (omega arith)

abbrev live_shutdown : List ℕ
live_shutdown = 7 ∷ 0 ∷ 0 ∷ 8 ∷ 0 ∷ 0 ∷ 0 ∷ 5 ∷ []

live_shutdown_length : item_length live_shutdown 0 ≡ some 8
unfolding item_length
live_shutdown_length = refl

small_chunks-ItemFor_example :
    ItemFor
      (sctp_shutdown_chunk_new minus_one 5)
      (block_at live_shutdown)
      (NumberFor (block_at live_shutdown) 7 minus_one 5)
    × ItemFor
        (sctp_shutdown_ack_chunk_new minus_one)
        (block_at live_shutdown)
        (PlainFor (block_at live_shutdown) 8 minus_one)
    × ItemFor
        (sctp_cookie_ack_chunk_new minus_one)
        (block_at live_shutdown)
        (PlainFor (block_at live_shutdown) 11 minus_one)
    × ItemFor
        (sctp_ecne_chunk_new minus_one 5)
        (block_at live_shutdown)
        (NumberFor (block_at live_shutdown) 12 minus_one 5)
    × ItemFor
        (sctp_cwr_chunk_new minus_one 5)
        (block_at live_shutdown)
        (NumberFor (block_at live_shutdown) 13 minus_one 5)
    × ItemFor
        (sctp_shutdown_complete_chunk_new minus_one)
        (block_at live_shutdown)
        (PlainFor (block_at live_shutdown) 14 minus_one)
small_chunks-ItemFor_example =
    small_chunks-ItemFor live_shutdown 0 8 live_shutdown_length (omega arith) (omega arith)
      (omega arith) minus_one 5
