-- ===== src/SctpMatch/Sacks.antt =====
-- The comparison of SCTP chunks with arrays of blocks: `verify_sack_chunk` and
-- `verify_nr_sack_chunk` of gtests/net/packetdrill/run_packet.c.
use packetdrill.Base.{ℕ, ◌+◌, ◌*◌, if◌then◌else◌, u16}
use packetdrill.SctpMatch.Flags
use packetdrill.SctpMatch.Compare.{
  Place, CheckResult, with_field, ◌>>>◌, load, check_chunk_field, compare_field, unless, for_each,
  bits16, bits32, sctp_sack_chunk_cum_tsn, sctp_sack_chunk_a_rwnd, sctp_sack_chunk_nr_gap_blocks,
  sctp_sack_chunk_nr_dup_tsns, sctp_sack_chunk_gap_block_start, sctp_sack_chunk_gap_block_end,
  sctp_sack_chunk_dup_tsn, sctp_nr_sack_chunk_cum_tsn, sctp_nr_sack_chunk_a_rwnd,
  sctp_nr_sack_chunk_nr_gap_blocks, sctp_nr_sack_chunk_nr_of_nr_gap_blocks,
  sctp_nr_sack_chunk_nr_dup_tsns, sctp_nr_sack_chunk_gap_block_start,
  sctp_nr_sack_chunk_gap_block_end, sctp_nr_sack_chunk_nr_gap_block_start,
  sctp_nr_sack_chunk_nr_gap_block_end, sctp_nr_sack_chunk_dup_tsn,
}

-- The offset of `block[i]`.
abbrev pub sack_block : ℕ → ℕ
sack_block i = 16 + 4 * i

unfoldable pub sack_gap_blocks : Place → Place → ℕ → CheckResult
sack_gap_blocks actual script n = for_each n 0 (λ i.
    compare_field sctp_sack_chunk_gap_block_start bits16 script (sack_block i) actual (sack_block i)
    >>> compare_field sctp_sack_chunk_gap_block_end bits16 script (sack_block i + 2) actual
        (sack_block i + 2))

unfoldable pub sack_dup_tsns : Place → Place → ℕ → ℕ → ℕ → CheckResult
sack_dup_tsns actual script script_base actual_base n = for_each n 0 (λ i.
    compare_field sctp_sack_chunk_dup_tsn bits32 script (sack_block (script_base + i)) actual
      (sack_block (actual_base + i)))

-- The checks behind the loads of the four counts.
unfoldable pub sack_checks : Place → Place → ℕ → ℕ → ℕ → ℕ → ℕ → CheckResult
sack_checks actual script flags actual_gaps actual_dups script_gaps script_dups =
    let gaps_waived = Flags.waived flags Flags.flag_sack_chunk_gap_blocks_nocheck in
    let dups_waived = Flags.waived flags Flags.flag_sack_chunk_dup_tsns_nocheck in
    unless (Flags.waived flags Flags.flag_sack_chunk_cum_tsn_nocheck)
      (compare_field sctp_sack_chunk_cum_tsn bits32 script 4 actual 4)
    >>> unless (Flags.waived flags Flags.flag_sack_chunk_a_rwnd_nocheck)
        (compare_field sctp_sack_chunk_a_rwnd bits32 script 8 actual 8)
    >>> unless gaps_waived (check_chunk_field sctp_sack_chunk_nr_gap_blocks script_gaps actual_gaps)
    >>> unless dups_waived (check_chunk_field sctp_sack_chunk_nr_dup_tsns script_dups actual_dups)
    >>> unless gaps_waived (sack_gap_blocks actual script script_gaps)
    >>> unless dups_waived (
        sack_dup_tsns actual script (if gaps_waived then 0 else actual_gaps) actual_gaps
          script_dups)

unfoldable pub verify_sack_chunk : Place → Place → ℕ → CheckResult
verify_sack_chunk actual script flags = with_field (load bits16 actual 12) (λ actual_nr_gap_blocks.
    with_field (load bits16 actual 14) (λ actual_nr_dup_tsns.
      with_field (load bits16 script 12) (λ script_nr_gap_blocks.
        with_field (load bits16 script 14) (λ script_nr_dup_tsns.
          sack_checks actual script flags actual_nr_gap_blocks actual_nr_dup_tsns
            script_nr_gap_blocks script_nr_dup_tsns))))

abbrev pub nr_sack_block : ℕ → ℕ
nr_sack_block i = 20 + 4 * i

-- The three numbers of blocks in the header of an NR-SACK chunk.
pub record Counts : Type 0 where
  pub nr_gap_blocks : ℕ
  pub nr_of_nr_gap_blocks : ℕ
  pub nr_dup_tsns : ℕ

unfoldable pub nr_sack_gap_blocks : Place → Place → ℕ → CheckResult
nr_sack_gap_blocks actual script n = for_each n 0 (λ i.
    compare_field sctp_nr_sack_chunk_gap_block_start bits16 script (nr_sack_block i) actual
      (nr_sack_block i)
    >>> compare_field sctp_nr_sack_chunk_gap_block_end bits16 script (nr_sack_block i + 2) actual
        (nr_sack_block i + 2))

unfoldable pub nr_sack_nr_gap_blocks : Place → Place → ℕ → ℕ → ℕ → CheckResult
nr_sack_nr_gap_blocks actual script script_base actual_base n = for_each n 0 (λ i.
    compare_field sctp_nr_sack_chunk_nr_gap_block_start bits16 script
      (nr_sack_block (script_base + i)) actual (nr_sack_block (actual_base + i))
    >>> compare_field sctp_nr_sack_chunk_nr_gap_block_end bits16 script
        (nr_sack_block (script_base + i) + 2) actual (nr_sack_block (actual_base + i) + 2))

unfoldable pub nr_sack_dup_tsns : Place → Place → ℕ → ℕ → ℕ → CheckResult
nr_sack_dup_tsns actual script script_base actual_base n = for_each n 0 (λ i.
    compare_field sctp_nr_sack_chunk_dup_tsn bits32 script (nr_sack_block (script_base + i)) actual
      (nr_sack_block (actual_base + i)))

-- The checks behind the loads of the counts; the bases are `u16`.
unfoldable pub nr_sack_checks : Place → Place → ℕ → Counts → Counts → CheckResult
nr_sack_checks actual script flags a s =
    let gaps_waived = Flags.waived flags Flags.flag_nr_sack_chunk_gap_blocks_nocheck in
    let nr_gaps_waived = Flags.waived flags Flags.flag_nr_sack_chunk_nr_gap_blocks_nocheck in
    let dups_waived = Flags.waived flags Flags.flag_nr_sack_chunk_dup_tsns_nocheck in
    let base = if gaps_waived then 0 else a.nr_gap_blocks in
    let dup_base = if nr_gaps_waived then base else u16 (base + s.nr_of_nr_gap_blocks) in
    unless (Flags.waived flags Flags.flag_nr_sack_chunk_cum_tsn_nocheck)
      (compare_field sctp_nr_sack_chunk_cum_tsn bits32 script 4 actual 4)
    >>> unless (Flags.waived flags Flags.flag_nr_sack_chunk_a_rwnd_nocheck)
        (compare_field sctp_nr_sack_chunk_a_rwnd bits32 script 8 actual 8)
    >>> unless gaps_waived
        (check_chunk_field sctp_nr_sack_chunk_nr_gap_blocks s.nr_gap_blocks a.nr_gap_blocks)
    >>> unless nr_gaps_waived (
        check_chunk_field sctp_nr_sack_chunk_nr_of_nr_gap_blocks s.nr_of_nr_gap_blocks
          a.nr_of_nr_gap_blocks)
    >>> unless dups_waived
        (check_chunk_field sctp_nr_sack_chunk_nr_dup_tsns s.nr_dup_tsns a.nr_dup_tsns)
    >>> unless gaps_waived (nr_sack_gap_blocks actual script s.nr_gap_blocks)
    >>> unless nr_gaps_waived
        (nr_sack_nr_gap_blocks actual script base a.nr_gap_blocks s.nr_of_nr_gap_blocks)
    >>> unless dups_waived (
        nr_sack_dup_tsns actual script dup_base (u16 (a.nr_gap_blocks + a.nr_of_nr_gap_blocks))
          s.nr_dup_tsns)

unfoldable pub with_counts : Place → (Counts → CheckResult) → CheckResult
with_counts p k = with_field (load bits16 p 12) (λ gaps. with_field (load bits16 p 14) (λ nr_gaps.
    with_field (load bits16 p 16) (λ dups.
      k record { nr_gap_blocks = gaps; nr_of_nr_gap_blocks = nr_gaps; nr_dup_tsns = dups })))

unfoldable pub verify_nr_sack_chunk : Place → Place → ℕ → CheckResult
verify_nr_sack_chunk actual script flags =
    with_counts actual (λ a. with_counts script (λ s. nr_sack_checks actual script flags a s))
