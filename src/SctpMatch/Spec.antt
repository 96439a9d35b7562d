-- ===== src/SctpMatch/Spec.antt =====
-- What it means that a live SCTP chunk matches the script's: fields with the same value, arrays
-- of blocks with the same values, bytes that are the same, and lists of parameters and causes
-- that correspond one for one, except where the script has a wildcard.
use packetdrill.Base.{
  ℕ, ◌+◌, ◌-◌, ◌*◌, ◌/◌, ◌%◌, ◌<◌, ◌≡◌, true, false, not, some, if◌then◌else◌, leb, u16,
}
use packetdrill.SctpMatch.Flags
use packetdrill.SctpMatch.Compare.{Place, Width, load, bits16, bits32}
use packetdrill.SctpMatch.Laws.{SameField, SameBytes, ◌and◌}
use packetdrill.SctpMatch.Sacks.{Counts}
use packetdrill.SctpMatch.Parameters.{value_length}

-- `P` holds, unless the script has the wildcard.
abbrev pub Wanted : ℕ → ℕ → Type 0 → Type 0
Wanted flags mask P = Flags.waived flags mask ≡ false → P

-- The fields at the same offset of both.
abbrev pub Same : Width → ℕ → Place → Place → Type 0
Same w i actual script = SameField w script i actual i

-- The field is in the memory and its value has the property.
abbrev pub Has : Width → Place → ℕ → (ℕ → Type 0) → Type 0
Has w p i P = (v : ℕ) × (load w p i ≡ some v) × P v

abbrev pub DataMatches : Place → Place → ℕ → Type 0
DataMatches a s flags =
    Same bits32 4 a s
    and Wanted flags Flags.flag_data_chunk_sid_nocheck (Same bits16 8 a s)
    and Wanted flags Flags.flag_data_chunk_ssn_nocheck (Same bits16 10 a s)
    and Wanted flags Flags.flag_data_chunk_ppid_nocheck (Same bits32 12 a s)

abbrev pub IDataMatches : Place → Place → ℕ → Type 0
IDataMatches a s flags =
    Same bits32 4 a s
    and Wanted flags Flags.flag_i_data_chunk_sid_nocheck (Same bits16 8 a s)
    and Wanted flags Flags.flag_i_data_chunk_res_nocheck (Same bits16 10 a s)
    and Wanted flags Flags.flag_i_data_chunk_mid_nocheck (Same bits32 12 a s)
    and Wanted flags Flags.flag_i_data_chunk_ppid_nocheck (Same bits32 16 a s)
    and Wanted flags Flags.flag_i_data_chunk_fsn_nocheck (Same bits32 16 a s)

-- Where the block `k` of a SACK and of an NR-SACK chunk is: they have 16 and 20 bytes before.
abbrev pub sack_offset : ℕ → ℕ
sack_offset k = 16 + 4 * k

abbrev pub nr_sack_offset : ℕ → ℕ
nr_sack_offset k = 20 + 4 * k

-- The sixteen or 32 bits of the blocks `base + k` of the script and `base' + k` of the live chunk
-- are the same, for all `k` below `n`.
abbrev pub SameBlocks : Width → (ℕ → ℕ) → ℕ → ℕ → ℕ → Place → Place → Type 0
SameBlocks w offset base base' n a s =
    (k : ℕ) → k < n → SameField w s (offset (base + k)) a (offset (base' + k))

-- The start and the end of the gap.
abbrev pub SameGaps : (ℕ → ℕ) → ℕ → ℕ → ℕ → Place → Place → Type 0
SameGaps offset base base' n a s =
    (k : ℕ)
    → k < n
    → SameField bits16 s (offset (base + k)) a (offset (base' + k))
      and SameField bits16 s (offset (base + k) + 2) a (offset (base' + k) + 2)

abbrev pub SackMatches : Place → Place → ℕ → Type 0
SackMatches a s flags = Has bits16 a 12 (λ a_gaps. Has bits16 a 14 (λ a_dups.
    Has bits16 s 12 (λ s_gaps. Has bits16 s 14 (λ s_dups.
      let gaps = Flags.flag_sack_chunk_gap_blocks_nocheck in
      let dups = Flags.flag_sack_chunk_dup_tsns_nocheck in
      Wanted flags Flags.flag_sack_chunk_cum_tsn_nocheck (Same bits32 4 a s)
      and Wanted flags Flags.flag_sack_chunk_a_rwnd_nocheck (Same bits32 8 a s)
      and Wanted flags gaps (s_gaps ≡ a_gaps)
      and Wanted flags dups (s_dups ≡ a_dups)
      and Wanted flags gaps (
          (k : ℕ)
          → k < s_gaps
          → Same bits16 (sack_offset k) a s and Same bits16 (sack_offset k + 2) a s)
      and Wanted flags dups (
          SameBlocks bits32 sack_offset (if Flags.waived flags gaps then 0 else a_gaps) a_gaps
            s_dups a s)))))

abbrev pub NrSackMatches : Place → Place → ℕ → Counts → Counts → Type 0
NrSackMatches a s flags ca cs =
    let gaps = Flags.flag_nr_sack_chunk_gap_blocks_nocheck in
    let nr_gaps = Flags.flag_nr_sack_chunk_nr_gap_blocks_nocheck in
    let dups = Flags.flag_nr_sack_chunk_dup_tsns_nocheck in
    let base = if Flags.waived flags gaps then 0 else ca.nr_gap_blocks in
    let dup_base =
      if Flags.waived flags nr_gaps then base else u16 (base + cs.nr_of_nr_gap_blocks) in
    Wanted flags Flags.flag_nr_sack_chunk_cum_tsn_nocheck (Same bits32 4 a s)
    and Wanted flags Flags.flag_nr_sack_chunk_a_rwnd_nocheck (Same bits32 8 a s)
    and Wanted flags gaps (cs.nr_gap_blocks ≡ ca.nr_gap_blocks)
    and Wanted flags nr_gaps (cs.nr_of_nr_gap_blocks ≡ ca.nr_of_nr_gap_blocks)
    and Wanted flags dups (cs.nr_dup_tsns ≡ ca.nr_dup_tsns)
    and Wanted flags gaps (
        (k : ℕ)
        → k < cs.nr_gap_blocks
        → Same bits16 (nr_sack_offset k) a s and Same bits16 (nr_sack_offset k + 2) a s)
    and Wanted flags nr_gaps
        (SameGaps nr_sack_offset base ca.nr_gap_blocks cs.nr_of_nr_gap_blocks a s)
    and Wanted flags dups (
        SameBlocks bits32 nr_sack_offset dup_base (u16 (ca.nr_gap_blocks + ca.nr_of_nr_gap_blocks))
          cs.nr_dup_tsns a s)

-- The three counts are in the memory.
abbrev pub HasCounts : Place → (Counts → Type 0) → Type 0
HasCounts p P = Has bits16 p 12 (λ gaps. Has bits16 p 14 (λ nr_gaps.
    Has bits16 p 16 (λ dups.
      P record { nr_gap_blocks = gaps; nr_of_nr_gap_blocks = nr_gaps; nr_dup_tsns = dups })))

abbrev pub NrSackChunkMatches : Place → Place → ℕ → Type 0
NrSackChunkMatches a s flags = HasCounts a (λ ca. HasCounts s (λ cs. NrSackMatches a s flags ca cs))

-- How many whole blocks of four or eight bytes are behind the eight bytes of the structure, counted in
-- 16 bits. For a shorter length it is what 64 bits wrap around to.
unfoldable pub blocks_of_four : ℕ → ℕ
blocks_of_four length =
    if leb 8 length then (length - 8) / 4 % 65536 else (if leb 4 length then 65535 else 65534)

unfoldable pub blocks_of_eight : ℕ → ℕ
blocks_of_eight length = if leb 8 length then (length - 8) / 8 % 65536 else 65535

-- The blocks that the script's length gives are the same; the live chunk's length has no part.
abbrev pub ForwardTsnMatches : Place → Place → ℕ → Type 0
ForwardTsnMatches a s flags = Has bits16 s 2 (λ length.
    Wanted flags Flags.flag_forward_tsn_chunk_cum_tsn_nocheck (Same bits32 4 a s)
    and Wanted flags Flags.flag_forward_tsn_chunk_ids_nocheck (
        (k : ℕ)
        → k < blocks_of_four length
        → Same bits16 (8 + 4 * k) a s and Same bits16 (10 + 4 * k) a s))

abbrev pub IForwardTsnMatches : Place → Place → ℕ → Type 0
IForwardTsnMatches a s flags = Has bits16 s 2 (λ length.
    Wanted flags Flags.flag_i_forward_tsn_chunk_cum_tsn_nocheck (Same bits32 4 a s)
    and Wanted flags Flags.flag_i_forward_tsn_chunk_ids_nocheck (
        (k : ℕ)
        → k < blocks_of_eight length
        → Same bits16 (8 + 8 * k) a s
          and Same bits16 (10 + 8 * k) a s
          and Same bits32 (12 + 8 * k) a s))

-- The bytes behind the header, which are compared only if the length is.
abbrev pub BlobMatches : Place → Place → ℕ → Type 0
BlobMatches a s flags = Wanted flags Flags.flag_chunk_value_nocheck (
    (not (Flags.waived flags Flags.flag_chunk_length_nocheck) ≡ true)
    and Has bits16 a 2 (λ length. (leb 4 length ≡ true) and SameBytes (length - 4) s 4 a 4))

-- The value of a parameter, or the information of a cause.
abbrev pub ValueMatches : ℕ → ℕ → Place → Place → ℕ → Type 0
ValueMatches value_mask length_mask a s flags = Wanted flags value_mask (
    (not (Flags.waived flags length_mask) ≡ true)
    and Has bits16 a 2 (λ length. SameBytes (value_length length) s 4 a 4))
