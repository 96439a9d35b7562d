-- ===== src/SctpPacket/Fixed.antt =====
-- The constructors of chunks with fields at fixed offsets: `sctp_data_chunk_new` and the like of
-- gtests/net/packetdrill/sctp_packet.c.
use packetdrill.Base.{
  ℕ, ◌+◌, ◌-◌, List, [], ◌++◌, ◌==◌, ltb, if◌then◌else◌, bit_or, u16, replicate, be32_bytes,
}
use packetdrill.Sctp.{padding}
use packetdrill.SctpMatch.Items.{ChunkItem}
use packetdrill.SctpMatch.Flags
use packetdrill.SctpPacket.{
  minus_one, wild32, wild16, mark, flags_byte, flags_mark, Built, built, overrun, chunk_item,
}

-- The two marks for a wildcard as the length.
abbrev pub length_marks : ℕ → ℕ
length_marks len =
    bit_or (mark len Flags.flag_chunk_length_nocheck) (mark len Flags.flag_chunk_value_nocheck)

-- `length`, for a structure of `size` bytes.
abbrev pub chunk_length : ℕ → ℕ → ℕ
chunk_length len size = if len == minus_one then size else u16 len

-- The marks of the arguments that are wildcards.
abbrev pub data_marks : ℕ → ℕ → ℕ → ℕ → ℕ → ℕ → ℕ
data_marks flgs len tsn sid ssn ppid =
    (bit_or (flags_mark flgs) (
      bit_or (length_marks len) (
        bit_or (mark tsn Flags.flag_data_chunk_tsn_nocheck) (
          bit_or (mark sid Flags.flag_data_chunk_sid_nocheck) (
            bit_or (mark ssn Flags.flag_data_chunk_ssn_nocheck)
              (mark ppid Flags.flag_data_chunk_ppid_nocheck))))))

-- The chunk is allocated with its padding. Where that is less than the structure, the fields and
-- the `memset` behind them, whose size wraps around, go beyond the block.
unfoldable pub sctp_data_chunk_new : ℕ → ℕ → ℕ → ℕ → ℕ → ℕ → Built
sctp_data_chunk_new flgs len tsn sid ssn ppid =
    let length_ = chunk_length len 16 in
    if ltb (length_ + padding length_) 16
    then overrun
    else built (
        chunk_item 0 (flags_byte flgs) length_
          (wild32 tsn
            ++ wild16 sid
            ++ wild16 ssn
            ++ wild32 ppid
            ++ replicate (length_ + padding length_ - 16) 0)
          (data_marks flgs len tsn sid ssn ppid))

-- The union of the payload protocol and the fragment sequence number: the last one that is given.
abbrev pub i_data_field : ℕ → ℕ → List ℕ
i_data_field ppid fsn = if fsn == minus_one then wild32 ppid else be32_bytes fsn

-- The marks of the arguments that are wildcards.
abbrev pub i_data_marks : ℕ → ℕ → ℕ → ℕ → ℕ → ℕ → ℕ → ℕ → ℕ
i_data_marks flgs len tsn sid res mid ppid fsn =
    (bit_or (flags_mark flgs) (
      bit_or (length_marks len) (
        bit_or (mark tsn Flags.flag_i_data_chunk_tsn_nocheck) (
          bit_or (mark sid Flags.flag_i_data_chunk_sid_nocheck) (
            bit_or (mark res Flags.flag_i_data_chunk_res_nocheck) (
              bit_or (mark mid Flags.flag_i_data_chunk_mid_nocheck) (
                bit_or (mark ppid Flags.flag_i_data_chunk_ppid_nocheck)
                  (mark fsn Flags.flag_i_data_chunk_fsn_nocheck))))))))

unfoldable pub sctp_i_data_chunk_new : ℕ → ℕ → ℕ → ℕ → ℕ → ℕ → ℕ → ℕ → Built
sctp_i_data_chunk_new flgs len tsn sid res mid ppid fsn =
    let length_ = chunk_length len 20 in
    if ltb (length_ + padding length_) 20
    then overrun
    else built (
        chunk_item 0x40 (flags_byte flgs) length_
          (wild32 tsn
            ++ wild16 sid
            ++ wild16 res
            ++ wild32 mid
            ++ i_data_field ppid fsn
            ++ replicate (length_ + padding length_ - 20) 0)
          (i_data_marks flgs len tsn sid res mid ppid fsn))

unfoldable pub sctp_shutdown_chunk_new : ℕ → ℕ → ChunkItem
sctp_shutdown_chunk_new flgs cum_tsn =
    chunk_item 0x07 (flags_byte flgs) 8 (wild32 cum_tsn)
      (bit_or (flags_mark flgs) (mark cum_tsn Flags.flag_shutdown_chunk_cum_tsn_nocheck))

unfoldable pub sctp_shutdown_ack_chunk_new : ℕ → ChunkItem
sctp_shutdown_ack_chunk_new flgs = chunk_item 0x08 (flags_byte flgs) 4 [] (flags_mark flgs)

unfoldable pub sctp_cookie_ack_chunk_new : ℕ → ChunkItem
sctp_cookie_ack_chunk_new flgs = chunk_item 0x0b (flags_byte flgs) 4 [] (flags_mark flgs)

unfoldable pub sctp_ecne_chunk_new : ℕ → ℕ → ChunkItem
sctp_ecne_chunk_new flgs lowest_tsn =
    chunk_item 0x0c (flags_byte flgs) 8 (wild32 lowest_tsn)
      (bit_or (flags_mark flgs) (mark lowest_tsn Flags.flag_ecne_chunk_lowest_tsn_nocheck))

unfoldable pub sctp_cwr_chunk_new : ℕ → ℕ → ChunkItem
sctp_cwr_chunk_new flgs lowest_tsn =
    chunk_item 0x0d (flags_byte flgs) 8 (wild32 lowest_tsn)
      (bit_or (flags_mark flgs) (mark lowest_tsn Flags.flag_cwr_chunk_lowest_tsn_nocheck))

unfoldable pub sctp_shutdown_complete_chunk_new : ℕ → ChunkItem
sctp_shutdown_complete_chunk_new flgs = chunk_item 0x0e (flags_byte flgs) 4 [] (flags_mark flgs)
