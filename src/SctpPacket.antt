-- ===== src/SctpPacket.antt =====
-- The SCTP chunks of a script, which gtests/net/packetdrill/sctp_packet.c builds: what the
-- constructors `sctp_..._chunk_new` share. An `s64` is given as the number of 64 bits that it is
-- stored as, so that -1, the wildcard, is the largest.
pub mod Fixed
pub mod Own
pub mod Marks
pub mod Accepts
pub mod Data
pub mod Small
use packetdrill.Base.{
  ℕ, ◌+◌, ◌-◌, ◌^◌, Bool, List, [], ◌∷◌, ◌++◌, ◌==◌, if◌then◌else◌, be16_bytes, be32_bytes, u8,
}
use packetdrill.SctpMatch.Compare.{Place}
use packetdrill.SctpMatch.Items.{ListItem, ChunkItem}
use packetdrill.SctpMatch.Flags

abbrev pub minus_one : ℕ
minus_one = 2 ^ 64 - 1

-- The field of a script that may be a wildcard, in network order.
abbrev pub wild32 : ℕ → List ℕ
wild32 v = be32_bytes (if v == minus_one then 0 else v)

abbrev pub wild16 : ℕ → List ℕ
wild16 v = be16_bytes (if v == minus_one then 0 else v)

-- `if (v == -1) flags |= mask;`, for flags that do not have it.
abbrev pub mark : ℕ → ℕ → ℕ
mark v mask = if v == minus_one then mask else 0

-- The flags byte of the chunk, and what it adds to the marks.
abbrev pub flags_byte : ℕ → ℕ
flags_byte flgs = if flgs == minus_one then 0 else u8 flgs

abbrev pub flags_mark : ℕ → ℕ
flags_mark flgs = mark flgs Flags.flag_chunk_flags_nocheck

-- What a constructor returns: the item, or that bytes were written behind the allocated block.
pub data Built : Type 0 where
  built : ChunkItem → Built
  overrun : Built

-- The list item of a chunk with the header and `rest`, without parameters and causes.
abbrev pub chunk_item : ℕ → ℕ → ℕ → List ℕ → ℕ → ChunkItem
chunk_item type_ flags_ length_ rest marks = record {
  chunk = record { memory = type_ ∷ flags_ ∷ be16_bytes length_ ++ rest; start = 0 };
  parameter_list = [];
  cause_list = [];
  flags = marks;
}
