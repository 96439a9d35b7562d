-- ===== src/SctpRewrite/Layout.antt =====
-- What the rewriting means: chunks by their numbers, their bytes, and the translation of the numbers
-- alone.
use packetdrill.Base.{
  ℕ, ◌+◌, ◌*◌, ◌%◌, ◌^◌, ◌<◌, ◌≤◌, ◌≡◌, Bool, true, false, not, ◌||◌, List, [], ◌∷◌, ◌++◌, ◌==◌,
  if◌then◌else◌, length, map, u32, be16_bytes, be32_bytes, All,
}
use packetdrill.Sctp.Walk.{rounded}
use packetdrill.SctpRewrite.Inbound.{TagFlags}

-- The chunks with one TSN, which is their first field: of the sender's data, or of the peer's.
pub data Numbered : Type 0 where
  data_ shutdown ecne cwr i_data forward_tsn i_forward_tsn : Numbered

abbrev pub code : Numbered → ℕ
code data_ = 0x00
code shutdown = 0x07
code ecne = 0x0c
code cwr = 0x0d
code i_data = 0x40
code forward_tsn = 0xc0
code i_forward_tsn = 0xc2

-- The bytes that such a chunk has at least.
abbrev pub least : Numbered → ℕ
least data_ = 16
least shutdown = 8
least ecne = 8
least cwr = 8
least i_data = 20
least forward_tsn = 8
least i_forward_tsn = 8

abbrev pub is_own : Numbered → Bool
is_own data_ = true
is_own shutdown = false
is_own ecne = false
is_own cwr = false
is_own i_data = true
is_own forward_tsn = true
is_own i_forward_tsn = true

-- The chunks without numbers. `abort` and `shutdown_complete` may have the T bit.
pub data Plain : Type 0 where
  heartbeat heartbeat_ack abort shutdown_ack error cookie_echo cookie_ack : Plain
  shutdown_complete pad : Plain

abbrev pub plain_code : Plain → ℕ
plain_code heartbeat = 0x04
plain_code heartbeat_ack = 0x05
plain_code abort = 0x06
plain_code shutdown_ack = 0x08
plain_code error = 0x09
plain_code cookie_echo = 0x0a
plain_code cookie_ack = 0x0b
plain_code shutdown_complete = 0x0e
plain_code pad = 0x84

abbrev pub has_t_bit : Plain → ℕ → Bool
has_t_bit abort flags = flags % 2 == 1
has_t_bit shutdown_complete flags = flags % 2 == 1
has_t_bit p flags = false

-- A chunk with its flags, its length and what is behind its numbers, padding included; a SACK with
-- its blocks and its duplicate TSNs; an INIT or an INIT ACK with its tag and its TSN.
pub data Layout : Type 0 where
  numbered : Numbered → (flags n tsn : ℕ) (rest : List ℕ) → Layout
  plain : Plain → (flags n : ℕ) (rest : List ℕ) → Layout
  sack : (flags cum_tsn a_rwnd : ℕ) (gaps dups : List ℕ) → Layout
  init : (is_ack : Bool) (flags n tag a_rwnd streams tsn : ℕ) (rest : List ℕ) → Layout

abbrev pub words : List ℕ → List ℕ
words [] = []
words (v ∷ vs) = be32_bytes v ++ words vs

-- `_sctp_sack_chunk` has 16 bytes.
abbrev pub sack_length : List ℕ → List ℕ → ℕ
sack_length gaps dups = 16 + 4 * (length dups + length gaps)

abbrev pub header : ℕ → ℕ → ℕ → List ℕ → List ℕ
header t flags n rest = t ∷ flags ∷ be16_bytes n ++ rest

abbrev pub bytes_of : Layout → List ℕ
bytes_of (numbered k flags n tsn rest) = header (code k) flags n (be32_bytes tsn ++ rest)
bytes_of (plain k flags n rest) = header (plain_code k) flags n rest
bytes_of (sack flags cum_tsn a_rwnd gaps dups) = header 0x03 flags (sack_length gaps dups) (
    be32_bytes cum_tsn
    ++ be32_bytes a_rwnd
    ++ be16_bytes (length gaps)
    ++ be16_bytes (length dups)
    ++ words gaps
    ++ words dups)
bytes_of (init is_ack flags n tag a_rwnd streams tsn rest) =
    header (if is_ack then 0x02 else 0x01) flags n
      (be32_bytes tag ++ be32_bytes a_rwnd ++ be32_bytes streams ++ be32_bytes tsn ++ rest)

abbrev pub chunk_bytes : Layout → ℕ
chunk_bytes (numbered k flags n tsn rest) = n
chunk_bytes (plain k flags n rest) = n
chunk_bytes (sack flags cum_tsn a_rwnd gaps dups) = sack_length gaps dups
chunk_bytes (init is_ack flags n tag a_rwnd streams tsn rest) = n

abbrev pub all_bytes : List Layout → List ℕ
all_bytes [] = []
all_bytes (c ∷ cs) = bytes_of c ++ all_bytes cs

-- The numbers have 32 bits, and the bytes are those of the length, padded.
abbrev pub IsWhole : Layout → Type 0
IsWhole (numbered k flags n tsn rest) =
    (tsn < 2 ^ 32) × (least k ≤ n) × (n < 2 ^ 16) × (8 + length rest ≡ rounded n)
IsWhole (plain k flags n rest) = (4 ≤ n) × (n < 2 ^ 16) × (4 + length rest ≡ rounded n)
IsWhole (sack flags cum_tsn a_rwnd gaps dups) =
    (cum_tsn < 2 ^ 32) × (sack_length gaps dups < 2 ^ 16) × All (λ v. v < 2 ^ 32) dups
IsWhole (init is_ack flags n tag a_rwnd streams tsn rest) =
    (tsn < 2 ^ 32) × (tag < 2 ^ 32) × (20 ≤ n) × (n < 2 ^ 16) × (20 + length rest ≡ rounded n)

-- The sender's numbers move by `own`, those of the peer that it answers by `peer`; the tag `from`
-- becomes `to`.
module _ (own peer from to : ℕ) where
  abbrev pub translated : Layout → Layout
  translated (numbered k flags n tsn rest) =
      numbered k flags n (u32 (tsn + (if is_own k then own else peer))) rest
  translated (plain k flags n rest) = plain k flags n rest
  translated (sack flags cum_tsn a_rwnd gaps dups) =
      sack flags (u32 (cum_tsn + peer)) a_rwnd gaps (map (λ v. u32 (v + peer)) dups)
  translated (init is_ack flags n tag a_rwnd streams tsn rest) =
      init is_ack flags n (if tag == from then to else tag) a_rwnd streams (u32 (tsn + own)) rest

-- Whether the chunk asks for the verification tag to be reflected, and whether it is an INIT.
abbrev pub reflects : Layout → Bool
reflects (numbered k f n tsn rest) = false
reflects (plain k f n rest) = has_t_bit k f
reflects (sack f cum_tsn a_rwnd gaps dups) = false
reflects (init is_ack f n tag a_rwnd streams tsn rest) = false

abbrev pub is_init : Layout → Bool
is_init (numbered k f n tsn rest) = false
is_init (plain k f n rest) = false
is_init (sack f cum_tsn a_rwnd gaps dups) = false
is_init (init is_ack f n tag a_rwnd streams tsn rest) = not is_ack

abbrev pub any : (Layout → Bool) → List Layout → Bool
any test [] = false
any test (c ∷ cs) = test c || any test cs

-- What a chunk adds to the flags for the verification tag.
abbrev pub with_flags : Layout → TagFlags → TagFlags
with_flags c flags = record {
  reflect_v_tag = reflects c || flags.reflect_v_tag;
  contains_init_chunk = is_init c || flags.contains_init_chunk;
}
