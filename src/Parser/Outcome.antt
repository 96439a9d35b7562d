-- ===== src/Parser/Outcome.antt =====
-- What a parsing function of packet_parser.c leaves behind, and the statements that the functions
-- are chains of: reads of the buffer, checks that return `PACKET_BAD`, and assertions.
use packetdrill.Base.{
  ℕ, ◌+◌, ◌*◌, Bool, true, false, Option, none, some, length, get_elem?, be16, leb,
}
use packetdrill.Packet.{Packet}

-- The messages of the parser, without their numbers.
pub data Error : Type 0 where
  ipv4_header_overflows bad_version_for_ip : Error
  ipv6_header_overflows bad_version_for_ipv6 : Error
  ip_header_overflows unsupported_ip_version : Error
  ip_header_too_short full_ip_header_overflows ip_payload_overflows : Error
  ip_header_bigger_than_datagram more_fragments non_zero_fragment_offset bad_ip_checksum : Error
  ipv6_payload_overflows : Error
  too_many_headers : Error
  truncated_sctp bad_sctp_checksum : Error
  truncated_tcp tcp_offset_too_small tcp_offset_too_big : Error
  truncated_udp udp_length_below_header udp_length_too_small udp_length_too_big : Error
  truncated_udplite udplite_length_too_small : Error
  bad_version_for_icmp truncated_icmpv4 : Error
  bad_version_for_icmpv6 truncated_icmpv6 : Error
  truncated_gre gre_version gre_routing gre_length_too_small gre_length_too_big : Error
  mpls_overflow : Error

-- `enum packet_parse_result_t`, with the message of a bad packet.
pub data Result : Type 0 where
  ok : Result
  bad : Error → Result
  unknown_l4 : Result

-- `fault` is a failed assertion or a read outside the buffer, which C leaves undefined; `stuck`
-- means that the model ran out of fuel.
pub data Outcome : Type 0 where
  done : Result → Packet → Outcome
  fault stuck : Outcome

pub data Guard : Type 0 where
  pass : Guard
  stop : Error → Packet → Guard
  fail : Guard

infixl 5 ◌>>=◌ ◌>>◌
abbrev pub ◌>>=◌ {ℓ} : {A : Type ℓ} → Option A → (A → Outcome) → Outcome
none >>= k = fault
some x >>= k = k x

abbrev pub ◌>>◌ : Guard → Outcome → Outcome
pass >> k = k
stop e packet >> k = done (bad e) packet
fail >> k = fault

-- `if (test) { asprintf(error, ...); goto error_out; }`
abbrev pub reject : Bool → Error → Packet → Guard
reject true e packet = stop e packet
reject false e packet = pass

abbrev pub assert : Bool → Guard
assert true = pass
assert false = fail

-- A header that cannot be appended.
abbrev pub appended : Option (Packet × ℕ) → Packet → (Packet × ℕ → Outcome) → Outcome
appended none packet k = done (bad too_many_headers) packet
appended (some r) packet k = k r

abbrev pub byte : Packet → ℕ → Option ℕ
byte packet i = get_elem? packet.buffer i

abbrev pub both : Option ℕ → Option ℕ → (ℕ → ℕ → ℕ) → Option ℕ
both none y f = none
both (some a) none f = none
both (some a) (some b) f = some (f a b)

-- A field of two or four bytes in network order.
abbrev pub read16 : Packet → ℕ → Option ℕ
read16 packet i = both (byte packet i) (byte packet (i + 1)) be16

abbrev pub read32 : Packet → ℕ → Option ℕ
read32 packet i = both (read16 packet i) (read16 packet (i + 2)) (λ hi lo. hi * 65536 + lo)

-- A loop reads `n` bytes at `i`.
abbrev pub readable : Packet → ℕ → ℕ → Guard
readable packet i n = assert (leb (i + n) (length packet.buffer))
