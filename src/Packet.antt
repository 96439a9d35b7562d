-- ===== src/Packet.antt =====
-- `struct packet` and the header array of gtests/net/packetdrill/packet.h and packet.c. The buffer
-- is a list of bytes, and a pointer into it is an offset; NULL is `none`.
pub mod Headers
use packetdrill.Base.{
  ℕ, zero, suc, ◌+◌, ◌*◌, ◌/◌, ◌%◌, Bool, true, false, Option, none, some, List, [], ◌∷◌, ltb, ◌==◌,
  if◌then◌else◌, set, get_elem?, replicate, be16, be32, u8,
}

-- `enum header_t`.
pub data HeaderType : Type 0 where
  no_header ipv4 ipv6 gre mpls sctp tcp udp udplite icmpv4 icmpv6 : HeaderType

pub record Header : Type 0 where
  pub type : HeaderType
  pub header_bytes : ℕ
  pub total_bytes : ℕ
  pub ptr : ℕ

-- The fields that the parser and the address and sequence mapping use. `buffer_bytes` is the
-- space that was allocated.
pub record Packet : Type 0 where
  pub buffer : List ℕ
  pub buffer_bytes : ℕ
  pub ip_bytes : ℕ
  pub headers : List Header
  pub ipv4 : Option ℕ
  pub ipv6 : Option ℕ
  pub sctp : Option ℕ
  pub tcp : Option ℕ
  pub udp : Option ℕ
  pub udplite : Option ℕ
  pub icmpv4 : Option ℕ
  pub icmpv6 : Option ℕ
  pub flags : ℕ
  pub tcp_ts_val : Option ℕ
  pub tcp_ts_ecr : Option ℕ

abbrev pub packet_max_headers : ℕ
packet_max_headers = 6

abbrev pub flags_udp_encapsulated : ℕ
flags_udp_encapsulated = 0x80

abbrev pub empty_header : Header
empty_header = record { type = no_header; header_bytes = 0; total_bytes = 0; ptr = 0 }

-- `packet_new` over the bytes that `malloc` returns; `calloc` makes all else zero.
unfoldable pub packet_new : List ℕ → ℕ → Packet
packet_new buffer buffer_bytes = record {
  buffer = buffer;
  buffer_bytes = buffer_bytes;
  ip_bytes = 0;
  headers = replicate packet_max_headers empty_header;
  ipv4 = none;
  ipv6 = none;
  sctp = none;
  tcp = none;
  udp = none;
  udplite = none;
  icmpv4 = none;
  icmpv6 = none;
  flags = 0;
  tcp_ts_val = none;
  tcp_ts_ecr = none;
}

abbrev pub is_none : HeaderType → Bool
is_none no_header = true
is_none _ = false

-- The loop of `packet_header_count` over the rest of the array.
unfoldable pub header_count : List Header → ℕ
header_count [] = 0
header_count (h ∷ hs) = if is_none h.type then 0 else suc (header_count hs)

unfoldable pub packet_header_count : Packet → ℕ
packet_header_count packet = header_count packet.headers

-- `none` is NULL; else the index of the new header, which the C code returns by its address.
unfoldable pub packet_append_header : Packet → HeaderType → ℕ → Option (Packet × ℕ)
unfolding packet_header_count
packet_append_header packet header_type bytes =
    let num_headers = packet_header_count packet in
    if num_headers == packet_max_headers
    then none
    else (if ltb packet.buffer_bytes (packet.ip_bytes + bytes)
        then none
        else some (
          record packet {
            ip_bytes = packet.ip_bytes + bytes;
            headers = set packet.headers num_headers (record {
              type = header_type;
              header_bytes = bytes;
              total_bytes = 0;
              ptr = packet.ip_bytes;
            });
          },
          num_headers,
        ))

-- `header->total_bytes = n` for the header at index `i`.
unfoldable pub set_header_total : List Header → ℕ → ℕ → List Header
set_header_total [] i n = []
set_header_total (h ∷ hs) zero n = record h { total_bytes = n } ∷ hs
set_header_total (h ∷ hs) (suc i) n = h ∷ set_header_total hs i n

unfoldable pub set_total_bytes : Packet → ℕ → ℕ → Packet
unfolding set_header_total
set_total_bytes packet i n = record packet { headers = set_header_total packet.headers i n }

-- `packet->headers[num_headers - 1]`; `none` is the failed assertion `num_headers > 0`.
pub header_before : List Header → ℕ → Option Header
header_before headers zero = none
header_before headers (suc n) = get_elem? headers n

unfoldable pub packet_inner_header : Packet → Option Header
unfolding packet_header_count header_before
packet_inner_header packet = header_before packet.headers (packet_header_count packet)
