-- ===== src/TcpOptions.antt =====
-- TCP options: gtests/net/packetdrill/tcp_options.c and tcp_options_iterator.c, and the two loops
-- over options of run_packet.c. A position among the options is given by the bytes of the packet
-- buffer from there on and by the number of bytes to the end of the options.
pub mod Append
pub mod Loops
pub mod Walk
pub mod RoundTrip
pub mod Sack
pub mod Timestamp
use packetdrill.Base.{
  ℕ, ◌+◌, ◌-◌, ◌*◌, ◌/◌, ◌%◌, Bool, true, false, not, ◌&&◌, ◌||◌, List, [], ◌∷◌, ltb, leb, ◌==◌,
  if◌then◌else◌, memcpy, take, replicate, Option, some, none, get_elem?,
}

abbrev pub tcpopt_eol : ℕ
tcpopt_eol = 0

abbrev pub tcpopt_nop : ℕ
tcpopt_nop = 1

abbrev pub tcpopt_maxseg : ℕ
tcpopt_maxseg = 2

abbrev pub tcpopt_window : ℕ
tcpopt_window = 3

abbrev pub tcpopt_sack_permitted : ℕ
tcpopt_sack_permitted = 4

abbrev pub tcpopt_sack : ℕ
tcpopt_sack = 5

abbrev pub tcpopt_timestamp : ℕ
tcpopt_timestamp = 8

abbrev pub tcpopt_fastopen : ℕ
tcpopt_fastopen = 34

abbrev pub tcpopt_exp : ℕ
tcpopt_exp = 254

-- `MAX_TCP_HEADER_BYTES - sizeof(struct tcp)`.
abbrev pub max_tcp_option_bytes : ℕ
max_tcp_option_bytes = 40

pub data Error : Type 0 where
  unexpected_kind length_byte_too_far length_too_short data_too_far : Error
  bad_length : Error
  sack_too_short sack_not_multiple : Error

-- `fault` is a read outside the memory at hand.
pub data Result : Type 0 where
  ok : ℕ → Result
  err : Error → Result
  fault : Result

-- `struct tcp_options`.
pub record TcpOptions : Type 0 where
  pub data_bytes : List ℕ
  pub length_bytes : ℕ

unfoldable pub tcp_options_new : TcpOptions
tcp_options_new = record { data_bytes = replicate max_tcp_option_bytes 0; length_bytes = 0 }

-- The option is its bytes in memory and its `length` field; `false` is `STATUS_ERR`.
unfoldable pub tcp_options_append : TcpOptions → List ℕ → ℕ → TcpOptions × Bool
tcp_options_append options option option_length =
    if ltb max_tcp_option_bytes (options.length_bytes + option_length) then (options, false) else (
      record {
        data_bytes = memcpy options.data_bytes options.length_bytes (take option_length option);
        length_bytes = options.length_bytes + option_length;
      },
      true,
    )

unfoldable pub num_sack_blocks : ℕ → Result
num_sack_blocks opt_len =
    if leb opt_len 2
    then err sack_too_short
    else (if not ((opt_len - 2) % 8 == 0) then err sack_not_multiple else ok ((opt_len - 2) / 8))

-- 0 for an option of variable length.
unfoldable pub get_expected_tcp_option_length : ℕ → Result
get_expected_tcp_option_length kind =
    if kind == tcpopt_eol || kind == tcpopt_nop
    then ok 1
    else (if kind == tcpopt_maxseg
        then ok 4
        else (if kind == tcpopt_window
            then ok 3
            else (if kind == tcpopt_sack_permitted
                then ok 2
                else (if kind == tcpopt_timestamp
                    then ok 10
                    else (if kind == tcpopt_sack || (kind == tcpopt_fastopen || kind == tcpopt_exp)
                        then ok 0
                        else err unexpected_kind)))))

-- `left` is `end - option`, and the length byte is read at `option + 1`, behind the first test.
unfoldable pub get_tcp_option_length : Option ℕ → ℕ → ℕ → Result
get_tcp_option_length none left expected_length =
    if leb left 1 then err length_byte_too_far else fault
get_tcp_option_length (some length_byte) left expected_length =
    if leb left 1
    then err length_byte_too_far
    else (if ltb length_byte 2
        then err length_too_short
        else (if ltb left length_byte
            then err data_too_far
            else (if not (expected_length == 0) && not (length_byte == expected_length)
                then err bad_length
                else ok length_byte)))

-- The length by which `tcp_options_next` advances, the option being the first of `rest`.
unfoldable pub option_length : List ℕ → ℕ → Result
unfolding get_expected_tcp_option_length get_tcp_option_length
option_length [] left = fault
option_length (kind ∷ rest) left = elim (get_expected_tcp_option_length kind) [
  | err e ↦ err e
  | fault ↦ fault
  | ok expected ↦
      if expected == 1 then ok 1 else get_tcp_option_length (get_elem? rest 0) left expected
]
