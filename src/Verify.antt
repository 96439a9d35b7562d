-- ===== src/Verify.antt =====
-- How run_packet.c of gtests/net/packetdrill compares an outbound live packet's IP and TCP headers
-- with the script's: `check_field`, `verify_outbound_live_ecn`, `verify_ipv4`, `verify_ipv6` and
-- `verify_tcp`. Header fields are given in host byte order.
pub mod Fields
pub mod Matches
pub mod Layers
pub mod Labels
pub mod Live
pub mod LiveMatches
pub mod Options
pub mod OptionsMatch
pub mod TsVal
use packetdrill.Base.{
  ℕ, ◌+◌, ◌*◌, ◌/◌, ◌%◌, Bool, true, false, not, ◌&&◌, ◌==◌, if◌then◌else◌, u32, bit_and, bit_or,
}
use packetdrill.Parser.Transport.{ipproto_tcp, ipproto_udp, ipproto_sctp}

pub data Field : Type 0 where
  ip_ecn ipv4_version ipv4_protocol ipv4_header_length ipv4_total_length : Field
  ipv6_version ipv6_next_header ipv6_payload_len : Field
  udp_src_port udp_dst_port tcp_data_offset tcp_fin tcp_syn tcp_rst tcp_psh tcp_ack tcp_urg tcp_ace
        tcp_ece tcp_cwr :
      Field
  tcp_ae tcp_reserved_bits tcp_seq tcp_ack_seq tcp_window tcp_urg_ptr : Field

-- `STATUS_OK`, or `STATUS_ERR` with what the message names.
pub data Verdict : Type 0 where
  ok : Verdict
  mismatch : Field → ℕ → ℕ → Verdict
  ecn_not_ect : ℕ → Verdict

-- The `||` of the source: the next check is made if this one is passed.
infixr 3 ◌>>>◌
abbrev pub ◌>>>◌ : Verdict → Verdict → Verdict
ok >>> next = next
mismatch f e a >>> next = mismatch f e a
ecn_not_ect a >>> next = ecn_not_ect a

unfoldable pub check_field : Field → ℕ → ℕ → Verdict
check_field name expected actual =
    if not (actual == expected) then mismatch name expected actual else ok

pub data IpEcn : Type 0 where
  ecn_none ecn_ect0 ecn_ect1 ecn_ce ecn_ect01 ecn_nocheck : IpEcn

abbrev pub ip_ecn_ect1 : ℕ
ip_ecn_ect1 = 1

abbrev pub ip_ecn_ect0 : ℕ
ip_ecn_ect0 = 2

unfoldable pub verify_outbound_live_ecn : IpEcn → ℕ → ℕ → Verdict
verify_outbound_live_ecn ecn_nocheck actual script = ok
verify_outbound_live_ecn ecn_ect01 actual script =
    if not (actual == ip_ecn_ect0) && not (actual == ip_ecn_ect1) then ecn_not_ect actual else ok
verify_outbound_live_ecn ecn_none actual script = check_field ip_ecn script actual
verify_outbound_live_ecn ecn_ect0 actual script = check_field ip_ecn script actual
verify_outbound_live_ecn ecn_ect1 actual script = check_field ip_ecn script actual
verify_outbound_live_ecn ecn_ce actual script = check_field ip_ecn script actual

-- The flags of `struct packet`, `FLAG_...` of packet.h.
pub record Flags : Type 0 where
  pub win_nocheck : Bool
  pub options_nocheck : Bool
  pub ignore_seq : Bool
  pub parse_ace : Bool

-- `options_len` is `packet_tcp_options_len` of the actual packet.
unfoldable pub tcp_options_allowance : ℕ → Flags → ℕ
tcp_options_allowance options_len script_flags =
    if script_flags.options_nocheck then options_len else 0

-- The fields of `struct ipv4` that are compared.
pub record Ipv4 : Type 0 where
  pub version : ℕ
  pub protocol : ℕ
  pub ihl : ℕ
  pub tot_len : ℕ
  pub tos : ℕ

pub record Ipv6 : Type 0 where
  pub version : ℕ
  pub next_header : ℕ
  pub payload_len : ℕ
  pub traffic_class_lo : ℕ

pub record Tcp : Type 0 where
  pub doff : ℕ
  pub fin : ℕ
  pub syn : ℕ
  pub rst : ℕ
  pub psh : ℕ
  pub ack : ℕ
  pub urg : ℕ
  pub ece : ℕ
  pub cwr : ℕ
  pub ae : ℕ
  pub res1 : ℕ
  pub seq : ℕ
  pub ack_seq : ℕ
  pub window : ℕ
  pub urg_ptr : ℕ

pub record Ports : Type 0 where
  pub src_port : ℕ
  pub dst_port : ℕ

unfoldable pub tcp_ace_field : Tcp → ℕ
tcp_ace_field tcp =
    bit_or (if tcp.ae == 0 then 0 else 4)
      (bit_or (if tcp.cwr == 0 then 0 else 2) (if tcp.ece == 0 then 0 else 1))

-- The `switch` on the protocol of `verify_ipv4`.
unfoldable pub check_total_length : Ipv4 → Ipv4 → ℕ → ℕ → Verdict
check_total_length actual script allowance udp_encaps =
    if script.protocol == ipproto_sctp
    then ok
    else (if script.protocol == ipproto_tcp
        then check_field ipv4_total_length (u32 (script.tot_len + allowance)) actual.tot_len
        else (if script.protocol == ipproto_udp && udp_encaps == ipproto_tcp
            then check_field ipv4_total_length (u32 (script.tot_len + allowance)) actual.tot_len
            else (if script.protocol == ipproto_udp && udp_encaps == ipproto_sctp
                then ok
                else check_field ipv4_total_length script.tot_len actual.tot_len)))

unfoldable pub verify_ipv4 : Ipv4 → Ipv4 → IpEcn → ℕ → Flags → ℕ → Verdict
verify_ipv4 actual script ecn options_len flags udp_encaps =
    check_field ipv4_version script.version actual.version
    >>> check_field ipv4_protocol script.protocol actual.protocol
    >>> check_field ipv4_header_length script.ihl actual.ihl
    >>> check_total_length actual script (tcp_options_allowance options_len flags) udp_encaps
    >>> verify_outbound_live_ecn ecn (bit_and actual.tos 3) (bit_and script.tos 3)

-- The `switch` on the next header of `verify_ipv6`.
unfoldable pub check_payload_len : Ipv6 → Ipv6 → ℕ → ℕ → Verdict
check_payload_len actual script allowance udp_encaps =
    if script.next_header == ipproto_sctp
    then ok
    else (if script.next_header == ipproto_tcp
        then check_field ipv6_payload_len (u32 (script.payload_len + allowance)) actual.payload_len
        else (if script.next_header == ipproto_udp
            then (if udp_encaps == ipproto_tcp
                then check_field ipv6_payload_len (u32 (script.payload_len + allowance))
                    actual.payload_len
                else ok)
            else check_field ipv6_payload_len script.payload_len actual.payload_len))

unfoldable pub verify_ipv6 : Ipv6 → Ipv6 → IpEcn → ℕ → Flags → ℕ → Verdict
verify_ipv6 actual script ecn options_len flags udp_encaps =
    check_field ipv6_version script.version actual.version
    >>> check_field ipv6_next_header script.next_header actual.next_header
    >>> check_payload_len actual script (tcp_options_allowance options_len flags) udp_encaps
    >>> verify_outbound_live_ecn ecn (bit_and actual.traffic_class_lo 3)
        (bit_and script.traffic_class_lo 3)

unfoldable pub check_ecn_flags : Tcp → Tcp → Flags → Verdict
check_ecn_flags actual script flags =
    if flags.parse_ace
    then check_field tcp_ace (tcp_ace_field script) (tcp_ace_field actual)
    else (check_field tcp_ece script.ece actual.ece
        >>> check_field tcp_cwr script.cwr actual.cwr
        >>> check_field tcp_ae script.ae actual.ae)

-- `actual_udp` and `script_udp` are the ports in the eight bytes before the TCP headers.
unfoldable pub verify_tcp : Tcp → Tcp → Ports → Ports → ℕ → Flags → ℕ → Verdict
verify_tcp actual script actual_udp script_udp options_len flags udp_encaps =
    (if udp_encaps == 0
      then ok
      else (check_field udp_src_port script_udp.src_port actual_udp.src_port
          >>> check_field udp_dst_port script_udp.dst_port actual_udp.dst_port))
    >>> check_field tcp_data_offset
        (u32 (script.doff + tcp_options_allowance options_len flags / 4)) actual.doff
    >>> check_field tcp_fin script.fin actual.fin
    >>> check_field tcp_syn script.syn actual.syn
    >>> check_field tcp_rst script.rst actual.rst
    >>> check_field tcp_psh script.psh actual.psh
    >>> check_field tcp_ack script.ack actual.ack
    >>> check_field tcp_urg script.urg actual.urg
    >>> check_ecn_flags actual script flags
    >>> check_field tcp_reserved_bits script.res1 actual.res1
    >>> (if flags.ignore_seq then ok else check_field tcp_seq script.seq actual.seq)
    >>> check_field tcp_ack_seq script.ack_seq actual.ack_seq
    >>> (if flags.win_nocheck then ok else check_field tcp_window script.window actual.window)
    >>> check_field tcp_urg_ptr script.urg_ptr actual.urg_ptr
