-- ===== src/Tests/Matching.antt =====
-- The comparison of headers on concrete ones.
use packetdrill.Base.{ℕ, List, [], ◌∷◌, ◌≡◌, ◌↔◌, refl, true, false}
use packetdrill.Verify.{
  ok, Tcp, Ports, Flags, Ipv4, ecn_ect01, verify_tcp, verify_ipv4, mismatch, tcp_window,
  check_field, tcp_options_allowance, check_ecn_flags,
}
use packetdrill.Verify.Matches.{TcpMatches, Ipv4Matches, verify_tcp_iff, verify_ipv4_iff}

abbrev pub syn : Tcp
syn = record {
  doff = 5;
  fin = 0;
  syn = 1;
  rst = 0;
  psh = 0;
  ack = 0;
  urg = 0;
  ece = 0;
  cwr = 0;
  ae = 0;
  res1 = 0;
  seq = 1000;
  ack_seq = 0;
  window = 65535;
  urg_ptr = 0;
}

-- With twelve bytes of options and a smaller window.
abbrev pub live_syn : Tcp
live_syn = record syn { doff = 8; window = 29200 }

abbrev pub ports : Ports
ports = record { src_port = 8080; dst_port = 8081 }

abbrev pub unchecked_options : Flags
unchecked_options = record {
  win_nocheck = false;
  options_nocheck = true;
  ignore_seq = false;
  parse_ace = false;
}

wrong_window :
    verify_tcp live_syn syn ports ports 12 unchecked_options 0 ≡ mismatch tcp_window 65535 29200
unfolding verify_tcp check_field tcp_options_allowance check_ecn_flags
wrong_window = refl

verify_tcp_iff_example :
    (verify_tcp live_syn syn ports ports 12 unchecked_options 0 ≡ ok)
    ↔ TcpMatches live_syn syn ports ports 12 unchecked_options 0
verify_tcp_iff_example = verify_tcp_iff live_syn syn ports ports 12 unchecked_options 0

abbrev pub ipv4_header : Ipv4
ipv4_header = record { version = 4; protocol = 6; ihl = 5; tot_len = 40; tos = 2 }

abbrev pub live_ipv4_header : Ipv4
live_ipv4_header = record ipv4_header { tot_len = 52 }

verify_ipv4_iff_example :
    (verify_ipv4 live_ipv4_header ipv4_header ecn_ect01 12 unchecked_options 0 ≡ ok)
    ↔ Ipv4Matches live_ipv4_header ipv4_header ecn_ect01 12 unchecked_options 0
verify_ipv4_iff_example =
    verify_ipv4_iff live_ipv4_header ipv4_header ecn_ect01 12 unchecked_options 0

abbrev pub two_labels : List ℕ
two_labels = 0 ∷ 1 ∷ 16 ∷ 64 ∷ 0 ∷ 1 ∷ 33 ∷ 64 ∷ 69 ∷ []
