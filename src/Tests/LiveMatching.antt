-- ===== src/Tests/LiveMatching.antt =====
-- The comparison of all headers, and of the options, of an outbound packet on concrete ones.
use packetdrill.Base.{
  ℕ, List, [], ◌∷◌, ◌++◌, arith, ◌≡◌, ◌↔◌, ◌⊎◌, refl, true, false, some, be32_bytes, All,
}
use packetdrill.Tests.Matching.{
  syn, live_syn, ports, unchecked_options, ipv4_header, live_ipv4_header, two_labels,
}
use packetdrill.Verify.{ecn_ect01}
use packetdrill.Verify.Live.{
  LayerHeader, LivePacket, ScriptPacket, ok, ipv4, gre, mpls, tcp, verify_outbound_live_headers,
}
use packetdrill.Verify.LiveMatches.{HeadersMatch, IsHeld, verify_outbound_live_headers_iff}
use packetdrill.Verify.Options.{
  OptionBytes, bad_ts_val, overflow, check_ts_val, verify_outbound_live_tcp_options,
}
use packetdrill.Verify.OptionsMatch.{Compares, TsValMatches, verify_outbound_live_tcp_options_lem}

abbrev live_headers : List LayerHeader
live_headers = ipv4 live_ipv4_header ∷ gre 128 ∷ mpls 8 two_labels ∷ tcp live_syn ports ∷ []

abbrev script_headers : List LayerHeader
script_headers = ipv4 ipv4_header ∷ gre 128 ∷ mpls 8 two_labels ∷ tcp syn ports ∷ []

abbrev live_packet : LivePacket
live_packet = record {
  has_ip = true;
  has_transport = true;
  headers = live_headers;
  tcp_options_len = 12;
  memory = [];
  payload = 0;
  packet_end = 0;
}

abbrev script_packet : ScriptPacket
script_packet = record {
  headers = script_headers;
  ecn = ecn_ect01;
  flags = unchecked_options;
  chunk_list = [];
}

live_headers-IsHeld : All IsHeld live_headers
live_headers-IsHeld = (tt, (tt, ((2, refl, omega arith), (tt, tt))))

script_headers-IsHeld : All IsHeld script_headers
script_headers-IsHeld = (tt, (tt, ((2, refl, omega arith), (tt, tt))))

verify_outbound_live_headers_iff_example :
    (verify_outbound_live_headers live_packet script_packet 0 ≡ ok)
    ↔ HeadersMatch live_packet script_packet 0 live_headers script_headers
verify_outbound_live_headers_iff_example =
    verify_outbound_live_headers_iff live_packet script_packet 0 tt (omega arith) (omega arith) refl
      refl live_headers-IsHeld script_headers-IsHeld

-- Two NOPs and a timestamp.
abbrev with_ts_val : ℕ → OptionBytes
with_ts_val n = record {
  bytes = 1 ∷ 1 ∷ 8 ∷ 10 ∷ be32_bytes n ++ (0 ∷ 0 ∷ 0 ∷ 0 ∷ []);
  tcp_ts_val = some 4;
}

one_late : check_ts_val 1000 4000 100 105 ≡ bad_ts_val
unfolding check_ts_val
one_late = refl

far_away : check_ts_val 1000000 4000 100 2248 ≡ overflow
unfolding check_ts_val
far_away = refl

verify_outbound_live_tcp_options_lem_example :
    Compares
      (with_ts_val 102).bytes
      ((false ≡ true)
        ⊎ (((with_ts_val 102).bytes ≡ (with_ts_val 100).bytes)
            ⊎ TsValMatches 1000 4000
                (with_ts_val 102).bytes
                (with_ts_val 100).bytes
                (some 4)
                (some 4)))
      (verify_outbound_live_tcp_options 1000 4000 false (with_ts_val 102) (with_ts_val 100))
verify_outbound_live_tcp_options_lem_example =
    verify_outbound_live_tcp_options_lem 1000 4000 false (with_ts_val 102) (with_ts_val 100)
      (omega arith) (ground arith) (ground arith) (omega arith) (omega arith)
