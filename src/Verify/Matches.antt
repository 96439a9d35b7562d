-- ===== src/Verify/Matches.antt =====
-- What it means for a live header to match the script's, independent of the order of the checks.
use packetdrill.Base.{
  ℕ, ◌+◌, ◌*◌, ◌/◌, ◌≡◌, refl, Bool, true, false, bit_or, if◌then◌else◌, ◌↔◌, ◌⊎◌, ◌&&◌, ◌==◌,
  arith, u32, bit_and,
}
use packetdrill.Verify.{
  ok, IpEcn, ecn_none, ecn_ect0, ecn_ect1, ecn_ce, ecn_ect01, ecn_nocheck, verify_outbound_live_ecn,
  Flags, tcp_options_allowance, Ipv4, Ipv6, Tcp, Ports, tcp_ace_field, check_total_length,
  verify_ipv4, check_payload_len, verify_ipv6, check_ecn_flags, verify_tcp, ip_ecn, check_field,
  tcp_ace,
}
use packetdrill.Verify.Fields.{check_field_iff, then_iff, ok_iff, if_iff, ◌and◌, Either}

-- The ECN bits are those that the script allows.
pub EcnMatches : IpEcn → ℕ → ℕ → Type 0
EcnMatches ecn_nocheck actual script = Unit
EcnMatches ecn_ect01 actual script = (actual ≡ 2) ⊎ (actual ≡ 1)
EcnMatches ecn_none actual script = actual ≡ script
EcnMatches ecn_ect0 actual script = actual ≡ script
EcnMatches ecn_ect1 actual script = actual ≡ script
EcnMatches ecn_ce actual script = actual ≡ script

ecn_iff :
    (ecn : IpEcn) (actual script : ℕ)
    → (verify_outbound_live_ecn ecn actual script ≡ ok) ↔ EcnMatches ecn actual script
unfolding verify_outbound_live_ecn EcnMatches
ecn_iff ecn_nocheck actual script = ok_iff
ecn_iff ecn_ect01 actual script = ground arith
ecn_iff ecn_none actual script = check_field_iff ip_ecn script actual
ecn_iff ecn_ect0 actual script = check_field_iff ip_ecn script actual
ecn_iff ecn_ect1 actual script = check_field_iff ip_ecn script actual
ecn_iff ecn_ce actual script = check_field_iff ip_ecn script actual

-- The bytes of the live packet's options count if the script does not check options.
abbrev pub allowed_options : ℕ → Flags → ℕ
allowed_options options_len flags = if flags.options_nocheck then options_len else 0

-- The number with the digits AE, CWR and ECE in base two.
abbrev pub ace_number : Tcp → ℕ
ace_number tcp =
    (if tcp.ae == 0 then 0 else 1) * 4
    + (if tcp.cwr == 0 then 0 else 1) * 2
    + (if tcp.ece == 0 then 0 else 1)

tcp_ace_field-number : (tcp : Tcp) → tcp_ace_field tcp ≡ ace_number tcp
unfolding tcp_ace_field
tcp_ace_field-number tcp = digits (tcp.ae == 0) (tcp.cwr == 0) (tcp.ece == 0)
  where
    digits :
        (a c e : Bool)
        → bit_or (if a then 0 else 4) (bit_or (if c then 0 else 2) (if e then 0 else 1))
          ≡ (if a then 0 else 1) * 4 + (if c then 0 else 1) * 2 + (if e then 0 else 1)
    digits true true true = refl
    digits true true false = refl
    digits true false true = refl
    digits true false false = refl
    digits false true true = refl
    digits false true false = refl
    digits false false true = refl
    digits false false false = refl

-- The ports of the UDP header before an encapsulated TCP header, if there is one; the data offset,
-- up to the options if these are not checked; each flag, or the ACE field in place of three of
-- them; the reserved bits; the sequence number and the window unless they are not checked; the
-- acknowledgement and the urgent pointer.
pub TcpMatches : Tcp → Tcp → Ports → Ports → ℕ → Flags → ℕ → Type 0
TcpMatches actual script actual_udp script_udp options_len flags udp_encaps =
    Either (udp_encaps == 0) (Unit {0})
      ((actual_udp.src_port ≡ script_udp.src_port) and (actual_udp.dst_port ≡ script_udp.dst_port))
    and (actual.doff ≡ u32 (script.doff + allowed_options options_len flags / 4))
    and (actual.fin ≡ script.fin)
    and (actual.syn ≡ script.syn)
    and (actual.rst ≡ script.rst)
    and (actual.psh ≡ script.psh)
    and (actual.ack ≡ script.ack)
    and (actual.urg ≡ script.urg)
    and Either flags.parse_ace (ace_number actual ≡ ace_number script)
        ((actual.ece ≡ script.ece) and (actual.cwr ≡ script.cwr) and (actual.ae ≡ script.ae))
    and (actual.res1 ≡ script.res1)
    and Either flags.ignore_seq (Unit {0}) (actual.seq ≡ script.seq)
    and (actual.ack_seq ≡ script.ack_seq)
    and Either flags.win_nocheck (Unit {0}) (actual.window ≡ script.window)
    and (actual.urg_ptr ≡ script.urg_ptr)

ace_iff :
    (actual script : Tcp)
    → (check_field tcp_ace (tcp_ace_field script) (tcp_ace_field actual) ≡ ok)
      ↔ (ace_number actual ≡ ace_number script)
ace_iff actual script =
    rw (tcp_ace_field-number actual, tcp_ace_field-number script)
      (check_field_iff tcp_ace (ace_number script) (ace_number actual))

-- `verify_tcp` passes exactly the headers that match the script's.
pub verify_tcp_iff :
    (actual script : Tcp) (actual_udp script_udp : Ports) (options_len : ℕ) (flags : Flags)
    (udp_encaps : ℕ)
    → (verify_tcp actual script actual_udp script_udp options_len flags udp_encaps ≡ ok)
      ↔ TcpMatches actual script actual_udp script_udp options_len flags udp_encaps
unfolding verify_tcp check_ecn_flags TcpMatches tcp_options_allowance
verify_tcp_iff actual script actual_udp script_udp options_len flags udp_encaps =
    then_iff _ _
      (if_iff (udp_encaps == 0) _ _ ok_iff
        (then_iff _ _ (check_field_iff _ _ _) (check_field_iff _ _ _)))
      (then_iff _ _ (check_field_iff _ _ _) (
        then_iff _ _ (check_field_iff _ _ _) (
          then_iff _ _ (check_field_iff _ _ _) (
            then_iff _ _ (check_field_iff _ _ _) (
              then_iff _ _ (check_field_iff _ _ _) (
                then_iff _ _ (check_field_iff _ _ _) (
                  then_iff _ _ (check_field_iff _ _ _) (
                    then_iff _ _
                      (if_iff flags.parse_ace _ _ (ace_iff actual script) (
                        then_iff _ _ (check_field_iff _ _ _)
                          (then_iff _ _ (check_field_iff _ _ _) (check_field_iff _ _ _))))
                      (then_iff _ _ (check_field_iff _ _ _) (
                        then_iff _ _ (if_iff flags.ignore_seq _ _ ok_iff (check_field_iff _ _ _)) (
                          then_iff _ _ (check_field_iff _ _ _) (
                            then_iff _ _
                              (if_iff flags.win_nocheck _ _ ok_iff (check_field_iff _ _ _))
                              (check_field_iff _ _ _)))))))))))))

-- The total length is not compared for SCTP, by itself or within UDP. It is that of the script with
-- the options that are not checked for TCP, by itself or within UDP, and else that of the script.
pub Ipv4LengthMatches : Ipv4 → Ipv4 → ℕ → ℕ → Type 0
Ipv4LengthMatches actual script allowance udp_encaps = Either (script.protocol == 132) (Unit {0}) (
    Either (script.protocol == 6) (actual.tot_len ≡ u32 (script.tot_len + allowance)) (
      Either (script.protocol == 17 && udp_encaps == 6)
        (actual.tot_len ≡ u32 (script.tot_len + allowance))
        (Either (script.protocol == 17 && udp_encaps == 132) (Unit {0})
          (actual.tot_len ≡ script.tot_len))))

total_length_iff :
    (actual script : Ipv4) (allowance udp_encaps : ℕ)
    → (check_total_length actual script allowance udp_encaps ≡ ok)
      ↔ Ipv4LengthMatches actual script allowance udp_encaps
unfolding check_total_length Ipv4LengthMatches
total_length_iff actual script allowance udp_encaps = if_iff _ _ _ ok_iff (
    if_iff _ _ _ (check_field_iff _ _ _)
      (if_iff _ _ _ (check_field_iff _ _ _) (if_iff _ _ _ ok_iff (check_field_iff _ _ _))))

-- As for IPv4, but that nothing is compared for UDP other than with TCP within.
pub Ipv6LengthMatches : Ipv6 → Ipv6 → ℕ → ℕ → Type 0
Ipv6LengthMatches actual script allowance udp_encaps =
    Either (script.next_header == 132) (Unit {0}) (
      Either (script.next_header == 6) (actual.payload_len ≡ u32 (script.payload_len + allowance)) (
        Either (script.next_header == 17)
          (Either (udp_encaps == 6) (actual.payload_len ≡ u32 (script.payload_len + allowance))
            (Unit {0}))
          (actual.payload_len ≡ script.payload_len)))

payload_len_iff :
    (actual script : Ipv6) (allowance udp_encaps : ℕ)
    → (check_payload_len actual script allowance udp_encaps ≡ ok)
      ↔ Ipv6LengthMatches actual script allowance udp_encaps
unfolding check_payload_len Ipv6LengthMatches
payload_len_iff actual script allowance udp_encaps = if_iff _ _ _ ok_iff (
    if_iff _ _ _ (check_field_iff _ _ _)
      (if_iff _ _ _ (if_iff _ _ _ (check_field_iff _ _ _) ok_iff) (check_field_iff _ _ _)))

-- The version, protocol and header length, the total length as far as it is compared, and the ECN
-- bits that the script allows.
pub Ipv4Matches : Ipv4 → Ipv4 → IpEcn → ℕ → Flags → ℕ → Type 0
Ipv4Matches actual script ecn options_len flags udp_encaps =
    (actual.version ≡ script.version)
    and (actual.protocol ≡ script.protocol)
    and (actual.ihl ≡ script.ihl)
    and Ipv4LengthMatches actual script (allowed_options options_len flags) udp_encaps
    and EcnMatches ecn (bit_and actual.tos 3) (bit_and script.tos 3)

-- `verify_ipv4` passes exactly the headers that match the script's.
pub verify_ipv4_iff :
    (actual script : Ipv4) (ecn : IpEcn) (options_len : ℕ) (flags : Flags) (udp_encaps : ℕ)
    → (verify_ipv4 actual script ecn options_len flags udp_encaps ≡ ok)
      ↔ Ipv4Matches actual script ecn options_len flags udp_encaps
unfolding verify_ipv4 Ipv4Matches tcp_options_allowance
verify_ipv4_iff actual script ecn options_len flags udp_encaps =
    then_iff _ _ (check_field_iff _ _ _) (
      then_iff _ _ (check_field_iff _ _ _) (
        then_iff _ _ (check_field_iff _ _ _) (
          then_iff _ _
            (total_length_iff actual script (allowed_options options_len flags) udp_encaps)
            (ecn_iff _ _ _))))

-- The version, the next header, the payload length as far as it is compared, and the ECN bits.
pub Ipv6Matches : Ipv6 → Ipv6 → IpEcn → ℕ → Flags → ℕ → Type 0
Ipv6Matches actual script ecn options_len flags udp_encaps =
    (actual.version ≡ script.version)
    and (actual.next_header ≡ script.next_header)
    and Ipv6LengthMatches actual script (allowed_options options_len flags) udp_encaps
    and EcnMatches ecn (bit_and actual.traffic_class_lo 3) (bit_and script.traffic_class_lo 3)

-- `verify_ipv6` passes exactly the headers that match the script's.
pub verify_ipv6_iff :
    (actual script : Ipv6) (ecn : IpEcn) (options_len : ℕ) (flags : Flags) (udp_encaps : ℕ)
    → (verify_ipv6 actual script ecn options_len flags udp_encaps ≡ ok)
      ↔ Ipv6Matches actual script ecn options_len flags udp_encaps
unfolding verify_ipv6 Ipv6Matches tcp_options_allowance
verify_ipv6_iff actual script ecn options_len flags udp_encaps =
    then_iff _ _ (check_field_iff _ _ _) (
      then_iff _ _ (check_field_iff _ _ _) (
        then_iff _ _ (payload_len_iff actual script (allowed_options options_len flags) udp_encaps)
          (ecn_iff _ _ _)))
