-- ===== src/Verify/Options.antt =====
-- `verify_outbound_live_tcp_options` and `verify_outbound_live_payload` of run_packet.c.
use packetdrill.Base.{
  ℕ, ◌+◌, ◌-◌, ◌*◌, ◌^◌, Bool, not, ◌&&◌, List, ◌∷◌, Option, none, some, length, drop, memcpy, be32,
  be32_bytes, u32, ◌==◌, ltb, leb, if◌then◌else◌,
}
use packetdrill.SctpMatch.Compare.{same_bytes}

-- `overflow` is a product beyond an `int`, which is undefined; `outside` an access behind the
-- options.
pub data OptionsVerdict : Type 0 where
  ok bad_ts_val bad_options bad_payload assertion_failed overflow outside : OptionsVerdict

-- The options of a packet, and where its timestamp value is in them.
pub record OptionBytes : Type 0 where
  pub bytes : List ℕ
  pub tcp_ts_val : Option ℕ

unfoldable pub same_tcp_options : List ℕ → List ℕ → Bool
unfolding same_bytes
same_tcp_options a b = (length a == length b) && same_bytes a b

abbrev pub first_be32 : List ℕ → Option ℕ
first_be32 (a ∷ b ∷ c ∷ d ∷ rest) = some (be32 a b c d)
first_be32 few = none

unfoldable pub packet_tcp_ts_val : List ℕ → ℕ → Option ℕ
packet_tcp_ts_val options v = first_be32 (drop v options)

unfoldable pub packet_set_tcp_ts_val : List ℕ → ℕ → ℕ → List ℕ
packet_set_tcp_ts_val options v ts_val = memcpy options v (be32_bytes ts_val)

-- `abs` of the difference as an `s32`.
abbrev pub abs : ℕ → ℕ
abs difference = if ltb difference (2 ^ 31) then difference else 2 ^ 32 - difference

-- The test of the deviation, from two timestamps. No test is made for ticks of length zero.
unfoldable pub check_ts_val : ℕ → ℕ → ℕ → ℕ → OptionsVerdict
check_ts_val tick_usecs tolerance_usecs script_ts_val actual_ts_val =
    let deviation = abs (u32 (actual_ts_val + 2 ^ 32 - script_ts_val)) * tick_usecs in
    if tick_usecs == 0
    then ok
    else (if leb (2 ^ 31) deviation
        then overflow
        else (if ltb tolerance_usecs deviation then bad_ts_val else ok))

-- The value of the script is written over the actual one, and this one back after the comparison.
unfoldable pub compare_but_ts_val : List ℕ → List ℕ → ℕ → ℕ → ℕ → OptionsVerdict × List ℕ
unfolding packet_set_tcp_ts_val same_tcp_options
compare_but_ts_val actual script v script_ts_val actual_ts_val =
    let rewritten = packet_set_tcp_ts_val actual v script_ts_val in
    (
      if same_tcp_options rewritten script then ok else bad_options,
      packet_set_tcp_ts_val rewritten v actual_ts_val,
    )

abbrev pub or_stop : OptionsVerdict → List ℕ → OptionsVerdict × List ℕ → OptionsVerdict × List ℕ
or_stop ok options next = next
or_stop v options next = (v, options)

abbrev pub with_ts_vals :
    Option ℕ → Option ℕ → List ℕ → (ℕ → ℕ → OptionsVerdict × List ℕ) → OptionsVerdict × List ℕ
with_ts_vals (some s) (some a) options k = k s a
with_ts_vals s a options k = (outside, options)

-- The case that both packets have a timestamp.
unfoldable pub compare_ts_val :
    ℕ → ℕ → List ℕ → List ℕ → Option ℕ → Option ℕ → OptionsVerdict × List ℕ
unfolding packet_tcp_ts_val check_ts_val compare_but_ts_val
compare_ts_val tick_usecs tolerance_usecs actual script (some v) (some w) =
    with_ts_vals (packet_tcp_ts_val script w) (packet_tcp_ts_val actual v) actual (λ s a.
      or_stop (check_ts_val tick_usecs tolerance_usecs s a) actual
        (compare_but_ts_val actual script v s a))
compare_ts_val tick_usecs tolerance_usecs actual script v w = (bad_options, actual)

-- The verdict, and the options of the actual packet afterwards. `options_nocheck` is
-- FLAG_OPTIONS_NOCHECK.
unfoldable pub verify_outbound_live_tcp_options :
    ℕ → ℕ → Bool → OptionBytes → OptionBytes → OptionsVerdict × List ℕ
unfolding same_tcp_options compare_ts_val
verify_outbound_live_tcp_options tick_usecs tolerance_usecs options_nocheck actual script =
    if options_nocheck
    then (ok, actual.bytes)
    else (if same_tcp_options actual.bytes script.bytes
        then (ok, actual.bytes)
        else compare_ts_val tick_usecs tolerance_usecs actual.bytes script.bytes actual.tcp_ts_val
            script.tcp_ts_val)

unfoldable pub verify_outbound_live_payload : Bool → List ℕ → List ℕ → OptionsVerdict
unfolding same_bytes
verify_outbound_live_payload is_sctp actual script =
    if is_sctp
    then ok
    else (if not (length actual == length script)
        then assertion_failed
        else (if same_bytes script actual then ok else bad_payload))
