-- ===== src/Verify/OptionsMatch.antt =====
-- Which options of an outbound live packet `verify_outbound_live_tcp_options` passes.
use packetdrill.Base.{
  ℕ, ◌+◌, ◌^◌, ◌≤◌, ◌<◌, ◌≡◌, ◌↔◌, ◌⊎◌, inl, inr, refl, sym, ap, Bool, true, false, List, Option,
  none, some, length, take, drop, memcpy, length-memcpy, be32_bytes, arith, All, IsByte, Bool-cases,
  if◌then◌else◌,
}
use packetdrill.SctpMatch.Compare.{same_bytes}
use packetdrill.SctpMatch.Laws.{same_bytes_refl, same_bytes-eq}
use packetdrill.Verify.Options.{
  OptionsVerdict, ok, bad_options, OptionBytes, same_tcp_options, packet_tcp_ts_val,
  packet_set_tcp_ts_val, check_ts_val, compare_but_ts_val, or_stop, compare_ts_val,
  verify_outbound_live_tcp_options,
}
use packetdrill.Verify.TsVal.{
  AgreeOutside, memcpy_iff, Holds, read_ts_val, IsClose, check_ts_val_iff,
}

same_tcp_options_iff : (a b : List ℕ) → (same_tcp_options a b ≡ true) ↔ (a ≡ b)
unfolding same_tcp_options
same_tcp_options_iff a b = (
  λ e. same_bytes-eq a b (ground arith),
  λ e.
      let same : same_bytes a b ≡ true = rw e (same_bytes_refl b) in
      let long : length a ≡ length b = ap length e in ground arith,
)

-- The two timestamps are close, and the options agree but for that of the actual packet, where the
-- script has its own value.
pub TsValMatches : ℕ → ℕ → List ℕ → List ℕ → Option ℕ → Option ℕ → Type 0
TsValMatches tick_usecs tolerance_usecs actual script (some v) (some w) =
    (s : ℕ) × (a : ℕ) × (packet_tcp_ts_val script w ≡ some s)
    × (packet_tcp_ts_val actual v ≡ some a)
    × IsClose tick_usecs tolerance_usecs s a
    × (take 4 (drop v script) ≡ be32_bytes s)
    × AgreeOutside v actual script
TsValMatches tick_usecs tolerance_usecs actual script v w = ⊥

-- A timestamp value lies in the options.
abbrev pub IsPlaced : List ℕ → Option ℕ → Type 0
IsPlaced options none = Unit
IsPlaced options (some v) = v + 4 ≤ length options

-- What a comparison does: it passes exactly in the given case, and leaves the options as they were.
pub Compares : List ℕ → Type 0 → OptionsVerdict × List ℕ → Type 0
Compares options P (verdict, after) = ((verdict ≡ ok) ↔ P) × (after ≡ options)

same_verdict :
    (xs ys : List ℕ) → ((if same_tcp_options xs ys then ok else bad_options) ≡ ok) ↔ (xs ≡ ys)
same_verdict xs ys = elim (Bool-cases (same_tcp_options xs ys)) [
  | inl same ↦ rw same (λ e. (same_tcp_options_iff xs ys).0 same, λ e. refl)
  | inr other ↦ rw other (
    λ e. absurd (cc e),
    λ e.
        let same : same_tcp_options xs ys ≡ true = (same_tcp_options_iff xs ys).1 e in
        absurd (cc (same, other)),
  )
]

Compares-through :
    (options : List ℕ) (P Q : Type 0) (r : OptionsVerdict × List ℕ)
    → (P ↔ Q)
    → Compares options P r
    → Compares options Q r
unfolding Compares
Compares-through options P Q r f ((d, e), kept) = ((λ h. f.0 (d h), λ q. e (f.1 q)), kept)

or_stop_lem :
    (v : OptionsVerdict) (options : List ℕ) (next : OptionsVerdict × List ℕ) (P Q : Type 0)
    → ((v ≡ ok) ↔ P)
    → Compares options Q next
    → Compares options (P × Q) (or_stop v options next)
unfolding Compares
or_stop_lem ok options (r, after) P Q p ((d, e), kept) =
    ((λ h. (p.0 refl, d h), λ (x, y). e y), kept)
or_stop_lem v options (r, after) P Q p q =
    ((λ h. absurd (cc h), λ (x, y). absurd (cc (p.1 x))), refl)

compare_but_ts_val_lem :
    (actual script : List ℕ) (v s a : ℕ)
    → v + 4 ≤ length actual
    → take 4 (drop v actual) ≡ be32_bytes a
    → Compares actual
        ((take 4 (drop v script) ≡ be32_bytes s) × AgreeOutside v actual script)
        (compare_but_ts_val actual script v s a)
unfolding compare_but_ts_val packet_set_tcp_ts_val Compares
compare_but_ts_val_lem actual script v s a h held =
    let rewritten : List ℕ = memcpy actual v (be32_bytes s) in
    let there = memcpy_iff v actual rewritten _ _ _ _ h in
    let (p, q) = (there.0 refl).1 in
    let long : v + 4 ≤ length rewritten = omega (arith, length-memcpy actual v (be32_bytes s)) in
    (
      (
        λ e. (memcpy_iff v actual script _ _ _ _ h).0 ((same_verdict rewritten script).0 e),
        λ m. (same_verdict rewritten script).1 ((memcpy_iff v actual script _ _ _ _ h).1 m),
      ),
      (memcpy_iff v rewritten actual _ _ _ _ long).1 (held, (sym p, sym q)),
    )

regroup :
    (tick_usecs tolerance_usecs : ℕ) (actual script : List ℕ) (v w s a : ℕ)
    → packet_tcp_ts_val script w ≡ some s
    → packet_tcp_ts_val actual v ≡ some a
    → (IsClose tick_usecs tolerance_usecs s a
        × ((take 4 (drop v script) ≡ be32_bytes s) × AgreeOutside v actual script))
      ↔ TsValMatches tick_usecs tolerance_usecs actual script (some v) (some w)
unfolding TsValMatches
regroup tick_usecs tolerance_usecs actual script v w s a es ea = (
  λ (c, (t, o)). (s, a, es, ea, c, t, o),
  λ (s', a', es', ea', c, t, o).
      let e : s' ≡ s = cc (es, es') in
      let f : a' ≡ a = cc (ea, ea') in (rw (sym e, sym f) c, (rw (sym e) t, o)),
)

by_values :
    (tick_usecs tolerance_usecs : ℕ) (actual script : List ℕ) (v w s a : ℕ)
    → tolerance_usecs < 2 ^ 31
    → v + 4 ≤ length actual
    → Holds script w s
    → Holds actual v a
    → Compares actual
        (TsValMatches tick_usecs tolerance_usecs actual script (some v) (some w))
        (compare_ts_val tick_usecs tolerance_usecs actual script (some v) (some w))
unfolding compare_ts_val
by_values tick_usecs tolerance_usecs actual script v w s a ht pa (es, hs, ls) (ea, ha, la) =
    Compares-through _ _ _ _ (regroup _ _ actual script v w s a es ea) (
      rw (es, ea)
        (or_stop_lem (check_ts_val tick_usecs tolerance_usecs s a) actual _ _ _
          (check_ts_val_iff tick_usecs tolerance_usecs s a ht ls la)
          (compare_but_ts_val_lem actual script v s a pa ha)))

compare_ts_val_lem :
    (tick_usecs tolerance_usecs : ℕ) (actual script : List ℕ) (v w : Option ℕ)
    → tolerance_usecs < 2 ^ 31
    → All IsByte actual
    → All IsByte script
    → IsPlaced actual v
    → IsPlaced script w
    → Compares actual
        (TsValMatches tick_usecs tolerance_usecs actual script v w)
        (compare_ts_val tick_usecs tolerance_usecs actual script v w)
unfolding compare_ts_val TsValMatches Compares
compare_ts_val_lem tick_usecs tolerance_usecs actual script (some v) (some w) ht ba bs pa ps =
    let (s, (es, hs, ls)) = read_ts_val script w ps bs in
    let (a, (ea, ha, la)) = read_ts_val actual v pa ba in
    by_values tick_usecs tolerance_usecs actual script v w s a ht pa (es, hs, ls) (ea, ha, la)
compare_ts_val_lem tick_usecs tolerance_usecs actual script none w ht ba bs pa ps =
    ((λ e. absurd (cc e), λ e. elim e [ ]), refl)
compare_ts_val_lem tick_usecs tolerance_usecs actual script (some v) none ht ba bs pa ps =
    ((λ e. absurd (cc e), λ e. elim e [ ]), refl)

-- If the tolerance is that of an `int`, the options are bytes and the timestamp values lie in them,
-- then `verify_outbound_live_tcp_options` passes exactly if options are not checked, or are the
-- same, or agree but for timestamp values that are close; the live packet's options are afterwards
-- as they were.
pub verify_outbound_live_tcp_options_lem :
    (tick_usecs tolerance_usecs : ℕ) (options_nocheck : Bool) (actual script : OptionBytes)
    → tolerance_usecs < 2 ^ 31
    → All IsByte actual.bytes
    → All IsByte script.bytes
    → IsPlaced actual.bytes actual.tcp_ts_val
    → IsPlaced script.bytes script.tcp_ts_val
    → Compares actual.bytes
        ((options_nocheck ≡ true)
          ⊎ ((actual.bytes ≡ script.bytes)
              ⊎ TsValMatches tick_usecs tolerance_usecs actual.bytes script.bytes actual.tcp_ts_val
                  script.tcp_ts_val))
        (verify_outbound_live_tcp_options tick_usecs tolerance_usecs options_nocheck actual script)
unfolding verify_outbound_live_tcp_options Compares
verify_outbound_live_tcp_options_lem tick_usecs tolerance_usecs true actual script ht ba bs pa ps =
    ((λ e. inl refl, λ m. refl), refl)
verify_outbound_live_tcp_options_lem tick_usecs tolerance_usecs false actual script ht ba bs pa ps =
    elim (Bool-cases (same_tcp_options actual.bytes script.bytes)) [
      | inl same ↦ rw same (
        (λ e. inr (inl ((same_tcp_options_iff actual.bytes script.bytes).0 same)), λ m. refl),
        refl,
      )
      | inr other ↦ rw other (
          let ((d, e), kept) =
            compare_ts_val_lem tick_usecs tolerance_usecs actual.bytes script.bytes
              actual.tcp_ts_val script.tcp_ts_val ht ba bs pa ps in
          (
            (
              λ h. inr (inr (d h)),
              λ m. elim m [
                | inl checked ↦ absurd (cc checked)
                | inr (inl same) ↦
                    let t : same_tcp_options actual.bytes script.bytes ≡ true =
                      (same_tcp_options_iff actual.bytes script.bytes).1 same in
                    absurd (cc (t, other))
                | inr (inr close) ↦ e close
              ],
            ),
            kept,
          ))
    ]
