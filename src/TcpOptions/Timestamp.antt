-- ===== src/TcpOptions/Timestamp.antt =====
-- `find_tcp_timestamp` finds fields inside the options.
use packetdrill.Base.{
  ℕ, zero, suc, ◌+◌, ◌-◌, ◌≤◌, ◌<◌, ◌≡◌, true, some, List, [], ◌∷◌, arith, drop, length,
  length-drop, inl, inr, ◌==◌, Bool-cases, if◌then◌else◌,
}
use packetdrill.TcpOptions.{ok, err, fault, option_length, tcpopt_timestamp, Result}
use packetdrill.TcpOptions.Loops.{
  Loop, finished, failed, Timestamps, no_timestamps, is_kind, find_tcp_timestamp,
}
use packetdrill.TcpOptions.Walk.{option_length_bounds, option_length-ne-fault, Result-cases}

-- Either no timestamp, or both four-byte fields between `start` and `end`, one behind the other.
pub data IsWithin (start end : ℕ) : Timestamps → Type 0 where
  no_option : IsWithin start end no_timestamps
  fields :
      (v w : ℕ)
      → w ≡ v + 4
      → start ≤ v
      → v + 8 ≤ end
      → IsWithin start end record { ts_val = some v; ts_ecr = some w }

-- How the search may end: the fields of a finished search stand within the options.
pub data Searched (start end : ℕ) : Loop Timestamps → Type 0 where
  found : (t : Timestamps) → IsWithin start end t → Searched start end (finished t)
  broken : (e : packetdrill.TcpOptions.Error) (t : Timestamps) → Searched start end (failed e t)

timestamp_length :
    (rest : List ℕ) (left n : ℕ)
    → is_kind tcpopt_timestamp rest ≡ true
    → option_length rest left ≡ ok n
    → n ≡ 10
unfolding option_length
timestamp_length [] left n k e = cc
timestamp_length (kind ∷ []) left n k e = ground arith
timestamp_length (kind ∷ size ∷ rest) left n k e = ground arith

IsWithin-mono :
    {start end end' : ℕ} {t : Timestamps}
    → end ≤ end'
    → IsWithin start end t
    → IsWithin start end' t
IsWithin-mono h no_option = no_option
IsWithin-mono h (fields v w e hs he) = fields v w e hs (omega arith)

find-Searched :
    (fuel : ℕ) (rest : List ℕ) (left start p : ℕ) (t : Timestamps)
    → left < fuel
    → left ≤ length rest
    → start ≤ p
    → IsWithin start p t
    → Searched start (p + left) (find_tcp_timestamp fuel rest left p t)
unfolding find_tcp_timestamp
find-Searched zero rest left start p t hf hl hs w = absurd (omega arith)
find-Searched (suc fuel) rest left start p t hf hl hs w = elim (Bool-cases (left == 0)) [
  | inl done ↦ rw done (found t (IsWithin-mono (omega arith) w))
  | inr more ↦ rw more (elim (Result-cases (option_length rest left)) [
    | inl (n, e) ↦
        let b : (1 ≤ n) × (n ≤ left) = option_length_bounds rest left n (ground arith) e in
        let total : p + left ≡ (p + n) + (left - n) = omega (arith, b.1) in
        rw (e, total)
          (elim (Bool-cases (is_kind tcpopt_timestamp rest)) [
            | inl stamp ↦ rw stamp (
                find-Searched fuel (drop n rest) (left - n) start (p + n)
                  record { ts_val = some (p + 2); ts_ecr = some (p + 6) } (omega (arith, b.0))
                  (omega (arith, length-drop n rest)) (omega arith)
                  (fields (p + 2) (p + 6) (omega arith) (omega arith)
                    (omega (arith, timestamp_length rest left n stamp e))))
            | inr other ↦ rw other (
                find-Searched fuel (drop n rest) (left - n) start (p + n) t (omega (arith, b.0))
                  (omega (arith, length-drop n rest)) (omega arith) (IsWithin-mono (omega arith) w))
          ])
    | inr (inl (e, eq)) ↦ rw eq (
        broken e (
          if is_kind tcpopt_timestamp rest
          then record { ts_val = some (p + 2); ts_ecr = some (p + 6) }
          else t))
    | inr (inr eq) ↦ absurd (option_length-ne-fault rest left (ground arith) hl eq)
  ])
]

-- If the memory holds the options, which start at the position `start`, and the fuel is more
-- than their bytes, then the search for the timestamp ends, with an error or with all of its
-- result inside the options: both fields or none, the echo reply behind the value.
pub find_tcp_timestamp-Searched :
    (fuel : ℕ) (rest : List ℕ) (left start : ℕ)
    → left < fuel
    → left ≤ length rest
    → Searched start (start + left) (find_tcp_timestamp fuel rest left start no_timestamps)
find_tcp_timestamp-Searched fuel rest left start hf hl =
    find-Searched fuel rest left start start no_timestamps hf hl (omega arith) no_option
