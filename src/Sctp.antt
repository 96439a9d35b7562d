-- ===== src/Sctp.antt =====
-- The iterators over SCTP chunks, parameters and error causes of
-- gtests/net/packetdrill/sctp_iterator.c. Positions are offsets into the memory; the headers of
-- the three kinds of item are four bytes long, with the length in network order in the last two.
pub mod Walk
use packetdrill.Base.{
  ℕ, suc, zero, ◌+◌, ◌-◌, ◌%◌, Bool, true, false, List, [], ◌∷◌, Option, none, some, ltb, leb, ◌==◌,
  if◌then◌else◌, be16, get_elem?,
}

pub data Error : Type 0 where
  too_short partial : Error

-- `current` is the `current_chunk` of the source, and so on; `none` is NULL.
pub record Iterator : Type 0 where
  pub current : Option ℕ
  pub end : ℕ

-- The iterator and `*error` behind a call. `aborted` is a failed assertion, `fault` a read outside
-- the memory or at NULL.
pub data Outcome : Type 0 where
  at : Iterator → Option Error → Outcome
  aborted fault : Outcome

abbrev pub both : Option ℕ → Option ℕ → Option ℕ
both none y = none
both (some a) none = none
both (some a) (some b) = some (be16 a b)

-- `ntohs(...->length)` of the item at offset `p`.
unfoldable pub item_length : List ℕ → ℕ → Option ℕ
item_length memory p = both (get_elem? memory (p + 2)) (get_elem? memory (p + 3))

-- `sizeof(struct sctp_chunk)`, `sizeof(struct sctp_parameter)` and `sizeof(struct sctp_cause)`.
abbrev pub item_bytes : ℕ
item_bytes = 4

unfoldable pub get_current_chunk : List ℕ → ℕ → ℕ → Outcome
get_current_chunk memory p end =
    if p == end
    then at record { current = none; end = end } none
    else (if ltb end (p + item_bytes)
        then at record { current = some p; end = end } (some too_short)
        else elim (item_length memory p) [
          | none ↦ fault
          | some chunk_length ↦
              at record { current = some p; end = end }
                (if ltb end (p + chunk_length) then some partial else none)
        ])

-- `packet_payload(packet)` and `packet_end(packet)` are given as offsets.
unfoldable pub sctp_chunks_begin : List ℕ → ℕ → ℕ → Option Error → Outcome
sctp_chunks_begin memory payload packet_end (some e) = aborted
sctp_chunks_begin memory payload packet_end none = get_current_chunk memory payload packet_end

abbrev pub padding : ℕ → ℕ
padding n = if ltb 0 (n % 4) then 4 - n % 4 else 0

unfoldable pub sctp_chunks_next : List ℕ → Iterator → Option Error → Outcome
sctp_chunks_next memory it (some e) = aborted
sctp_chunks_next memory it none = elim it.current [
  | none ↦ fault
  | some p ↦ elim (item_length memory p) [
    | none ↦ fault
    | some chunk_length ↦
        if ltb chunk_length item_bytes
        then aborted
        else (if ltb it.end (p + chunk_length + padding chunk_length)
            then get_current_chunk memory it.end it.end
            else get_current_chunk memory (p + chunk_length + padding chunk_length) it.end)
  ]
]

unfoldable pub get_current_parameter : List ℕ → ℕ → ℕ → Outcome
get_current_parameter memory p end =
    if p == end
    then at record { current = none; end = end } none
    else (if ltb end (p + item_bytes)
        then at record { current = some p; end = end } (some too_short)
        else elim (item_length memory p) [
          | none ↦ fault
          | some parameter_length ↦
              at record { current = some p; end = end }
                (if ltb end (p + parameter_length) then some partial else none)
        ])

unfoldable pub sctp_parameters_begin : List ℕ → ℕ → ℕ → Option Error → Outcome
sctp_parameters_begin memory begin length (some e) = aborted
sctp_parameters_begin memory begin length none = get_current_parameter memory begin (begin + length)

unfoldable pub sctp_parameters_next : List ℕ → Iterator → Option Error → Outcome
sctp_parameters_next memory it (some e) = aborted
sctp_parameters_next memory it none = elim it.current [
  | none ↦ fault
  | some p ↦ elim (item_length memory p) [
    | none ↦ fault
    | some parameter_length ↦
        if ltb parameter_length item_bytes
        then aborted
        else (if ltb it.end (p + parameter_length + padding parameter_length)
            then get_current_parameter memory it.end it.end
            else get_current_parameter memory (p + parameter_length + padding parameter_length)
                it.end)
  ]
]

unfoldable pub get_current_cause : List ℕ → ℕ → ℕ → Outcome
get_current_cause memory p end =
    if p == end
    then at record { current = none; end = end } none
    else (if ltb end (p + item_bytes)
        then at record { current = some p; end = end } (some too_short)
        else elim (item_length memory p) [
          | none ↦ fault
          | some cause_length ↦
              at record { current = some p; end = end }
                (if ltb end (p + cause_length) then some partial else none)
        ])

-- The causes of the chunk at offset `chunk`, from `offset` on.
unfoldable pub sctp_causes_begin : List ℕ → ℕ → ℕ → Option Error → Outcome
sctp_causes_begin memory chunk offset (some e) = aborted
sctp_causes_begin memory chunk offset none = elim (item_length memory chunk) [
  | none ↦ fault
  | some chunk_length ↦ get_current_cause memory (chunk + offset) (chunk + chunk_length)
]

unfoldable pub sctp_causes_next : List ℕ → Iterator → Option Error → Outcome
sctp_causes_next memory it (some e) = aborted
sctp_causes_next memory it none = elim it.current [
  | none ↦ fault
  | some p ↦ elim (item_length memory p) [
    | none ↦ fault
    | some cause_length ↦
        if ltb cause_length item_bytes
        then aborted
        else (if ltb it.end (p + cause_length + padding cause_length)
            then get_current_cause memory it.end it.end
            else get_current_cause memory (p + cause_length + padding cause_length) it.end)
  ]
]

-- The loop of the callers, `for (chunk = sctp_chunks_begin(...); chunk != NULL; chunk =
-- sctp_chunks_next(...))`, whose body leaves the loop at an error: the offsets of the chunks.
pub data Loop : Type 0 where
  finished : List ℕ → Loop
  stopped : Error → List ℕ → Loop
  loop_aborted loop_fault stuck : Loop

abbrev pub seen : ℕ → Loop → Loop
seen p (finished ps) = finished (p ∷ ps)
seen p (stopped e ps) = stopped e (p ∷ ps)
seen p loop_aborted = loop_aborted
seen p loop_fault = loop_fault
seen p stuck = stuck

unfoldable pub chunks_loop : List ℕ → ℕ → Outcome → Loop
chunks_loop memory zero aborted = stuck
chunks_loop memory zero fault = stuck
chunks_loop memory zero (at it error) = stuck
chunks_loop memory (suc fuel) aborted = loop_aborted
chunks_loop memory (suc fuel) fault = loop_fault
chunks_loop memory (suc fuel) (at it (some e)) = stopped e []
chunks_loop memory (suc fuel) (at it none) = elim it.current [
  | none ↦ finished []
  | some p ↦ seen p (chunks_loop memory fuel (sctp_chunks_next memory it none))
]
