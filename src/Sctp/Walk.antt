-- ===== src/Sctp/Walk.antt =====
-- The loop over SCTP chunks ends, stays inside the packet, and visits chunks that follow each
-- other with padding to four bytes; the iterators over parameters and causes step likewise.
use packetdrill.Base.{
  ℕ, zero, suc, ◌+◌, ◌-◌, ◌*◌, ◌/◌, ◌≤◌, ◌<◌, ◌≡◌, refl, true, false, List, [], ◌∷◌, Option, none,
  some, ltb, ◌==◌, arith, length, get_elem?-in_range, subst, Bool-cases, inl, inr, min, be16,
}
use packetdrill.Sctp.{
  Error, Iterator, aborted, item_length, item_bytes, padding, partial, too_short, get_current_chunk,
  sctp_chunks_begin, sctp_chunks_next, get_current_parameter, sctp_parameters_next,
  get_current_cause, sctp_causes_next, Loop, finished, stopped, loop_aborted, seen, chunks_loop,
}

-- A length rounded up to a multiple of four.
abbrev pub rounded : ℕ → ℕ
rounded n = (n + 3) / 4 * 4

pub padding-rounded : (n : ℕ) → n + padding n ≡ rounded n
padding-rounded n = ground arith

-- Where the item after one of `n` bytes at `p` starts.
abbrev pub next_item : ℕ → ℕ → ℕ → ℕ
next_item p n end = min end (p + rounded n)

-- From `p` on, the items at the offsets `ps` lie in the memory up to `end`, each at the first multiple
-- of four bytes behind the one before it or at the end; `q` is where the next one starts.
pub data Trail (memory : List ℕ) (end q : ℕ) : ℕ → List ℕ → Type 0 where
  here : Trail memory end q q []
  next :
      (p n : ℕ) (ps : List ℕ)
      → item_length memory p ≡ some n
      → 4 ≤ n
      → p + n ≤ end
      → Trail memory end q (next_item p n end) ps
      → Trail memory end q p (p ∷ ps)

-- What is wrong with the item at `q`: its header, or the item, is not whole.
pub data IsBroken (memory : List ℕ) (end q : ℕ) : Error → Type 0 where
  no_header : q < end → end < q + 4 → IsBroken memory end q too_short
  no_body :
      (n : ℕ)
      → q + 4 ≤ end
      → item_length memory q ≡ some n
      → end < q + n
      → IsBroken memory end q partial

-- How the loop may end.
pub data Ends (memory : List ℕ) (p end : ℕ) : Loop → Type 0 where
  finishes : (ps : List ℕ) → Trail memory end end p ps → Ends memory p end (finished ps)
  stops :
      (e : Error) (q : ℕ) (ps : List ℕ)
      → Trail memory end q p ps
      → IsBroken memory end q e
      → Ends memory p end (stopped e ps)
  aborts :
      (q n : ℕ) (ps : List ℕ)
      → Trail memory end q p ps
      → q + 4 ≤ end
      → item_length memory q ≡ some n
      → n < 4
      → Ends memory p end loop_aborted

pub item_length-in_range :
    (memory : List ℕ) (p : ℕ) → p + 4 ≤ length memory → (n : ℕ) × (item_length memory p ≡ some n)
unfolding item_length
item_length-in_range memory p h =
    let (a, ea) = get_elem?-in_range memory (p + 2) (omega arith) in
    let (b, eb) = get_elem?-in_range memory (p + 3) (omega arith) in (be16 a b, rw (ea, eb) refl)

Ends-seen :
    (memory : List ℕ) (p n end : ℕ) (l : Loop)
    → item_length memory p ≡ some n
    → 4 ≤ n
    → p + n ≤ end
    → Ends memory (next_item p n end) end l
    → Ends memory p end (seen p l)
Ends-seen memory p n end l e h4 h (finishes ps c) = finishes (p ∷ ps) (next p n ps e h4 h c)
Ends-seen memory p n end l e h4 h (stops err q ps c b) =
    stops err q (p ∷ ps) (next p n ps e h4 h c) b
Ends-seen memory p n end l e h4 h (aborts q m ps c hm eq hl) =
    aborts q m (p ∷ ps) (next p n ps e h4 h c) hm eq hl

pub next_chunk :
    (memory : List ℕ) (p n end : ℕ)
    → item_length memory p ≡ some n
    → 4 ≤ n
    → sctp_chunks_next memory record { current = some p; end = end } none
      ≡ get_current_chunk memory (next_item p n end) end
unfolding sctp_chunks_next
next_chunk memory p n end e h =
    let sized : ltb n item_bytes ≡ false = ground arith in
    let same : p + n + padding n ≡ p + rounded n = omega (arith, padding-rounded n) in
    rw (sctp_chunks_next, e, sized, same)
      (elim (Bool-cases (ltb end (p + rounded n))) [
        | inl over ↦ let m : min end (p + rounded n) ≡ end = ground arith in rw (over, m) refl
        | inr fits ↦
            let m : min end (p + rounded n) ≡ p + rounded n = ground arith in rw (fits, m) refl
      ])

pub tiny_chunk :
    (memory : List ℕ) (p n end : ℕ)
    → item_length memory p ≡ some n
    → n < 4
    → sctp_chunks_next memory record { current = some p; end = end } none ≡ aborted
unfolding sctp_chunks_next
tiny_chunk memory p n end e h =
    let sized : ltb n item_bytes ≡ true = ground arith in rw (sctp_chunks_next, e, sized) refl

chunks_loop-aborted :
    (fuel : ℕ) (memory : List ℕ) → 0 < fuel → chunks_loop memory fuel aborted ≡ loop_aborted
unfolding chunks_loop
chunks_loop-aborted zero memory h = absurd (omega arith)
chunks_loop-aborted (suc fuel) memory h = refl

loop-Ends :
    (fuel : ℕ) (memory : List ℕ) (p end : ℕ)
    → end ≤ length memory
    → p ≤ end
    → end - p < fuel
    → Ends memory p end (chunks_loop memory fuel (get_current_chunk memory p end))
unfolding chunks_loop get_current_chunk
loop-Ends zero memory p end hm hp hf = absurd (omega arith)
loop-Ends (suc fuel) memory p end hm hp hf = elim (Bool-cases (p == end)) [
  | inl done ↦
      rw done (subst (λ q. Ends memory q end (finished [])) (ground arith) (finishes [] here))
  | inr more ↦ rw more (elim (Bool-cases (ltb end (p + item_bytes))) [
    | inl short ↦ rw short (stops too_short p [] here (no_header (ground arith) (ground arith)))
    | inr fits ↦ rw fits (
        let (n, e) = item_length-in_range memory p (ground arith) in
        rw e (elim (Bool-cases (ltb end (p + n))) [
          | inl beyond ↦
              rw beyond (stops partial p [] here (no_body n (ground arith) e (ground arith)))
          | inr inside ↦ rw inside (elim (Bool-cases (ltb n item_bytes)) [
            | inl tiny ↦ rw (tiny_chunk memory p n end e (ground arith)) (
                rw (chunks_loop-aborted fuel memory (ground arith))
                  (aborts p n [] here (ground arith) e (ground arith)))
            | inr big ↦ rw (next_chunk memory p n end e (ground arith)) (
                Ends-seen memory p n end
                  (chunks_loop memory fuel (get_current_chunk memory (next_item p n end) end)) e
                  (ground arith) (ground arith)
                  (loop-Ends fuel memory (next_item p n end) end hm (omega arith) (ground arith)))
          ])
        ]))
  ])
]

-- If the memory holds the packet and the fuel is more than the bytes of its payload, the loop
-- over the chunks reads nothing outside the memory and does not lack fuel. The chunks that it has
-- visited stand one behind the other, each length rounded up to four bytes, and end with the payload
-- if the loop finishes. If it stops at an error, the item behind them is not whole; if it is
-- aborted, the length field of the one behind them is less than the four bytes of its header.
pub chunks_loop-Ends :
    (memory : List ℕ) (payload packet_end fuel : ℕ)
    → packet_end ≤ length memory
    → payload ≤ packet_end
    → packet_end - payload < fuel
    → Ends memory payload packet_end
        (chunks_loop memory fuel (sctp_chunks_begin memory payload packet_end none))
unfolding sctp_chunks_begin
chunks_loop-Ends memory payload packet_end fuel hm hp hf =
    loop-Ends fuel memory payload packet_end hm hp hf

-- The iterators over parameters and over error causes step from item to item as the one over
-- chunks does.
pub iterators_agree :
    (memory : List ℕ) (it : Iterator) (error : Option Error)
    → (sctp_parameters_next memory it error ≡ sctp_chunks_next memory it error)
      × (sctp_causes_next memory it error ≡ sctp_chunks_next memory it error)
unfolding sctp_chunks_next sctp_parameters_next sctp_causes_next get_current_chunk
    get_current_parameter get_current_cause
iterators_agree memory it none = (refl, refl)
iterators_agree memory it (some e) = (refl, refl)

-- A chunk whose header lies in the packet, but whose length field is less than the four bytes of
-- the header, is taken without error, and the step behind it aborts the program.
pub short_chunk-aborts :
    (memory : List ℕ) (p n end fuel : ℕ)
    → item_length memory p ≡ some n
    → n < 4
    → p + 4 ≤ end
    → chunks_loop memory (suc (suc fuel)) (get_current_chunk memory p end) ≡ loop_aborted
unfolding chunks_loop get_current_chunk
short_chunk-aborts memory p n end fuel e h inside =
    let more : (p == end) ≡ false = ground arith in
    let fits : ltb end (p + item_bytes) ≡ false = ground arith in
    let whole : ltb end (p + n) ≡ false = ground arith in
    rw (more, fits, e, whole, tiny_chunk memory p n end e h) refl
