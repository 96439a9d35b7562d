-- ===== src/SctpMatch/Own.antt =====
-- A live SCTP packet that holds the script's own chunks, one behind the other, passes `verify_sctp`
-- of gtests/net/packetdrill/run_packet.c.
use packetdrill.Base.{
  ℕ, zero, suc, ◌+◌, ◌≤◌, ◌≡◌, refl, subst, List, [], ◌∷◌, ◌++◌, some, length, arith, min, IsByte,
  All, get_elem?, length-append, All-append,
}
use packetdrill.Sctp.{item_length}
use packetdrill.Sctp.Walk.{next_item, rounded}
use packetdrill.SctpMatch.Compare.{passed}
use packetdrill.SctpMatch.Items.{ChunkItem}
use packetdrill.SctpMatch.Packet.{verify_chunk, verify_sctp}
use packetdrill.SctpMatch.Tiles.{Tiles, no_more, one_more}
use packetdrill.SctpMatch.SpecItems.{ChunkMatches}
use packetdrill.SctpMatch.MatchesPacket.{chunk_iff, item_length-small, verify_sctp_iff}
use packetdrill.SctpMatch.Copies.{Leads}
use packetdrill.SctpMatch.Exact.{chunk_copy, item_length-copy}

-- A block of bytes with a header that gives its length, padded to four bytes, which passes the
-- comparison with itself.
abbrev pub IsOwn : ChunkItem → Type 0
IsOwn item =
    (n : ℕ) × (item.chunk.start ≡ 0)
    × (item_length item.chunk.memory 0 ≡ some n)
    × (4 ≤ n)
    × (length item.chunk.memory ≡ rounded n)
    × All IsByte item.chunk.memory
    × (verify_chunk item.chunk item ≡ passed)

-- The blocks one behind the other.
unfoldable pub chunks_bytes : List ChunkItem → List ℕ
chunks_bytes [] = []
chunks_bytes (item ∷ items) = item.chunk.memory ++ chunks_bytes items

get_elem?-left :
    (xs ys : List ℕ) (i v : ℕ) → get_elem? xs i ≡ some v → get_elem? (xs ++ ys) i ≡ some v
get_elem?-left [] ys i v e = absurd (cc e)
get_elem?-left (x ∷ xs) ys zero v e = e
get_elem?-left (x ∷ xs) ys (suc i) v e = get_elem?-left xs ys i v e

get_elem?-right : (xs ys : List ℕ) (i : ℕ) → get_elem? (xs ++ ys) (length xs + i) ≡ get_elem? ys i
get_elem?-right [] ys i = let e : 0 + i ≡ i = omega arith in rw e refl
get_elem?-right (x ∷ xs) ys i =
    let e : suc (length xs) + i ≡ suc (length xs + i) = omega arith in
    rw e (get_elem?-right xs ys i)

module _ (memory : List ℕ) where
  -- The bytes are in the memory from `p` on.
  abbrev Holds : ℕ → List ℕ → Type 0
  Holds p bytes = (i v : ℕ) → get_elem? bytes i ≡ some v → get_elem? memory (p + i) ≡ some v

  unmoved :
      (m : List ℕ) (s : ℕ)
      → s ≡ 0
      → (i v : ℕ) → get_elem? m (s + i) ≡ some v
      → get_elem? m i ≡ some v
  unmoved m s h i v e =
      let same : s + i ≡ i = omega arith in subst (λ k. get_elem? m k ≡ some v) same e

  own_matches :
      (p : ℕ) (item : ChunkItem)
      → IsOwn item
      → Holds p item.chunk.memory
      → ChunkMatches record { memory = memory; start = p } item
  unfolding Leads
  own_matches p item (n, start, sized, h4, len, bytes, self) holds =
      chunk_copy item.chunk record { memory = memory; start = p }
        (λ i v e. holds i v (unmoved item.chunk.memory item.chunk.start start i v e)) item
        ((chunk_iff item.chunk.memory item.chunk.start n (rw start sized) h4 (omega arith)
            (item_length-small item.chunk.memory 0 n bytes sized) item).0
          self)

  own_length :
      (p : ℕ) (item : ChunkItem) (n : ℕ)
      → item.chunk.start ≡ 0
      → item_length item.chunk.memory 0 ≡ some n
      → Holds p item.chunk.memory
      → item_length memory p ≡ some n
  own_length p item n start sized holds =
      let zero_there : item.chunk.start + 0 ≡ 0 = omega arith in
      let zero_here : p + 0 ≡ p = omega arith in
      subst (λ q. item_length memory q ≡ some n) zero_here
        (item_length-copy item.chunk record { memory = memory; start = p } 0 n
          (λ i v e. holds i v (unmoved item.chunk.memory item.chunk.start start i v e))
          (rw zero_there sized))

  next_item-fits : (p n l r t : ℕ) → l ≡ rounded n → t ≡ l + r → next_item p n (p + t) ≡ p + l
  next_item-fits p n l r t = fits (rounded n)
    where
      fits : (k : ℕ) → l ≡ k → t ≡ l + r → min (p + t) (p + k) ≡ p + l
      fits k h e = omega arith

  own-Tiles :
      (items : List ChunkItem) (p : ℕ)
      → All IsOwn items
      → Holds p (chunks_bytes items)
      → Tiles memory
          (p + length (chunks_bytes items))
          (λ q. ChunkMatches record { memory = memory; start = q })
          p
          items
  unfolding chunks_bytes
  own-Tiles [] p h holds = no_more p (omega arith)
  own-Tiles (item ∷ items) p (own, h) holds =
      let (n, start, sized, h4, len, bytes, self) = own in
      let m = item.chunk.memory in
      let rest = chunks_bytes items in
      let total : length (m ++ rest) ≡ length m + length rest = length-append m rest in
      let here : Holds p m = λ i v e. holds i v (get_elem?-left m rest i v e) in
      let at_end : next_item p n (p + length (m ++ rest)) ≡ p + length m =
        next_item-fits p n (length m) (length rest) (length (m ++ rest)) len total in
      let same_end : p + length m + length rest ≡ p + length (m ++ rest) = omega arith in
      one_more p n item items (own_length p item n start sized here) h4 (omega arith)
        (own_matches p item own here)
        (subst
          (λ q.
            Tiles memory q (λ z. ChunkMatches record { memory = memory; start = z })
              (next_item p n (p + length (m ++ rest))) items)
          same_end
          (rw at_end (
            own-Tiles items (p + length m) h (λ i v e.
              let shift : p + length m + i ≡ p + (length m + i) = omega arith in
              rw shift (holds (length m + i) v (rw (get_elem?-right m rest i) e))))))

own_bytes : (items : List ChunkItem) → All IsOwn items → All IsByte (chunks_bytes items)
unfolding chunks_bytes
own_bytes [] h = tt
own_bytes (item ∷ items) ((n, start, sized, h4, len, bytes, self), h) =
    All-append IsByte item.chunk.memory (chunks_bytes items) bytes (own_bytes items h)

-- A packet that consists of the script's own chunks, one behind the other, passes, whatever
-- wildcards the script has, if each chunk is a padded block of bytes that begins with its header
-- and would pass the comparison with itself.
pub verify_sctp_own :
    (front : List ℕ) (items : List ChunkItem)
    → All IsByte front
    → All IsOwn items
    → verify_sctp
        (front ++ chunks_bytes items)
        (length front)
        (length front + length (chunks_bytes items))
        items
      ≡ passed
verify_sctp_own front items hf h =
    let total = length-append front (chunks_bytes items) in
    (verify_sctp_iff (front ++ chunks_bytes items) (length front)
        (length front + length (chunks_bytes items)) items
        (All-append IsByte front (chunks_bytes items) hf (own_bytes items h)) (omega arith)
        (omega arith)).1
      (own-Tiles (front ++ chunks_bytes items) items (length front) h
        (λ i v e. rw (get_elem?-right front (chunks_bytes items) i) e))
