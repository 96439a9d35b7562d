-- ===== src/Tests/Chunks.antt =====
-- The iterators over SCTP chunks on a concrete payload: a chunk of five bytes with three of
-- padding, and one of four.
use packetdrill.Base.{ℕ, ◌≡◌, refl, List, [], ◌∷◌, some, none, arith}
use packetdrill.Sctp.{
  chunks_loop, sctp_chunks_begin, sctp_chunks_next, finished, item_length, loop_aborted,
  get_current_chunk,
}
use packetdrill.Sctp.Walk.{Ends, chunks_loop-Ends, short_chunk-aborts}

abbrev two_chunks : List ℕ
two_chunks = 10 ∷ 0 ∷ 0 ∷ 5 ∷ 170 ∷ 0 ∷ 0 ∷ 0 ∷ 11 ∷ 0 ∷ 0 ∷ 4 ∷ []

walked : chunks_loop two_chunks 13 (sctp_chunks_begin two_chunks 0 12 none) ≡ finished (0 ∷ 8 ∷ [])
unfolding chunks_loop sctp_chunks_begin sctp_chunks_next item_length get_current_chunk
walked = refl

-- A chunk whose length field is 0.
abbrev empty_chunk : List ℕ
empty_chunk = 10 ∷ 0 ∷ 0 ∷ 0 ∷ []

empty_chunk_length : item_length empty_chunk 0 ≡ some 0
unfolding item_length
empty_chunk_length = refl

short_chunk-aborts_example :
    chunks_loop empty_chunk 5 (get_current_chunk empty_chunk 0 4) ≡ loop_aborted
short_chunk-aborts_example =
    short_chunk-aborts empty_chunk 0 0 4 3 empty_chunk_length (omega arith) (omega arith)

chunks_loop-Ends_example :
    Ends two_chunks 0 12 (chunks_loop two_chunks 13 (sctp_chunks_begin two_chunks 0 12 none))
chunks_loop-Ends_example =
    chunks_loop-Ends two_chunks 0 12 13 (omega arith) (omega arith) (omega arith)
