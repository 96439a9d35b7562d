-- ===== src/SctpMatch/Items.antt =====
-- The items of a scripted SCTP packet, and the loop that the comparisons of chunks, of parameters
-- and of error causes in gtests/net/packetdrill/run_packet.c share: an iterator over the live
-- packet and a pointer into the script's list move on together.
use packetdrill.Base.{ℕ, List, [], ◌∷◌, Option, none, some}
use packetdrill.Sctp.{Error, Iterator, Outcome, at, aborted, fault}
use packetdrill.SctpMatch.Compare.{
  Place, CheckResult, passed, rejected, assertion_failed, bad_read, Message, ◌>>>◌,
}

-- `struct sctp_parameter_list_item` and `struct sctp_cause_list_item`: where the parameter or the
-- cause is, which is inside the chunk, and its wildcards.
pub record ListItem : Type 0 where
  pub place : Place
  pub flags : ℕ

-- `struct sctp_chunk_list_item`.
pub record ChunkItem : Type 0 where
  pub chunk : Place
  pub parameter_list : List ListItem
  pub cause_list : List ListItem
  pub flags : ℕ

-- `step` moves the iterator on, and `body` compares the live item at an offset with the script's.
unfoldable pub compare_items {ℓ} :
    {I : Type ℓ}
    → (Iterator → Option Error → Outcome)
    → (ℕ → I → CheckResult)
    → Message
    → Message
    → Outcome
    → List I
    → CheckResult
compare_items step body partial_item number_of_items aborted items = assertion_failed
compare_items step body partial_item number_of_items fault items = bad_read
compare_items step body partial_item number_of_items (at it error) [] = elim it.current [
  | none ↦ passed
  | some p ↦ rejected number_of_items
]
compare_items step body partial_item number_of_items (at it error) (item ∷ items) =
    elim it.current [
      | none ↦ rejected number_of_items
      | some p ↦ elim error [
        | some e ↦ rejected partial_item
        | none ↦
            body p item
            >>> compare_items step body partial_item number_of_items (step it none) items
      ]
    ]
