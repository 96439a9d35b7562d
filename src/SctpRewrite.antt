-- ===== src/SctpRewrite.antt =====
-- The rewriting of SCTP packets between the script's transmission sequence numbers and tags and the
-- live ones, in gtests/net/packetdrill/run_packet.c: the changes of fields in the memory that holds
-- a packet, and the loops over chunks and parameters that make them.
pub mod Inbound
pub mod Outbound
pub mod Layout
pub mod Edits
pub mod Chunks
pub mod Fields
pub mod Whole
pub mod Numbers
pub mod InboundChunk
pub mod OutboundChunk
pub mod ToLive
pub mod ToScript
pub mod Faults
use packetdrill.Base.{
  ℕ, zero, suc, ◌+◌, ◌-◌, ◌^◌, Bool, List, Option, none, some, ◌==◌, if◌then◌else◌, get_elem?,
  memcpy, u32, be32_bytes,
}
use packetdrill.Sctp.{Error, Iterator, Outcome, at, aborted, fault, both}
use packetdrill.SctpMatch.Compare.{both32}

-- How a rewriting ends: `failed` is STATUS_ERR, `assertion_failed` a failed assertion, `bad_access`
-- a read or a write outside the memory, and `stuck` that the model has run out of fuel.
pub data Rewrite (A : Type 0) : Type 0 where
  done : A → Rewrite A
  failed assertion_failed bad_access stuck : Rewrite A

infixl 5 ◌>>=◌
abbrev pub ◌>>=◌ : {A B : Type 0} → Rewrite A → (A → Rewrite B) → Rewrite B
done a >>= f = f a
failed >>= f = failed
assertion_failed >>= f = assertion_failed
bad_access >>= f = bad_access
stuck >>= f = stuck

abbrev pub access : {A : Type 0} → Option A → Rewrite A
access none = bad_access
access (some a) = done a

-- A change of the memory.
abbrev pub Edit : Type 0
Edit = List ℕ → Rewrite (List ℕ)

abbrev pub when : Bool → Edit → Edit
when test edit memory = if test then edit memory else done memory

-- `ntohs` and `ntohl` of the field at offset `p`.
unfoldable pub half : List ℕ → ℕ → Option ℕ
half memory p = both (get_elem? memory p) (get_elem? memory (p + 1))

unfoldable pub word : List ℕ → ℕ → Option ℕ
unfolding half
word memory p = both32 (half memory p) (half memory (p + 2))

-- `x = htonl(ntohl(x) + diff)` for the field `x` at offset `p`.
unfoldable pub translate : ℕ → ℕ → Edit
translate p diff memory =
    access (word memory p) >>= λ v. done (memcpy memory p (be32_bytes (u32 (v + diff))))

-- `if (ntohl(x) == from) x = htonl(to);`.
unfoldable pub replace_tag : ℕ → ℕ → ℕ → Edit
replace_tag p from to memory =
    access (word memory p) >>= λ v. when (v == from) (λ m. done (memcpy m p (be32_bytes to))) memory

-- `n` fields one behind the other.
unfoldable pub translate_each : ℕ → ℕ → ℕ → Edit
translate_each zero p diff memory = done memory
translate_each (suc n) p diff memory =
    translate p diff memory >>= λ memory'. translate_each n (p + 4) diff memory'

-- The difference of two numbers of 32 bits.
abbrev pub difference : ℕ → ℕ → ℕ
difference a b = u32 (a + 2 ^ 32 - b)

-- `for (item = begin(...); item != NULL; item = next(...)) { if (*error != NULL) ...; body }`, with
-- what the body keeps beside the memory.
module _ {F : Type 0} (next : List ℕ → Iterator → Option Error → Outcome)
    (on_error : List ℕ → F → Rewrite (List ℕ × F))
    (body : ℕ → List ℕ → F → Rewrite (List ℕ × F)) where
  unfoldable pub items_loop : ℕ → Outcome → List ℕ → F → Rewrite (List ℕ × F)
  items_loop zero outcome memory kept = stuck
  items_loop (suc fuel) aborted memory kept = assertion_failed
  items_loop (suc fuel) fault memory kept = bad_access
  items_loop (suc fuel) (at it (some e)) memory kept = elim it.current [
    | none ↦ done (memory, kept)
    | some p ↦ on_error memory kept
  ]
  items_loop (suc fuel) (at it none) memory kept = elim it.current [
    | none ↦ done (memory, kept)
    | some p ↦ body p memory kept >>= λ (memory', kept').
        items_loop fuel (next memory' it none) memory' kept'
  ]
