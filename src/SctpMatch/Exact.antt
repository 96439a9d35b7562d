-- ===== src/SctpMatch/Exact.antt =====
-- A live SCTP packet made of the script's own chunks passes the comparison with the script.
use packetdrill.Base.{ℕ, ◌+◌, ◌≡◌, refl, subst, sym, List, some, arith, min}
use packetdrill.Sctp.{item_length}
use packetdrill.Sctp.Walk.{next_item, rounded}
use packetdrill.SctpMatch.Flags
use packetdrill.SctpMatch.Compare.{Place, bits16, load, load16}
use packetdrill.SctpMatch.Items.{ListItem, ChunkItem}
use packetdrill.SctpMatch.Packet.{
  ChunkType, data_chunk, init_chunk, init_ack_chunk, sack_chunk, heartbeat_chunk,
  heartbeat_ack_chunk, abort_chunk, shutdown_chunk, shutdown_ack_chunk, error_chunk,
  cookie_echo_chunk, cookie_ack_chunk, ecne_chunk, cwr_chunk, shutdown_complete_chunk,
  nr_sack_chunk, i_data_chunk, reconfig_chunk, pad_chunk, forward_tsn_chunk, i_forward_tsn_chunk,
  unsupported_chunk,
}
use packetdrill.SctpMatch.Tiles.{Tiles, no_more, one_more}
use packetdrill.SctpMatch.SpecItems.{
  ParameterMatches, CauseMatches, ParametersMatch, CausesMatch, InitMatches, CausedMatches,
  ReconfigMatches, BodyMatches, ChunkMatches,
}
use packetdrill.SctpMatch.Copies.{
  Copies, Leads, leads, leads_live, load-copy, data_copy, i_data_copy, sack_copy, nr_sack_copy,
  forward_copy, i_forward_copy, blob_copy, parameter_copy, cause_copy,
}

-- The place `k` bytes on.
abbrev behind : Place → ℕ → Place
behind a k = record { memory = a.memory; start = a.start + k }

Copies-behind : (a b : Place) (k : ℕ) → Copies a b → Copies (behind a k) (behind b k)
Copies-behind a b k copy i v e =
    let ea : a.start + k + i ≡ a.start + (k + i) = omega arith in
    let eb : b.start + k + i ≡ b.start + (k + i) = omega arith in
    rw eb (copy (k + i) v (rw (← ea) e))

pub item_length-copy :
    (a b : Place) (k n : ℕ)
    → Copies a b
    → item_length a.memory (a.start + k) ≡ some n
    → item_length b.memory (b.start + k) ≡ some n
unfolding item_length load load16
item_length-copy a b k n copy e =
    load-copy (behind a k) (behind b k) (Copies-behind a b k copy) bits16 2 n e

next_item-shift : (x k n e : ℕ) → x + next_item k n e ≡ next_item (x + k) n (x + e)
next_item-shift x k n e = shift (rounded n)
  where
    shift : (m : ℕ) → x + min e (k + m) ≡ min (x + e) (x + k + m)
    shift m = omega arith

module _ {I : Type 0} (a b : Place) (copy : Copies a b) (P Q : Place → I → Type 0)
    (keep : (x y : Place) → Copies x y → (item : I) → P x item → Q y item) where
  Tiles-copy :
      (e p k : ℕ) (items : List I)
      → p ≡ a.start + k
      → Tiles a.memory (a.start + e) (λ q. P record { memory = a.memory; start = q }) p items
      → Tiles b.memory
          (b.start + e)
          (λ q. Q record { memory = b.memory; start = q })
          (b.start + k)
          items
  Tiles-copy e p k items h (no_more q z) = no_more (b.start + k) (omega arith)
  Tiles-copy e p k items h (one_more q n item rest s h4 inside x t) =
      one_more (b.start + k) n item rest
        (item_length-copy a b k n copy (subst (λ r. item_length a.memory r ≡ some n) h s)) h4
        (omega arith)
        (keep (behind a k) (behind b k) (Copies-behind a b k copy) item
          (subst (λ r. P record { memory = a.memory; start = r } item) h x))
        (subst
          (λ r.
            Tiles b.memory (b.start + e) (λ z. Q record { memory = b.memory; start = z }) r rest)
          (next_item-shift b.start k n e)
          (Tiles-copy e (next_item p n (a.start + e)) (next_item k n e) rest
            (rw h (sym (next_item-shift a.start k n e))) t))

module _ (a b : Place) (copy : Copies a b) where
  parameters_copy :
      (h n : ℕ) (items : List ListItem)
      → Leads
          (ParametersMatch a.memory (a.start + h) (a.start + n) items)
          (ParametersMatch b.memory (b.start + h) (b.start + n) items)
  unfolding Leads
  parameters_copy h n items t =
      Tiles-copy a b copy ParameterMatches ParameterMatches
        (λ x y c item. parameter_copy x y c item) n (a.start + h) h items refl t

  causes_copy :
      (h n : ℕ) (items : List ListItem)
      → Leads
          (CausesMatch a.memory (a.start + h) (a.start + n) items)
          (CausesMatch b.memory (b.start + h) (b.start + n) items)
  unfolding Leads
  causes_copy h n items t =
      Tiles-copy a b copy CauseMatches CauseMatches (λ x y c item. cause_copy x y c item) n
        (a.start + h) h items refl t

  init_copy : (item : ChunkItem) → Leads (InitMatches a item) (InitMatches b item)
  init_copy item = search (leads, leads_live a b copy, parameters_copy) depth 24

  caused_copy :
      (mask : ℕ) (item : ChunkItem) → Leads (CausedMatches mask a item) (CausedMatches mask b item)
  caused_copy mask item = search (leads, leads_live a b copy, causes_copy) depth 16

  reconfig_copy : (item : ChunkItem) → Leads (ReconfigMatches a item) (ReconfigMatches b item)
  reconfig_copy item = search (leads, leads_live a b copy, parameters_copy) depth 16

  body_copy :
      (t : ChunkType) (item : ChunkItem) → Leads (BodyMatches t a item) (BodyMatches t b item)
  body_copy data_chunk item = data_copy a b copy item.chunk item.flags
  body_copy init_chunk item = init_copy item
  body_copy init_ack_chunk item = init_copy item
  body_copy sack_chunk item = sack_copy a b copy item.chunk item.flags
  body_copy nr_sack_chunk item = nr_sack_copy a b copy item.chunk item.flags
  body_copy heartbeat_chunk item = blob_copy a b copy item.chunk item.flags
  body_copy heartbeat_ack_chunk item = blob_copy a b copy item.chunk item.flags
  body_copy abort_chunk item = caused_copy Flags.flag_abort_chunk_opt_causes_nocheck item
  body_copy shutdown_chunk item = search leads depth 8
  body_copy shutdown_ack_chunk item = search leads
  body_copy error_chunk item = caused_copy Flags.flag_error_chunk_opt_causes_nocheck item
  body_copy cookie_echo_chunk item = blob_copy a b copy item.chunk item.flags
  body_copy cookie_ack_chunk item = search leads
  body_copy ecne_chunk item = search leads depth 8
  body_copy cwr_chunk item = search leads depth 8
  body_copy shutdown_complete_chunk item = search leads
  body_copy i_data_chunk item = i_data_copy a b copy item.chunk item.flags
  body_copy pad_chunk item = search leads
  body_copy reconfig_chunk item = reconfig_copy item
  body_copy forward_tsn_chunk item = forward_copy a b copy item.chunk item.flags
  body_copy i_forward_tsn_chunk item = i_forward_copy a b copy item.chunk item.flags
  body_copy unsupported_chunk item = search leads

  pub chunk_copy : (item : ChunkItem) → Leads (ChunkMatches a item) (ChunkMatches b item)
  chunk_copy item = search (leads, leads_live a b copy, body_copy) depth 24
