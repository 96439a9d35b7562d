-- ===== src/SctpMatch/MatchesPacket.antt =====
-- `verify_sctp` of gtests/net/packetdrill/run_packet.c passes exactly the packets whose chunks
-- correspond to the script's.
use packetdrill.Base.{
  ℕ, ◌+◌, ◌-◌, ◌^◌, ◌≤◌, ◌<◌, ◌≡◌, ◌↔◌, refl, subst, sym, Bool, true, false, List, Option, none,
  some, length, arith, u16, be16, All, IsByte, get_elem?, All-get_elem?,
}
use packetdrill.Sctp.{item_length, both, sctp_chunks_begin}
use packetdrill.SctpMatch.Flags
use packetdrill.SctpMatch.Compare.{
  Place, CheckResult, passed, ◌>>>◌, assert, with_field, load, load16, bits16,
}
use packetdrill.SctpMatch.Items.{ListItem, ChunkItem}
use packetdrill.SctpMatch.Fixed.{
  verify_shutdown_ack_chunk, verify_cookie_ack_chunk, verify_shutdown_complete_chunk,
  verify_pad_chunk,
}
use packetdrill.SctpMatch.Packet.{
  ChunkType, data_chunk, init_chunk, init_ack_chunk, sack_chunk, heartbeat_chunk,
  heartbeat_ack_chunk, abort_chunk, shutdown_chunk, shutdown_ack_chunk, error_chunk,
  cookie_echo_chunk, cookie_ack_chunk, ecne_chunk, cwr_chunk, shutdown_complete_chunk,
  nr_sack_chunk, i_data_chunk, reconfig_chunk, pad_chunk, forward_tsn_chunk, i_forward_tsn_chunk,
  unsupported_chunk, verify_init_chunk, verify_init_ack_chunk, verify_abort_chunk,
  verify_error_chunk, verify_reconfig_chunk, verify_chunk_by_type, verify_chunk, verify_sctp,
}
use packetdrill.SctpMatch.Parameters.{verify_sctp_parameters, verify_sctp_causes}
use packetdrill.SctpMatch.Laws.{
  passed_iff, then_iff, unless_iff, compare_field_iff, assert_iff, ◌and◌,
}
use packetdrill.SctpMatch.Matches.{
  checks, verify_data_chunk_iff, verify_i_data_chunk_iff, verify_sack_chunk_iff,
  verify_nr_sack_chunk_iff, verify_forward_tsn_chunk_iff, verify_i_forward_tsn_chunk_iff, blobs_iff,
  verify_shutdown_chunk_iff, verify_ecne_chunk_iff, verify_cwr_chunk_iff,
}
use packetdrill.SctpMatch.MatchesItems.{verify_sctp_parameters_iff, verify_sctp_causes_iff}
use packetdrill.SctpMatch.Tiles.{Tiles, compare_items_iff}
use packetdrill.SctpMatch.SpecItems.{
  ParametersMatch, CausesMatch, InitMatches, CausedMatches, ReconfigMatches, BodyMatches,
  ChunkMatches,
}

-- The check of a field whose value is known.
known_field_iff :
    (o : Option ℕ) (n : ℕ) (k : ℕ → CheckResult) {P : ℕ → Type 0}
    → o ≡ some n
    → ((k n ≡ passed) ↔ P n)
    → (with_field o k ≡ passed) ↔ ((v : ℕ) × (o ≡ some v) × P v)
known_field_iff none n k e p = absurd (cc e)
known_field_iff (some w) n k {P = P} e p =
    let same : w ≡ n = cc e in
    (
      λ h. (n, e, p.0 (subst (λ q. k q ≡ passed) same h)),
      λ (v, x, y).
          let back : v ≡ n = cc x in subst (λ q. k q ≡ passed) (sym same) (p.1 (subst P back y)),
    )

-- What follows an assertion is only run if it holds.
guarded_iff :
    (c : Bool) (b : CheckResult) {Q : Type 0}
    → (c ≡ true → (b ≡ passed) ↔ Q)
    → ((assert c >>> b) ≡ passed) ↔ ((c ≡ true) and Q)
guarded_iff true b q = (λ e. (refl, (q refl).0 e), λ (x, y). (q refl).1 y)
guarded_iff false b q = (λ e. absurd (cc e), λ (x, y). absurd (cc x))

module _ (memory : List ℕ) (p n : ℕ) (sized : item_length memory p ≡ some n) (h4 : 4 ≤ n)
    (inside : p + n ≤ length memory) where
  abbrev live : Place
  live = record { memory = memory; start = p }

  live_length : load bits16 live 2 ≡ some n
  unfolding load load16 item_length
  live_length = sized

  tail_parameters_iff :
      (items : List ListItem) (header m : ℕ)
      → m + header ≡ n
      → (verify_sctp_parameters memory (p + header) m items ≡ passed)
        ↔ ParametersMatch memory (p + header) (p + n) items
  tail_parameters_iff items header m h =
      let e : p + header + m ≡ p + n = omega arith in
      subst
        (λ q.
          (verify_sctp_parameters memory (p + header) m items ≡ passed)
          ↔ ParametersMatch memory (p + header) q items)
        e (verify_sctp_parameters_iff memory (p + header) m items (omega arith))

  tail_causes_iff :
      (items : List ListItem)
      → (verify_sctp_causes memory p 4 items ≡ passed) ↔ CausesMatch memory (p + 4) (p + n) items
  tail_causes_iff items = verify_sctp_causes_iff memory p n items sized h4 inside

  init_iff :
      (item : ChunkItem)
      → ((verify_init_chunk live item ≡ passed) ↔ InitMatches live item)
        × ((verify_init_ack_chunk live item ≡ passed) ↔ InitMatches live item)
  unfolding verify_init_chunk verify_init_ack_chunk
  init_iff item = (
    known_field_iff _ n _ live_length (
        guarded_iff _ _ (λ c.
          let tail = tail_parameters_iff item.parameter_list 20 (n - 20) (ground arith) in
          search (checks, tail) depth 24)),
    known_field_iff _ n _ live_length (
        guarded_iff _ _ (λ c.
          let tail = tail_parameters_iff item.parameter_list 20 (n - 20) (ground arith) in
          search (checks, tail) depth 24)),
  )

  abort_iff :
      (item : ChunkItem)
      → (verify_abort_chunk live item ≡ passed)
        ↔ CausedMatches Flags.flag_abort_chunk_opt_causes_nocheck live item
  unfolding verify_abort_chunk
  abort_iff item =
      known_field_iff _ n _ live_length
        (then_iff _ _ (assert_iff _) (unless_iff _ _ (tail_causes_iff item.cause_list)))

  error_iff :
      (item : ChunkItem)
      → (verify_error_chunk live item ≡ passed)
        ↔ CausedMatches Flags.flag_error_chunk_opt_causes_nocheck live item
  unfolding verify_error_chunk
  error_iff item =
      known_field_iff _ n _ live_length
        (then_iff _ _ (assert_iff _) (unless_iff _ _ (tail_causes_iff item.cause_list)))

  reconfig_iff :
      n < 65536
      → (item : ChunkItem)
      → (verify_reconfig_chunk live item item.flags ≡ passed) ↔ ReconfigMatches live item
  unfolding verify_reconfig_chunk
  reconfig_iff small item = known_field_iff _ n _ live_length (
      then_iff _ _ (unless_iff _ _ (compare_field_iff _ _ _ _ _ _))
        (tail_parameters_iff item.parameter_list 4 (u16 (n + 2 ^ 16 - 4)) (omega arith)))

  body_iff :
      n < 65536
      → (t : ChunkType) (item : ChunkItem)
      → (verify_chunk_by_type t live item ≡ passed) ↔ BodyMatches t live item
  unfolding verify_chunk_by_type verify_shutdown_ack_chunk verify_cookie_ack_chunk
      verify_shutdown_complete_chunk verify_pad_chunk
  body_iff small data_chunk item = verify_data_chunk_iff live item.chunk item.flags
  body_iff small init_chunk item = (init_iff item).0
  body_iff small init_ack_chunk item = (init_iff item).1
  body_iff small sack_chunk item = verify_sack_chunk_iff live item.chunk item.flags
  body_iff small nr_sack_chunk item = verify_nr_sack_chunk_iff live item.chunk item.flags
  body_iff small heartbeat_chunk item = (blobs_iff live item.chunk item.flags).0
  body_iff small heartbeat_ack_chunk item = (blobs_iff live item.chunk item.flags).1
  body_iff small abort_chunk item = abort_iff item
  body_iff small shutdown_chunk item = verify_shutdown_chunk_iff live item.chunk item.flags
  body_iff small shutdown_ack_chunk item = passed_iff
  body_iff small error_chunk item = error_iff item
  body_iff small cookie_echo_chunk item = (blobs_iff live item.chunk item.flags).2
  body_iff small cookie_ack_chunk item = passed_iff
  body_iff small ecne_chunk item = verify_ecne_chunk_iff live item.chunk item.flags
  body_iff small cwr_chunk item = verify_cwr_chunk_iff live item.chunk item.flags
  body_iff small shutdown_complete_chunk item = passed_iff
  body_iff small i_data_chunk item = verify_i_data_chunk_iff live item.chunk item.flags
  body_iff small pad_chunk item = passed_iff
  body_iff small reconfig_chunk item = reconfig_iff small item
  body_iff small forward_tsn_chunk item = verify_forward_tsn_chunk_iff live item.chunk item.flags
  body_iff small i_forward_tsn_chunk item =
      verify_i_forward_tsn_chunk_iff live item.chunk item.flags
  body_iff small unsupported_chunk item = (λ e. cc e, λ x. absurd x)

  pub chunk_iff :
      n < 65536 → (item : ChunkItem) → (verify_chunk live item ≡ passed) ↔ ChunkMatches live item
  unfolding verify_chunk
  chunk_iff small item = let body = body_iff small in search (checks, body) depth 16

pub item_length-small :
    (memory : List ℕ) (p n : ℕ) → All IsByte memory → item_length memory p ≡ some n → n < 65536
unfolding item_length
item_length-small memory p n bytes e =
    both-small (get_elem? memory (p + 2)) (get_elem? memory (p + 3)) n
      (λ v h. All-get_elem? IsByte memory (p + 2) v bytes h)
      (λ v h. All-get_elem? IsByte memory (p + 3) v bytes h) e
  where
    both-small :
        (x y : Option ℕ) (n : ℕ)
        → ((v : ℕ) → x ≡ some v → v < 256)
        → ((v : ℕ) → y ≡ some v → v < 256)
        → both x y ≡ some n
        → n < 65536
    both-small none y n hx hy e = absurd (cc e)
    both-small (some a) none n hx hy e = absurd (cc e)
    both-small (some a) (some b) n hx hy e =
        let ha = hx a refl in let hb = hy b refl in let en : be16 a b ≡ n = cc e in omega arith

-- `verify_sctp` passes exactly if the chunks of the live packet correspond to the script's one for
-- one, each matching in type, flags, length and contents but for the script's wildcards, with their
-- parameters and error causes. The packet lies in a memory of bytes.
pub verify_sctp_iff :
    (memory : List ℕ) (payload packet_end : ℕ) (chunk_list : List ChunkItem)
    → All IsByte memory
    → packet_end ≤ length memory
    → payload ≤ packet_end
    → (verify_sctp memory payload packet_end chunk_list ≡ passed)
      ↔ Tiles memory packet_end
          (λ p. ChunkMatches record { memory = memory; start = p })
          payload
          chunk_list
unfolding verify_sctp sctp_chunks_begin
verify_sctp_iff memory payload packet_end chunk_list bytes hm hp =
    compare_items_iff memory packet_end _ _
      (λ p n item e h4 h.
        chunk_iff memory p n e h4 (omega arith) (item_length-small memory p n bytes e) item)
      _ _ payload chunk_list hm hp
