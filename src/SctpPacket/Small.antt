-- ===== src/SctpPacket/Small.antt =====
-- Which live chunks pass the comparison with what the constructors of small chunks of
-- gtests/net/packetdrill/sctp_packet.c build.
use packetdrill.Base.{
  ℕ, ◌+◌, ◌<◌, ◌≤◌, ◌≡◌, ◌↔◌, refl, ap, false, List, some, length, arith, ◌==◌, bit_or, [], u8, u32,
}
use packetdrill.Sctp.{item_length}
use packetdrill.SctpMatch.Compare.{Place, bits8, bits16, bits32, load, load16, passed}
use packetdrill.SctpMatch.Items.{ChunkItem}
use packetdrill.SctpMatch.Laws.{◌and◌}
use packetdrill.SctpMatch.Packet.{chunk_type, verify_chunk}
use packetdrill.SctpMatch.Spec.{Wanted, Same}
use packetdrill.SctpMatch.SpecItems.{BodyMatches}
use packetdrill.SctpPacket.{minus_one, mark, wild32, flags_byte, chunk_item}
use packetdrill.SctpPacket.Fixed.{
  sctp_shutdown_chunk_new, sctp_shutdown_ack_chunk_new, sctp_cookie_ack_chunk_new,
  sctp_ecne_chunk_new, sctp_cwr_chunk_new, sctp_shutdown_complete_chunk_new,
}
use packetdrill.SctpMatch.Own.{IsOwn}
use packetdrill.SctpPacket.Own.{small_chunks-IsOwn}
use packetdrill.SctpPacket.Marks.{same_in_all, number_flag, plain_flag}
use packetdrill.SctpPacket.Accepts.{
  Is, Given, accepts_iff, word_iff, through, flags_given, word_value,
}

-- A chunk of the type with its number, and one without any.
abbrev pub NumberFor : Place → (t flgs tsn : ℕ) → Type 0
NumberFor live t flgs tsn =
    Is bits8 live 0 t
    and Given flgs (Is bits8 live 1 (u8 flgs))
    and Is bits16 live 2 8
    and Given tsn (Is bits32 live 4 (u32 tsn))

abbrev pub PlainFor : Place → (t flgs : ℕ) → Type 0
PlainFor live t flgs =
    Is bits8 live 0 t and Given flgs (Is bits8 live 1 (u8 flgs)) and Is bits16 live 2 4

-- The item passes the comparison with itself, and a live chunk passes it exactly if `P` holds.
abbrev pub ItemFor : ChunkItem → Place → Type 0 → Type 0
ItemFor item live P = IsOwn item × ((verify_chunk live item ≡ passed) ↔ P)

module _ (memory : List ℕ) (p n : ℕ) (sized : item_length memory p ≡ some n) (h4 : 4 ≤ n)
    (inside : p + n ≤ length memory) (small : n < 65536) (flgs tsn : ℕ) where
  abbrev pub live_chunk : Place
  live_chunk = record { memory = memory; start = p }

  number_iff :
      (t : ℕ)
      → (BodyMatches
            (chunk_type t)
            live_chunk
            (chunk_item t (flags_byte flgs) 8 (wild32 tsn) (bit_or (mark flgs 2) (mark tsn 256)))
          ↔ Given tsn (Is bits32 live_chunk 4 (u32 tsn)))
      → (verify_chunk live_chunk
            (chunk_item t (flags_byte flgs) 8 (wild32 tsn) (bit_or (mark flgs 2) (mark tsn 256)))
          ≡ passed)
        ↔ NumberFor live_chunk t flgs tsn
  unfolding same_in_all
  number_iff t body =
      through
        (accepts_iff memory p n sized h4 inside small t (flags_byte flgs) 8 (wild32 tsn) _ (u8 flgs)
          8 (flgs == minus_one) false (omega arith) (number_flag flgs tsn _ (λ f t. f) refl)
          (number_flag flgs tsn _ (λ f t. false) refl) (flags_given flgs) (λ e. refl) body)
        (λ (a, (b, (c, d))). (a, (b, (c refl, d))), λ (a, (b, (c, d))). (a, (b, (λ e. c, d))))

  number_body :
      (t : ℕ)
      → Wanted (bit_or (mark flgs 2) (mark tsn 256)) 256 (
          Same bits32 4 live_chunk
            (chunk_item t
              (flags_byte flgs)
              8
              (wild32 tsn)
              (bit_or (mark flgs 2) (mark tsn 256))).chunk)
        ↔ Given tsn (Is bits32 live_chunk 4 (u32 tsn))
  unfolding load load16 same_in_all
  number_body t =
      word_iff live_chunk
        (chunk_item t (flags_byte flgs) 8 (wild32 tsn) (bit_or (mark flgs 2) (mark tsn 256))).chunk
        4 tsn _ 256 (number_flag flgs tsn 256 (λ f t. t) refl) (ap some (word_value _))

  plain_iff :
      (t : ℕ)
      → (BodyMatches (chunk_type t) live_chunk (chunk_item t (flags_byte flgs) 4 [] (mark flgs 2))
          ↔ Unit {0})
      → (verify_chunk live_chunk (chunk_item t (flags_byte flgs) 4 [] (mark flgs 2)) ≡ passed)
        ↔ PlainFor live_chunk t flgs
  unfolding same_in_all
  plain_iff t body =
      through
        (accepts_iff memory p n sized h4 inside small t (flags_byte flgs) 4 [] _ (u8 flgs) 4
          (flgs == minus_one) false (omega arith) (plain_flag flgs _ (λ f. f) refl)
          (plain_flag flgs _ (λ f. false) refl) (flags_given flgs) (λ e. refl) body)
        (λ (a, (b, (c, d))). (a, (b, c refl)), λ (a, (b, c)). (a, (b, (λ e. c, tt))))

  nothing : Unit {0} ↔ Unit {0}
  nothing = (λ x. x, λ x. x)

  -- The chunks without a length argument are built for every argument and pass the comparison with
  -- themselves. A whole live chunk passes it exactly if it has the type SHUTDOWN, SHUTDOWN ACK, COOKIE
  -- ACK, ECNE, CWR or SHUTDOWN COMPLETE, the length of its structure, and the flags and the TSN that
  -- are no wildcards.
  pub small_chunks-ItemFor :
      ItemFor (sctp_shutdown_chunk_new flgs tsn) live_chunk (NumberFor live_chunk 7 flgs tsn)
      × ItemFor (sctp_shutdown_ack_chunk_new flgs) live_chunk (PlainFor live_chunk 8 flgs)
      × ItemFor (sctp_cookie_ack_chunk_new flgs) live_chunk (PlainFor live_chunk 11 flgs)
      × ItemFor (sctp_ecne_chunk_new flgs tsn) live_chunk (NumberFor live_chunk 12 flgs tsn)
      × ItemFor (sctp_cwr_chunk_new flgs tsn) live_chunk (NumberFor live_chunk 13 flgs tsn)
      × ItemFor (sctp_shutdown_complete_chunk_new flgs) live_chunk (PlainFor live_chunk 14 flgs)
  unfolding chunk_type sctp_shutdown_chunk_new sctp_shutdown_ack_chunk_new sctp_cookie_ack_chunk_new
      sctp_ecne_chunk_new sctp_cwr_chunk_new sctp_shutdown_complete_chunk_new
  small_chunks-ItemFor =
      let (shutdown, shutdown_ack, cookie_ack, ecne, cwr, complete) = small_chunks-IsOwn flgs tsn in
      (
        (shutdown, number_iff 7 (number_body 7)),
        (shutdown_ack, plain_iff 8 nothing),
        (cookie_ack, plain_iff 11 nothing),
        (ecne, number_iff 12 (number_body 12)),
        (cwr, number_iff 13 (number_body 13)),
        (complete, plain_iff 14 nothing),
      )
