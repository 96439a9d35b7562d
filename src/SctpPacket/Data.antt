-- ===== src/SctpPacket/Data.antt =====
-- Which live chunks pass the comparison with what `sctp_data_chunk_new` and `sctp_i_data_chunk_new`
-- of gtests/net/packetdrill/sctp_packet.c build.
use packetdrill.Base.{
  ℕ, ◌+◌, ◌-◌, ◌<◌, ◌≤◌, ◌≡◌, refl, ap, false, List, ◌++◌, some, length, arith, ◌==◌, if◌then◌else◌,
  u8, u16, u32, be32_bytes, replicate, ltb, Bool-cases, inl, inr,
}
use packetdrill.Sctp.{item_length, padding}
use packetdrill.SctpMatch.Compare.{Place, bits8, bits16, bits32, load, load16}
use packetdrill.SctpMatch.Laws.{◌and◌}
use packetdrill.SctpMatch.Packet.{chunk_type}
use packetdrill.SctpPacket.{minus_one, wild32, wild16, flags_byte, chunk_item}
use packetdrill.SctpPacket.Fixed.{
  sctp_data_chunk_new, sctp_i_data_chunk_new, i_data_field, chunk_length, data_marks, i_data_marks,
}
use packetdrill.SctpPacket.Own.{
  sctp_data_chunk_new-BuildsOwn, sctp_i_data_chunk_new-BuildsOwn, chunk_length-small,
}
use packetdrill.SctpPacket.Marks.{same_in_all, data_flag, i_data_flag}
use packetdrill.SctpPacket.Accepts.{
  Is, Given, accepts_iff, same_iff, wanted_iff, both_iff, word_iff, half_iff, flags_given,
  length_given, built_for, word_value, half_value, BuildsFor,
}

-- A DATA chunk with the given arguments, but for those that are wildcards; the TSN is compared even
-- then, with 0.
abbrev pub DataFor : Place → (flgs len tsn sid ssn ppid : ℕ) → Type 0
DataFor live flgs len tsn sid ssn ppid =
    Is bits8 live 0 0
    and Given flgs (Is bits8 live 1 (u8 flgs))
    and Given len (Is bits16 live 2 (u16 len))
    and Is bits32 live 4 (u32 (if tsn == minus_one then 0 else tsn))
    and Given sid (Is bits16 live 8 (u16 sid))
    and Given ssn (Is bits16 live 10 (u16 ssn))
    and Given ppid (Is bits32 live 12 (u32 ppid))

-- `sctp_data_chunk_new`, given no length or one of at least thirteen bytes, which the padding makes
-- sixteen, builds a chunk that passes the comparison with itself. A whole live chunk passes the
-- comparison with it exactly if it is a DATA chunk with the flags, length, stream, sequence number
-- and protocol that are no wildcards, and with the TSN, for which a wildcard is 0.
pub sctp_data_chunk_new-BuildsFor :
    (flgs len tsn sid ssn ppid : ℕ) (memory : List ℕ) (p n : ℕ)
    → 13 ≤ chunk_length len 16
    → item_length memory p ≡ some n
    → 4 ≤ n
    → p + n ≤ length memory
    → n < 65536
    → BuildsFor
        (sctp_data_chunk_new flgs len tsn sid ssn ppid)
        record { memory = memory; start = p }
        (DataFor record { memory = memory; start = p } flgs len tsn sid ssn ppid)
unfolding load load16 chunk_type same_in_all sctp_data_chunk_new
sctp_data_chunk_new-BuildsFor flgs len tsn sid ssn ppid memory p n h sized h4 inside small =
    let m = chunk_length len 16 in
    let marks = data_marks flgs len tsn sid ssn ppid in
    let fits : ltb (m + padding m) 16 ≡ false = ground arith in
    let rest =
      wild32 tsn
      ++ wild16 sid
      ++ wild16 ssn
      ++ wild32 ppid
      ++ replicate {A = ℕ} (m + padding m - 16) 0 in
    let script : Place = (chunk_item 0 (flags_byte flgs) m rest marks).chunk in
    let live : Place = record { memory = memory; start = p } in
    let flag = data_flag flgs len tsn sid ssn ppid in
    built_for live (sctp_data_chunk_new-BuildsOwn flgs len tsn sid ssn ppid h)
      (rw (sctp_data_chunk_new, fits) refl)
      (accepts_iff memory p n sized h4 inside small 0 (flags_byte flgs) m rest marks (u8 flgs)
        (u16 len) (flgs == minus_one) (len == minus_one) (chunk_length-small len 16 (omega arith))
        (flag _ (λ f l t s q m p g. f) refl) (flag _ (λ f l t s q m p g. l) refl) (flags_given flgs)
        (length_given len 16)
        (both_iff (same_iff bits32 live script 4 _ (ap some (word_value _))) (
          both_iff
            (half_iff live script 8 sid marks _ (flag _ (λ f l t s q m p g. s) refl)
              (ap some (half_value _)))
            (both_iff
              (half_iff live script 10 ssn marks _ (flag _ (λ f l t s q m p g. q) refl)
                (ap some (half_value _)))
              (word_iff live script 12 ppid marks _ (flag _ (λ f l t s q m p g. p) refl)
                (ap some (word_value _)))))))

-- An I-DATA chunk with the given arguments; the payload protocol and the fragment sequence number
-- are one field, which holds the latter if both are given.
abbrev pub IDataFor : Place → (flgs len tsn sid res mid ppid fsn : ℕ) → Type 0
IDataFor live flgs len tsn sid res mid ppid fsn =
    Is bits8 live 0 0x40
    and Given flgs (Is bits8 live 1 (u8 flgs))
    and Given len (Is bits16 live 2 (u16 len))
    and Is bits32 live 4 (u32 (if tsn == minus_one then 0 else tsn))
    and Given sid (Is bits16 live 8 (u16 sid))
    and Given res (Is bits16 live 10 (u16 res))
    and Given mid (Is bits32 live 12 (u32 mid))
    and Given ppid (Is bits32 live 16 (u32 (if fsn == minus_one then ppid else fsn)))
    and Given fsn (Is bits32 live 16 (u32 fsn))

-- The value in the field that the two share.
shared_field : ℕ → ℕ → ℕ
shared_field ppid fsn = if fsn == minus_one then (if ppid == minus_one then 0 else ppid) else fsn

i_data_field-shared : (ppid fsn : ℕ) → i_data_field ppid fsn ≡ be32_bytes (shared_field ppid fsn)
unfolding shared_field
i_data_field-shared ppid fsn = elim (Bool-cases (fsn == minus_one)) [
  | inl e ↦ rw e refl
  | inr e ↦ rw e refl
]

shared_ppid :
    (ppid fsn : ℕ)
    → (ppid == minus_one) ≡ false
    → u32 (shared_field ppid fsn) ≡ u32 (if fsn == minus_one then ppid else fsn)
unfolding shared_field
shared_ppid ppid fsn h = rw h refl

shared_fsn : (ppid fsn : ℕ) → (fsn == minus_one) ≡ false → u32 (shared_field ppid fsn) ≡ u32 fsn
unfolding shared_field
shared_fsn ppid fsn h = rw h refl

-- The same for `sctp_i_data_chunk_new`, I-DATA chunks and lengths of at least seventeen bytes: the
-- chunk that is built passes the comparison with itself, and a whole live chunk passes it exactly if
-- it is an I-DATA chunk with the arguments that are no wildcards and with the TSN, for which a
-- wildcard is 0.
pub sctp_i_data_chunk_new-BuildsFor :
    (flgs len tsn sid res mid ppid fsn : ℕ) (memory : List ℕ) (p n : ℕ)
    → 17 ≤ chunk_length len 20
    → item_length memory p ≡ some n
    → 4 ≤ n
    → p + n ≤ length memory
    → n < 65536
    → BuildsFor
        (sctp_i_data_chunk_new flgs len tsn sid res mid ppid fsn)
        record { memory = memory; start = p }
        (IDataFor record { memory = memory; start = p } flgs len tsn sid res mid ppid fsn)
unfolding load load16 chunk_type same_in_all sctp_i_data_chunk_new
sctp_i_data_chunk_new-BuildsFor flgs len tsn sid res mid ppid fsn memory p n h sized h4 inside
      small =
    let m = chunk_length len 20 in
    let marks = i_data_marks flgs len tsn sid res mid ppid fsn in
    let fits : ltb (m + padding m) 20 ≡ false = ground arith in
    let rest =
      wild32 tsn
      ++ wild16 sid
      ++ wild16 res
      ++ wild32 mid
      ++ be32_bytes (shared_field ppid fsn)
      ++ replicate {A = ℕ} (m + padding m - 20) 0 in
    let script : Place = (chunk_item 0x40 (flags_byte flgs) m rest marks).chunk in
    let live : Place = record { memory = memory; start = p } in
    let flag = i_data_flag flgs len tsn sid res mid ppid fsn in
    built_for live (sctp_i_data_chunk_new-BuildsOwn flgs len tsn sid res mid ppid fsn h)
      (rw (sctp_i_data_chunk_new, fits, i_data_field-shared ppid fsn) refl)
      (accepts_iff memory p n sized h4 inside small 0x40 (flags_byte flgs) m rest marks (u8 flgs)
        (u16 len) (flgs == minus_one) (len == minus_one) (chunk_length-small len 20 (omega arith))
        (flag _ (λ f l t s q m p g. f) refl) (flag _ (λ f l t s q m p g. l) refl) (flags_given flgs)
        (length_given len 20)
        (both_iff (same_iff bits32 live script 4 _ (ap some (word_value _))) (
          both_iff
            (half_iff live script 8 sid marks _ (flag _ (λ f l t s q m p g. s) refl)
              (ap some (half_value _)))
            (both_iff
              (half_iff live script 10 res marks _ (flag _ (λ f l t s q m p g. q) refl)
                (ap some (half_value _)))
              (both_iff
                (word_iff live script 12 mid marks _ (flag _ (λ f l t s q m p g. m) refl)
                  (ap some (word_value _)))
                (both_iff
                  (wanted_iff bits32 live script 16 _ _ marks _ (ppid == minus_one)
                    (flag _ (λ f l t s q m p g. p) refl) (ap some (word_value _))
                    (shared_ppid ppid fsn))
                  (wanted_iff bits32 live script 16 _ _ marks _ (fsn == minus_one)
                    (flag _ (λ f l t s q m p g. g) refl) (ap some (word_value _))
                    (shared_fsn ppid fsn))))))))
