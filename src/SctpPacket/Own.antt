-- ===== src/SctpPacket/Own.antt =====
-- The chunks that the constructors of gtests/net/packetdrill/sctp_packet.c build pass the
-- comparison with themselves, as `verify_sctp` of run_packet.c makes it.
use packetdrill.Base.{
  ℕ, zero, suc, ◌+◌, ◌-◌, ◌%◌, ◌/◌, ◌^◌, ◌≤◌, ◌<◌, ◌≡◌, refl, false, List, [], ◌++◌, some, length,
  arith, IsByte, All, ltb, ◌==◌, if◌then◌else◌, be32_bytes, be16, replicate, length-replicate,
  All-append, Bool-cases, inl, inr,
}
use packetdrill.Sctp.{item_length, padding}
use packetdrill.Sctp.Walk.{rounded, padding-rounded}
use packetdrill.SctpMatch.Compare.{load, load16}
use packetdrill.SctpMatch.Items.{ChunkItem}
use packetdrill.SctpMatch.Packet.{chunk_type}
use packetdrill.SctpMatch.SpecItems.{BodyMatches}
use packetdrill.SctpMatch.MatchesPacket.{chunk_iff}
use packetdrill.SctpMatch.Own.{IsOwn}
use packetdrill.SctpPacket.{minus_one, wild32, wild16, flags_byte, Built, built, chunk_item}
use packetdrill.SctpPacket.Fixed.{
  sctp_data_chunk_new, sctp_i_data_chunk_new, sctp_shutdown_chunk_new, sctp_shutdown_ack_chunk_new,
  sctp_cookie_ack_chunk_new, sctp_ecne_chunk_new, sctp_cwr_chunk_new,
  sctp_shutdown_complete_chunk_new, chunk_length, i_data_field, data_marks, i_data_marks,
}

-- A chunk with a whole header and body passes the comparison with itself if its body matches.
IsOwn-chunk :
    (t f n : ℕ) (rest : List ℕ) (marks : ℕ)
    → t < 256
    → f < 256
    → n < 65536
    → 4 ≤ n
    → length rest + 4 ≡ n + padding n
    → All IsByte rest
    → BodyMatches (chunk_type t) (chunk_item t f n rest marks).chunk (chunk_item t f n rest marks)
    → IsOwn (chunk_item t f n rest marks)
unfolding load load16 item_length
IsOwn-chunk t f n rest marks ht hf hn h4 len bytes body =
    let value : be16 (n / 2 ^ 8 % 256) (n % 256) ≡ n = omega arith in
    let sized : item_length (chunk_item t f n rest marks).chunk.memory 0 ≡ some n = rw value refl in
    let all : length (chunk_item t f n rest marks).chunk.memory ≡ rounded n =
      omega (arith, padding-rounded n) in
    (
      n,
      refl,
      sized,
      h4,
      all,
      (ht, (hf, (omega arith, (omega arith, bytes)))),
      (chunk_iff (chunk_item t f n rest marks).chunk.memory 0 n sized h4 (omega arith) hn
            (chunk_item t f n rest marks)).1
          ((t, refl, refl), (λ e. (f, refl, refl), (λ e. (_, refl, refl), (t, refl, body)))),
    )

flags_byte-small : (flgs : ℕ) → flags_byte flgs < 256
flags_byte-small flgs = ground arith

wild32-bytes : (v : ℕ) → All IsByte (wild32 v)
wild32-bytes v = (omega arith, (omega arith, (omega arith, (omega arith, tt))))

wild16-bytes : (v : ℕ) → All IsByte (wild16 v)
wild16-bytes v = (omega arith, (omega arith, tt))

be32-bytes : (v : ℕ) → All IsByte (be32_bytes v)
be32-bytes v = (omega arith, (omega arith, (omega arith, (omega arith, tt))))

zeros-bytes : (n : ℕ) → All IsByte (replicate n 0)
zeros-bytes zero = tt
zeros-bytes (suc n) = (omega arith, zeros-bytes n)

data_body :
    (f n tsn sid ssn ppid marks : ℕ) (rest : List ℕ)
    → BodyMatches
        (chunk_type 0)
        (chunk_item 0 f n
          (wild32 tsn ++ wild16 sid ++ wild16 ssn ++ wild32 ppid ++ rest)
          marks).chunk
        (chunk_item 0 f n (wild32 tsn ++ wild16 sid ++ wild16 ssn ++ wild32 ppid ++ rest) marks)
unfolding load load16 chunk_type
data_body f n tsn sid ssn ppid marks rest =
    ((_, refl, refl), (λ e. (_, refl, refl), (λ e. (_, refl, refl), λ e. (_, refl, refl))))

pub chunk_length-small : (len size : ℕ) → size < 65536 → chunk_length len size < 65536
chunk_length-small len size h = ground arith

padding-small : (n : ℕ) → padding n < 4
padding-small n = ground arith

-- The constructor returns an item, which passes the comparison with itself.
abbrev pub BuildsOwn : Built → Type 0
BuildsOwn b = (item : ChunkItem) × (b ≡ built item) × IsOwn item

-- `sctp_data_chunk_new`, given no length or one of at least thirteen bytes, which the padding makes
-- sixteen, builds a DATA chunk that passes the comparison with itself, whatever else is a wildcard.
pub sctp_data_chunk_new-BuildsOwn :
    (flgs len tsn sid ssn ppid : ℕ)
    → 13 ≤ chunk_length len 16
    → BuildsOwn (sctp_data_chunk_new flgs len tsn sid ssn ppid)
unfolding sctp_data_chunk_new
sctp_data_chunk_new-BuildsOwn flgs len tsn sid ssn ppid h =
    let n = chunk_length len 16 in
    let hn : n < 65536 = chunk_length-small len 16 (omega arith) in
    let fits : ltb (n + padding n) 16 ≡ false = ground arith in
    let zeros = replicate {A = ℕ} (n + padding n - 16) 0 in
    let more : length zeros ≡ n + padding n - 16 = length-replicate (n + padding n - 16) 0 in
    let from_ssn = wild16 ssn ++ wild32 ppid ++ zeros in
    let big : 16 ≤ n + padding n = ground arith in
    (
      _,
      rw (sctp_data_chunk_new, fits) refl,
      IsOwn-chunk 0 (flags_byte flgs) n
          (wild32 tsn ++ wild16 sid ++ wild16 ssn ++ wild32 ppid ++ zeros)
          (data_marks flgs len tsn sid ssn ppid) (omega arith) (flags_byte-small flgs) hn
          (omega arith) (omega arith)
          (All-append IsByte (wild32 tsn) (wild16 sid ++ from_ssn) (wild32-bytes tsn) (
            All-append IsByte (wild16 sid) from_ssn (wild16-bytes sid) (
              All-append IsByte (wild16 ssn) (wild32 ppid ++ zeros) (wild16-bytes ssn) (
                All-append IsByte (wild32 ppid) zeros (wild32-bytes ppid)
                  (zeros-bytes (n + padding n - 16))))))
          (data_body (flags_byte flgs) n tsn sid ssn ppid _ _),
    )

i_data_field-four : (ppid fsn : ℕ) → (v : ℕ) × (i_data_field ppid fsn ≡ be32_bytes v)
i_data_field-four ppid fsn = elim (Bool-cases (fsn == minus_one)) [
  | inl e ↦ (if ppid == minus_one then 0 else ppid, rw e refl)
  | inr e ↦ (fsn, rw e refl)
]

i_data_body :
    (f n tsn sid res mid v marks : ℕ) (rest : List ℕ)
    → BodyMatches
        (chunk_type 0x40)
        (chunk_item 0x40 f n
          (wild32 tsn ++ wild16 sid ++ wild16 res ++ wild32 mid ++ be32_bytes v ++ rest)
          marks).chunk
        (chunk_item 0x40 f n
          (wild32 tsn ++ wild16 sid ++ wild16 res ++ wild32 mid ++ be32_bytes v ++ rest)
          marks)
unfolding load load16 chunk_type
i_data_body f n tsn sid res mid v marks rest = (
  (_, refl, refl),
  (
    λ e. (_, refl, refl),
    (λ e. (_, refl, refl), (λ e. (_, refl, refl), (λ e. (_, refl, refl), λ e. (_, refl, refl)))),
  ),
)

-- The same for `sctp_i_data_chunk_new` and lengths of at least seventeen bytes.
pub sctp_i_data_chunk_new-BuildsOwn :
    (flgs len tsn sid res mid ppid fsn : ℕ)
    → 17 ≤ chunk_length len 20
    → BuildsOwn (sctp_i_data_chunk_new flgs len tsn sid res mid ppid fsn)
unfolding sctp_i_data_chunk_new
sctp_i_data_chunk_new-BuildsOwn flgs len tsn sid res mid ppid fsn h =
    let n = chunk_length len 20 in
    let hn : n < 65536 = chunk_length-small len 20 (omega arith) in
    let fits : ltb (n + padding n) 20 ≡ false = ground arith in
    let zeros = replicate {A = ℕ} (n + padding n - 20) 0 in
    let more : length zeros ≡ n + padding n - 20 = length-replicate (n + padding n - 20) 0 in
    let big : 20 ≤ n + padding n = ground arith in
    let (v, four) = i_data_field-four ppid fsn in
    let from_mid = wild32 mid ++ be32_bytes v ++ zeros in
    (
      _,
      rw (sctp_i_data_chunk_new, fits, four) refl,
      IsOwn-chunk 0x40 (flags_byte flgs) n
          (wild32 tsn ++ wild16 sid ++ wild16 res ++ wild32 mid ++ be32_bytes v ++ zeros)
          (i_data_marks flgs len tsn sid res mid ppid fsn) (omega arith) (flags_byte-small flgs) hn
          (omega arith) (omega arith)
          (All-append IsByte (wild32 tsn) (wild16 sid ++ wild16 res ++ from_mid) (wild32-bytes tsn)
            (All-append IsByte (wild16 sid) (wild16 res ++ from_mid) (wild16-bytes sid) (
              All-append IsByte (wild16 res) from_mid (wild16-bytes res) (
                All-append IsByte (wild32 mid) (be32_bytes v ++ zeros) (wild32-bytes mid) (
                  All-append IsByte (be32_bytes v) zeros (be32-bytes v)
                    (zeros-bytes (n + padding n - 20)))))))
          (i_data_body (flags_byte flgs) n tsn sid res mid v _ _),
    )

-- The chunks without a length argument are built for every argument, and pass as well.
pub small_chunks-IsOwn :
    (flgs tsn : ℕ)
    → IsOwn (sctp_shutdown_chunk_new flgs tsn)
      × IsOwn (sctp_shutdown_ack_chunk_new flgs)
      × IsOwn (sctp_cookie_ack_chunk_new flgs)
      × IsOwn (sctp_ecne_chunk_new flgs tsn)
      × IsOwn (sctp_cwr_chunk_new flgs tsn)
      × IsOwn (sctp_shutdown_complete_chunk_new flgs)
unfolding load load16 chunk_type sctp_shutdown_chunk_new sctp_shutdown_ack_chunk_new
    sctp_cookie_ack_chunk_new sctp_ecne_chunk_new sctp_cwr_chunk_new
    sctp_shutdown_complete_chunk_new
small_chunks-IsOwn flgs tsn =
    let f = flags_byte flgs in
    let hf : f < 256 = flags_byte-small flgs in
    let bytes = wild32-bytes tsn in
    (
      IsOwn-chunk 7 f 8 (wild32 tsn) _ (omega arith) hf (omega arith) (omega arith) refl bytes
          (λ e. (_, refl, refl)),
      IsOwn-chunk 8 f 4 [] _ (omega arith) hf (omega arith) (omega arith) refl tt tt,
      IsOwn-chunk 11 f 4 [] _ (omega arith) hf (omega arith) (omega arith) refl tt tt,
      IsOwn-chunk 12 f 8 (wild32 tsn) _ (omega arith) hf (omega arith) (omega arith) refl bytes
          (λ e. (_, refl, refl)),
      IsOwn-chunk 13 f 8 (wild32 tsn) _ (omega arith) hf (omega arith) (omega arith) refl bytes
          (λ e. (_, refl, refl)),
      IsOwn-chunk 14 f 4 [] _ (omega arith) hf (omega arith) (omega arith) refl tt tt,
    )
