-- ===== src/SctpPacket/Accepts.antt =====
-- Which live chunks pass the comparison with a chunk that a constructor of
-- gtests/net/packetdrill/sctp_packet.c builds, by the arguments of the constructor alone.
use packetdrill.Base.{
  ℕ, ◌+◌, ◌*◌, ◌/◌, ◌%◌, ◌^◌, ◌<◌, ◌≤◌, ◌≡◌, ◌↔◌, refl, ap, sym, ◌∙◌, subst, Bool, false, List,
  some, length, arith, ◌==◌, if◌then◌else◌, u8, u16, u32,
}
use packetdrill.Sctp.{item_length}
use packetdrill.SctpMatch.Compare.{Place, Width, bits8, bits16, bits32, load, load16, passed}
use packetdrill.SctpMatch.Flags
use packetdrill.SctpMatch.Items.{ChunkItem}
use packetdrill.SctpMatch.Laws.{SameField, ◌and◌}
use packetdrill.SctpMatch.MatchesPacket.{chunk_iff}
use packetdrill.SctpMatch.Packet.{chunk_type, verify_chunk}
use packetdrill.SctpMatch.Spec.{Wanted, Same, Has}
use packetdrill.SctpMatch.SpecItems.{BodyMatches}
use packetdrill.SctpPacket.{minus_one, flags_byte, Built, built, chunk_item}
use packetdrill.SctpPacket.Fixed.{chunk_length}
use packetdrill.SctpMatch.Own.{IsOwn}
use packetdrill.SctpPacket.Own.{BuildsOwn}

-- The field of the live chunk has the value.
abbrev pub Is : Width → Place → ℕ → ℕ → Type 0
Is w live i v = load w live i ≡ some v

-- The argument is no wildcard.
abbrev pub Given : ℕ → Type 0 → Type 0
Given argument P = (argument == minus_one) ≡ false → P

-- What the comparison says of a field, for a script whose field is known.
pub same_iff :
    (w : Width) (live script : Place) (i v : ℕ)
    → load w script i ≡ some v
    → SameField w script i live i ↔ Is w live i v
same_iff w live script i v e =
    (λ (x, ex, ey). let same : x ≡ v = cc (e, ex) in rw (sym same) ey, λ h. (v, e, h))

-- `b` says whether the field has a wildcard, which stands for `v`.
pub wanted_iff :
    (w : Width) (live script : Place) (i v v' flags mask : ℕ) (b : Bool)
    → Flags.waived flags mask ≡ b
    → load w script i ≡ some v
    → (b ≡ false → v ≡ v')
    → Wanted flags mask (Same w i live script) ↔ (b ≡ false → Is w live i v')
wanted_iff w live script i v v' flags mask b marked e same = (
  λ h n. rw (sym (same n)) ((same_iff w live script i v e).0 (h (marked ∙ n))),
  λ h n.
      let n' : b ≡ false = sym marked ∙ n in (same_iff w live script i v e).1 (rw (same n') (h n')),
)

pub both_iff : {P Q P' Q' : Type 0} → (P ↔ P') → (Q ↔ Q') → (P × Q) ↔ (P' × Q')
both_iff p q = (λ (x, y). (p.0 x, q.0 y), λ (x, y). (p.1 x, q.1 y))

pub through : {P Q R : Type 0} → (P ↔ Q) → (Q ↔ R) → P ↔ R
through f g = (λ p. g.0 (f.0 p), λ r. f.1 (g.1 r))

-- The field of a chunk with the bytes of `v`.
pub word_iff :
    (live script : Place) (i v marks mask : ℕ)
    → Flags.waived marks mask ≡ (v == minus_one)
    → load bits32 script i ≡ some (u32 (if v == minus_one then 0 else v))
    → Wanted marks mask (Same bits32 i live script) ↔ Given v (Is bits32 live i (u32 v))
word_iff live script i v marks mask marked e =
    wanted_iff bits32 live script i _ (u32 v) marks mask (v == minus_one) marked e
      (λ given. rw given refl)

pub half_iff :
    (live script : Place) (i v marks mask : ℕ)
    → Flags.waived marks mask ≡ (v == minus_one)
    → load bits16 script i ≡ some (u16 (if v == minus_one then 0 else v))
    → Wanted marks mask (Same bits16 i live script) ↔ Given v (Is bits16 live i (u16 v))
half_iff live script i v marks mask marked e =
    wanted_iff bits16 live script i _ (u16 v) marks mask (v == minus_one) marked e
      (λ given. rw given refl)

-- The type and what follows from it.
typed_iff :
    (live : Place) (t : ℕ) (M : ℕ → Type 0) {A A' B B' C : Type 0}
    → (A ↔ A')
    → (B ↔ B')
    → (M t ↔ C)
    → (Is bits8 live 0 t and A and B and Has bits8 live 0 M)
      ↔ (Is bits8 live 0 t and A' and B' and C)
typed_iff live t M a b m = (
  λ (e, (x, (y, (v, ev, z)))).
      let same : v ≡ t = cc (e, ev) in (e, (a.0 x, (b.0 y, m.0 (subst M same z)))),
  λ (e, (x, (y, z))). (e, (a.1 x, (b.1 y, (t, e, m.1 z)))),
)

-- A whole live chunk of `n` bytes at `p`.
module _ (memory : List ℕ) (p n : ℕ) (sized : item_length memory p ≡ some n) (h4 : 4 ≤ n)
    (inside : p + n ≤ length memory) (small : n < 65536) where
  abbrev pub live_at : Place
  live_at = record { memory = memory; start = p }

  pub accepts_iff :
      (t f m : ℕ) (rest : List ℕ) (marks f' m' : ℕ) (no_flags no_length : Bool) {B : Type 0}
      → m < 65536
      → Flags.waived marks Flags.flag_chunk_flags_nocheck ≡ no_flags
      → Flags.waived marks Flags.flag_chunk_length_nocheck ≡ no_length
      → (no_flags ≡ false → f ≡ f')
      → (no_length ≡ false → m ≡ m')
      → (BodyMatches (chunk_type t) live_at (chunk_item t f m rest marks) ↔ B)
      → (verify_chunk live_at (chunk_item t f m rest marks) ≡ passed) ↔ (
          Is bits8 live_at 0 t
          and (no_flags ≡ false → Is bits8 live_at 1 f')
          and (no_length ≡ false → Is bits16 live_at 2 m')
          and B)
  unfolding load load16
  accepts_iff t f m rest marks f' m' no_flags no_length hm ef el sf sl body =
      let item = chunk_item t f m rest marks in
      let script : Place = item.chunk in
      let first = same_iff bits8 live_at script 0 t refl in
      let whole : load bits16 script 2 ≡ some m = ap some (omega arith) in
      let flags_iff = wanted_iff bits8 live_at script 1 f f' marks _ no_flags ef refl sf in
      let length_iff = wanted_iff bits16 live_at script 2 m m' marks _ no_length el whole sl in
      through (chunk_iff memory p n sized h4 inside small item) (
        through (both_iff first ((λ x. x), (λ x. x))) (
          typed_iff live_at t (λ type_. BodyMatches (chunk_type type_) live_at item) flags_iff
            length_iff body))

-- The constructor returns an item, which passes the comparison with itself, and which a live chunk
-- passes exactly if it has the property.
abbrev pub BuildsFor : Built → Place → Type 0 → Type 0
BuildsFor b live P =
    (item : ChunkItem) × (b ≡ built item) × IsOwn item × ((verify_chunk live item ≡ passed) ↔ P)

pub built_for :
    {b : Built} {item : ChunkItem} (live : Place) {P : Type 0}
    → BuildsOwn b
    → b ≡ built item
    → ((verify_chunk live item ≡ passed) ↔ P)
    → BuildsFor b live P
built_for {b} {item} live {P} (item', e, own) e' h =
    let same : item ≡ item' = cc (e, e') in
    (item', e, own, subst (λ i. (verify_chunk live i ≡ passed) ↔ P) same h)

-- What the bytes of a field stand for.
pub word_value :
    (v : ℕ)
    → (v / 2 ^ 24 % 256 * 256 + v / 2 ^ 16 % 256) * 65536 + (v / 2 ^ 8 % 256 * 256 + v % 256)
      ≡ u32 v
word_value v = omega arith

pub half_value : (v : ℕ) → v / 2 ^ 8 % 256 * 256 + v % 256 ≡ u16 v
half_value v = omega arith

pub flags_given : (flgs : ℕ) → (flgs == minus_one) ≡ false → flags_byte flgs ≡ u8 flgs
flags_given flgs h = rw h refl

pub length_given : (len size : ℕ) → (len == minus_one) ≡ false → chunk_length len size ≡ u16 len
length_given len size h = rw h refl
