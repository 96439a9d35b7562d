-- ===== src/SctpPacket/Marks.antt =====
-- The marks of a chunk that a constructor of gtests/net/packetdrill/sctp_packet.c builds: each flag
-- of the comparison is set exactly if the argument it stands for is a wildcard.
use packetdrill.Base.{ℕ, ◌≡◌, refl, Bool, true, false, not, ◌&&◌, bit_or, ◌==◌, if◌then◌else◌}
use packetdrill.SctpMatch.Flags
use packetdrill.SctpPacket.{minus_one, mark}
use packetdrill.SctpPacket.Fixed.{data_marks, i_data_marks}

-- A test of Booleans that holds at both holds.
every : (Bool → Bool) → Bool
every f = f true && f false

every_lem : (f : Bool → Bool) → every f ≡ true → (b : Bool) → f b ≡ true
unfolding every
every_lem f h true = left (f true) (f false) h
  where
    left : (a b : Bool) → (a && b) ≡ true → a ≡ true
    left true b h = refl
    left false b h = absurd (cc h)
every_lem f h false = right (f true) (f false) h
  where
    right : (a b : Bool) → (a && b) ≡ true → b ≡ true
    right true b h = h
    right false b h = absurd (cc h)

same_bool : Bool → Bool → Bool
same_bool true b = b
same_bool false b = not b

same_bool-eq : (a b : Bool) → same_bool a b ≡ true → a ≡ b
unfolding same_bool
same_bool-eq true true h = refl
same_bool-eq false false h = refl
same_bool-eq true false h = absurd (cc h)
same_bool-eq false true h = absurd (cc h)

-- Two functions of eight Booleans are the same if a test of all cases says so.
module _ (x y : (f l t s q m p g : Bool) → Bool) where
  unfoldable pub same_in_all : Bool
  unfolding every same_bool
  same_in_all = every (λ f. every (λ l. every (λ t. every (λ s. every (λ q.
      every (λ m. every (λ p. every (λ g. same_bool (x f l t s q m p g) (y f l t s q m p g)))))))))

  same_in_all-eq :
      same_in_all ≡ true → (f l t s q m p g : Bool) → x f l t s q m p g ≡ y f l t s q m p g
  unfolding same_in_all
  same_in_all-eq h f l t s q m p g =
      let h1 =
        every_lem
          (λ f. every (λ l. every (λ t. every (λ s. every (λ q.
            every (λ m.
              every (λ p. every (λ g. same_bool (x f l t s q m p g) (y f l t s q m p g)))))))))
          h f in
      let h2 =
        every_lem
          (λ l. every (λ t. every (λ s. every (λ q.
            every
              (λ m. every (λ p. every (λ g. same_bool (x f l t s q m p g) (y f l t s q m p g))))))))
          h1 l in
      let h3 =
        every_lem
          (λ t. every (λ s. every (λ q.
            every
              (λ m. every (λ p. every (λ g. same_bool (x f l t s q m p g) (y f l t s q m p g)))))))
          h2 t in
      let h4 =
        every_lem
          (λ s. every (λ q.
            every
              (λ m. every (λ p. every (λ g. same_bool (x f l t s q m p g) (y f l t s q m p g))))))
          h3 s in
      let h5 =
        every_lem
          (λ q.
            every
              (λ m. every (λ p. every (λ g. same_bool (x f l t s q m p g) (y f l t s q m p g)))))
          h4 q in
      let h6 =
        every_lem (λ m. every (λ p. every (λ g. same_bool (x f l t s q m p g) (y f l t s q m p g))))
          h5 m in
      let h7 =
        every_lem (λ p. every (λ g. same_bool (x f l t s q m p g) (y f l t s q m p g))) h6 p in
      let h8 = every_lem (λ g. same_bool (x f l t s q m p g) (y f l t s q m p g)) h7 g in
      same_bool-eq _ _ h8

-- `if (... == -1) flags |= mask;`, by the test.
abbrev marked : Bool → ℕ → ℕ
marked b mask = if b then mask else 0

-- The marks of a DATA and of an I-DATA chunk, by the tests of the arguments.
abbrev data_by : (flgs len tsn sid ssn ppid : Bool) → ℕ
data_by flgs len tsn sid ssn ppid = bit_or (marked flgs Flags.flag_chunk_flags_nocheck) (
    bit_or
      (bit_or (marked len Flags.flag_chunk_length_nocheck)
        (marked len Flags.flag_chunk_value_nocheck))
      (bit_or (marked tsn Flags.flag_data_chunk_tsn_nocheck) (
        bit_or (marked sid Flags.flag_data_chunk_sid_nocheck) (
          bit_or (marked ssn Flags.flag_data_chunk_ssn_nocheck)
            (marked ppid Flags.flag_data_chunk_ppid_nocheck)))))

abbrev i_data_by : (flgs len tsn sid res mid ppid fsn : Bool) → ℕ
i_data_by flgs len tsn sid res mid ppid fsn = bit_or (marked flgs Flags.flag_chunk_flags_nocheck) (
    bit_or
      (bit_or (marked len Flags.flag_chunk_length_nocheck)
        (marked len Flags.flag_chunk_value_nocheck))
      (bit_or (marked tsn Flags.flag_i_data_chunk_tsn_nocheck) (
        bit_or (marked sid Flags.flag_i_data_chunk_sid_nocheck) (
          bit_or (marked res Flags.flag_i_data_chunk_res_nocheck) (
            bit_or (marked mid Flags.flag_i_data_chunk_mid_nocheck) (
              bit_or (marked ppid Flags.flag_i_data_chunk_ppid_nocheck)
                (marked fsn Flags.flag_i_data_chunk_fsn_nocheck)))))))

-- A flag of `data_marks` is set exactly if the argument that `pick` takes is a wildcard, where that
-- is so in all cases.
pub data_flag :
    (flgs len tsn sid ssn ppid mask : ℕ) (pick : (f l t s q m p g : Bool) → Bool)
    → same_in_all (λ f l t s q m p g. Flags.waived (data_by f l t s q p) mask) pick ≡ true
    → Flags.waived (data_marks flgs len tsn sid ssn ppid) mask
      ≡ pick
          (flgs == minus_one)
          (len == minus_one)
          (tsn == minus_one)
          (sid == minus_one)
          (ssn == minus_one)
          true
          (ppid == minus_one)
          true
data_flag flgs len tsn sid ssn ppid mask pick h =
    same_in_all-eq (λ f l t s q m p g. Flags.waived (data_by f l t s q p) mask) pick h
      (flgs == minus_one) (len == minus_one) (tsn == minus_one) (sid == minus_one)
      (ssn == minus_one) true (ppid == minus_one) true

pub i_data_flag :
    (flgs len tsn sid res mid ppid fsn mask : ℕ) (pick : (f l t s q m p g : Bool) → Bool)
    → same_in_all (λ f l t s q m p g. Flags.waived (i_data_by f l t s q m p g) mask) pick ≡ true
    → Flags.waived (i_data_marks flgs len tsn sid res mid ppid fsn) mask
      ≡ pick
          (flgs == minus_one)
          (len == minus_one)
          (tsn == minus_one)
          (sid == minus_one)
          (res == minus_one)
          (mid == minus_one)
          (ppid == minus_one)
          (fsn == minus_one)
i_data_flag flgs len tsn sid res mid ppid fsn mask pick h =
    same_in_all-eq (λ f l t s q m p g. Flags.waived (i_data_by f l t s q m p g) mask) pick h
      (flgs == minus_one) (len == minus_one) (tsn == minus_one) (sid == minus_one)
      (res == minus_one) (mid == minus_one) (ppid == minus_one) (fsn == minus_one)

-- The chunks with one number and the flags, or with the flags alone.
pub number_flag :
    (flgs tsn mask : ℕ) (pick : (f t : Bool) → Bool)
    → same_in_all
        (λ f l t s q m p g. Flags.waived (bit_or (marked f 2) (marked t 256)) mask)
        (λ f l t s q m p g. pick f t)
      ≡ true
    → Flags.waived (bit_or (mark flgs 2) (mark tsn 256)) mask
      ≡ pick (flgs == minus_one) (tsn == minus_one)
number_flag flgs tsn mask pick h =
    same_in_all-eq (λ f l t s q m p g. Flags.waived (bit_or (marked f 2) (marked t 256)) mask)
      (λ f l t s q m p g. pick f t) h (flgs == minus_one) true (tsn == minus_one) true true true
      true true

pub plain_flag :
    (flgs mask : ℕ) (pick : Bool → Bool)
    → same_in_all (λ f l t s q m p g. Flags.waived (marked f 2) mask) (λ f l t s q m p g. pick f)
      ≡ true
    → Flags.waived (mark flgs 2) mask ≡ pick (flgs == minus_one)
plain_flag flgs mask pick h =
    same_in_all-eq (λ f l t s q m p g. Flags.waived (marked f 2) mask) (λ f l t s q m p g. pick f) h
      (flgs == minus_one) true true true true true true true
