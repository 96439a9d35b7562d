-- ===== src/TcpOptions/Append.antt =====
-- `tcp_options_append` appends, within the 40 bytes of the array.
use packetdrill.Base.{
  ℕ, zero, suc, ◌+◌, ◌≤◌, ◌<◌, ◌≡◌, refl, true, false, List, [], ◌∷◌, ◌++◌, arith, length, take,
  memcpy, length-memcpy, length-take, ltb, Bool-cases, inl, inr, ap, ◌∙◌, ◌⊎◌,
}
use packetdrill.TcpOptions.{TcpOptions, tcp_options_append, tcp_options_new}

pub record IsValid (o : TcpOptions) : Type 0 where
  pub array : length o.data_bytes ≡ 40
  pub within : o.length_bytes ≤ 40

-- The options in wire format.
abbrev pub wire : TcpOptions → List ℕ
wire o = take o.length_bytes o.data_bytes

take-memcpy :
    (xs : List ℕ) (n m : ℕ) (bytes : List ℕ)
    → m ≡ n + length bytes
    → m ≤ length xs
    → take m (memcpy xs n bytes) ≡ take n xs ++ bytes
take-memcpy [] zero zero [] e h = refl
take-memcpy [] zero (suc m) [] e h = absurd (omega arith)
take-memcpy [] zero m (b ∷ bytes) e h = absurd (omega arith)
take-memcpy [] (suc n) m bytes e h = absurd (omega arith)
take-memcpy (x ∷ xs) zero zero [] e h = refl
take-memcpy (x ∷ xs) zero (suc m) [] e h = absurd (omega arith)
take-memcpy (x ∷ xs) zero zero (b ∷ bytes) e h = absurd (omega arith)
take-memcpy (x ∷ xs) zero (suc m) (b ∷ bytes) e h =
    ap (λ ys. b ∷ ys) (take-memcpy xs zero m bytes (omega arith) (omega arith))
take-memcpy (x ∷ xs) (suc n) zero bytes e h = absurd (omega arith)
take-memcpy (x ∷ xs) (suc n) (suc m) bytes e h =
    ap (λ ys. x ∷ ys) (take-memcpy xs n m bytes (omega arith) (omega arith))

-- The empty list of options is valid.
pub new-IsValid : IsValid tcp_options_new
unfolding tcp_options_new
new-IsValid = record { array = refl; within = omega arith }

-- On valid options `tcp_options_append` keeps the array's bound. It fails exactly if the bytes
-- do not fit, and then changes nothing; else the wire format grows by the option's bytes.
pub append-IsValid :
    (o : TcpOptions) (option : List ℕ) (n : ℕ)
    → IsValid o
    → n ≤ length option
    → IsValid (tcp_options_append o option n).0
      × (((tcp_options_append o option n) ≡ (o, false)) × (40 < o.length_bytes + n)
          ⊎ ((tcp_options_append o option n).1 ≡ true)
            × (o.length_bytes + n ≤ 40)
            × (wire (tcp_options_append o option n).0 ≡ wire o ++ take n option))
unfolding tcp_options_append
append-IsValid o option n v h =
    let taken : length (take n option) ≡ n = omega (arith, length-take n option) in
    elim (Bool-cases (ltb 40 (o.length_bytes + n))) [
      | inl over ↦ rw over (v, inl (refl, ground arith))
      | inr fits ↦ rw fits (
        record {
          array = length-memcpy o.data_bytes o.length_bytes (take n option) ∙ v.array;
          within = ground arith;
        },
        inr (
          refl,
          ground arith,
          take-memcpy o.data_bytes o.length_bytes (o.length_bytes + n) (take n option) (omega arith)
              (ground (arith, v.array)),
        ),
      )
    ]
