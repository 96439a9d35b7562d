-- ===== src/SctpRewrite/Edits.antt =====
-- What the changes of fields do behind a prefix of the memory.
use packetdrill.Base.{
  ℕ, zero, suc, ◌+◌, ◌*◌, ◌^◌, ◌<◌, ◌≡◌, refl, ap, List, [], ◌∷◌, ◌++◌, some, length, map,
  get_elem?, memcpy, u32, be32_bytes, arith, All, Bool, true, false, ◌/◌, ◌%◌, ◌==◌, if◌then◌else◌,
  none,
}
use packetdrill.Sctp.{item_length}
use packetdrill.SctpRewrite.{
  Rewrite, done, failed, assertion_failed, bad_access, stuck, ◌>>=◌, access, when, half, word,
  translate, replace_tag, translate_each,
}
use packetdrill.SctpRewrite.Layout.{words}

pub append_assoc : (xs ys zs : List ℕ) → (xs ++ ys) ++ zs ≡ xs ++ (ys ++ zs)
append_assoc [] ys zs = refl
append_assoc (x ∷ xs) ys zs = ap (λ l. x ∷ l) (append_assoc xs ys zs)

pub get_elem?_behind :
    (pre xs : List ℕ) (i : ℕ) → get_elem? (pre ++ xs) (length pre + i) ≡ get_elem? xs i
get_elem?_behind [] xs i = let e : 0 + i ≡ i = omega arith in rw e refl
get_elem?_behind (x ∷ pre) xs i =
    let e : length (x ∷ pre) + i ≡ suc (length pre + i) = omega arith in
    rw e (get_elem?_behind pre xs i)

memcpy_behind :
    (pre xs : List ℕ) (i : ℕ) (bytes : List ℕ)
    → memcpy (pre ++ xs) (length pre + i) bytes ≡ pre ++ memcpy xs i bytes
memcpy_behind [] xs i bytes = let e : 0 + i ≡ i = omega arith in rw e refl
memcpy_behind (x ∷ pre) xs i bytes =
    let e : length (x ∷ pre) + i ≡ suc (length pre + i) = omega arith in
    rw e (ap (λ l. x ∷ l) (memcpy_behind pre xs i bytes))

pub half_behind : (pre xs : List ℕ) (i : ℕ) → half (pre ++ xs) (length pre + i) ≡ half xs i
unfolding half
half_behind pre xs i =
    let e : length pre + i + 1 ≡ length pre + (i + 1) = omega arith in
    rw (e, get_elem?_behind pre xs i, get_elem?_behind pre xs (i + 1)) refl

pub item_length_behind : (pre xs : List ℕ) → item_length (pre ++ xs) (length pre) ≡ item_length xs 0
unfolding item_length
item_length_behind pre xs = rw (get_elem?_behind pre xs 2, get_elem?_behind pre xs 3) refl

word_behind : (pre xs : List ℕ) (i : ℕ) → word (pre ++ xs) (length pre + i) ≡ word xs i
unfolding word
word_behind pre xs i =
    let e : length pre + i + 2 ≡ length pre + (i + 2) = omega arith in
    rw (e, half_behind pre xs i, half_behind pre xs (i + 2)) refl

-- The changed memory behind the prefix.
abbrev pub behind : List ℕ → Rewrite (List ℕ) → Rewrite (List ℕ)
behind pre r = r >>= λ m. done (pre ++ m)

pub translate-behind :
    (pre xs : List ℕ) (i diff : ℕ)
    → translate (length pre + i) diff (pre ++ xs) ≡ behind pre (translate i diff xs)
unfolding translate
translate-behind pre xs i diff =
    rw (word_behind pre xs i)
      (elim (word xs i)
        as (λ o.
          (access o >>= λ v.
          done (memcpy (pre ++ xs) (length pre + i) (be32_bytes (u32 (v + diff)))))
          ≡ behind pre (access o >>= λ v. done (memcpy xs i (be32_bytes (u32 (v + diff)))))) [
            | none ↦ refl
            | some v ↦ ap done (memcpy_behind pre xs i (be32_bytes (u32 (v + diff))))
          ])

pub replace_tag-behind :
    (pre xs : List ℕ) (i from to : ℕ)
    → replace_tag (length pre + i) from to (pre ++ xs) ≡ behind pre (replace_tag i from to xs)
unfolding replace_tag
replace_tag-behind pre xs i from to =
    rw (word_behind pre xs i)
      (elim (word xs i)
        as (λ o.
          (access o >>= λ v.
          when (v == from) (λ m. done (memcpy m (length pre + i) (be32_bytes to))) (pre ++ xs))
          ≡ behind pre
              (access o >>= λ v. when (v == from) (λ m. done (memcpy m i (be32_bytes to))) xs)) [
                | none ↦ refl
                | some v ↦ chosen (v == from)
              ])
  where
    chosen :
        (b : Bool)
        → when b (λ m. done (memcpy m (length pre + i) (be32_bytes to))) (pre ++ xs)
          ≡ behind pre (when b (λ m. done (memcpy m i (be32_bytes to))) xs)
    chosen true = ap done (memcpy_behind pre xs i (be32_bytes to))
    chosen false = refl

pub translate_each-behind :
    (n : ℕ) (pre xs : List ℕ) (i diff : ℕ)
    → translate_each n (length pre + i) diff (pre ++ xs) ≡ behind pre (translate_each n i diff xs)
unfolding translate_each
translate_each-behind zero pre xs i diff = refl
translate_each-behind (suc n) pre xs i diff =
    let e : length pre + i + 4 ≡ length pre + (i + 4) = omega arith in
    rw (translate-behind pre xs i diff, e)
      (rest (translate i diff xs) (λ ys. translate_each-behind n pre ys (i + 4) diff))
  where
    rest :
        (r : Rewrite (List ℕ))
        → ((ys : List ℕ)
            → translate_each n (length pre + (i + 4)) diff (pre ++ ys)
              ≡ behind pre (translate_each n (i + 4) diff ys))
        → (behind pre r >>= λ m. translate_each n (length pre + (i + 4)) diff m)
          ≡ behind pre (r >>= λ m. translate_each n (i + 4) diff m)
    rest (done m) ih = ih m
    rest failed ih = refl
    rest assertion_failed ih = refl
    rest bad_access ih = refl
    rest stuck ih = refl

-- A field that holds a number of 32 bits.
pub word_front : (v : ℕ) (rest : List ℕ) → v < 2 ^ 32 → word (be32_bytes v ++ rest) 0 ≡ some v
unfolding word half
word_front v rest h =
    let e : (v / 2 ^ 24 % 256 * 256 + v / 2 ^ 16 % 256) * 65536 + (v / 2 ^ 8 % 256 * 256 + v % 256)
        ≡ v =
      omega arith in
    ap some e

memcpy_nil : (xs : List ℕ) → memcpy xs 0 [] ≡ xs
memcpy_nil [] = refl
memcpy_nil (x ∷ xs) = refl

memcpy_front :
    (v w : ℕ) (rest : List ℕ)
    → memcpy (be32_bytes v ++ rest) 0 (be32_bytes w) ≡ be32_bytes w ++ rest
memcpy_front v w rest = ap (λ l. be32_bytes w ++ l) (memcpy_nil rest)

pub translate_front :
    (v diff : ℕ) (rest : List ℕ)
    → v < 2 ^ 32
    → translate 0 diff (be32_bytes v ++ rest) ≡ done (be32_bytes (u32 (v + diff)) ++ rest)
unfolding translate
translate_front v diff rest h =
    rw (word_front v rest h) (ap done (memcpy_front v (u32 (v + diff)) rest))

pub replace_tag_front :
    (v from to : ℕ) (rest : List ℕ)
    → v < 2 ^ 32
    → replace_tag 0 from to (be32_bytes v ++ rest)
      ≡ done (be32_bytes (if v == from then to else v) ++ rest)
unfolding replace_tag
replace_tag_front v from to rest h = rw (word_front v rest h) (chosen (v == from))
  where
    chosen :
        (b : Bool)
        → when b (λ m. done (memcpy m 0 (be32_bytes to))) (be32_bytes v ++ rest)
          ≡ done (be32_bytes (if b then to else v) ++ rest)
    chosen true = ap done (memcpy_front v to rest)
    chosen false = refl

pub translate_each_front :
    (vs : List ℕ) (diff : ℕ) (rest : List ℕ)
    → All (λ v. v < 2 ^ 32) vs
    → translate_each (length vs) 0 diff (words vs ++ rest)
      ≡ done (words (map (λ v. u32 (v + diff)) vs) ++ rest)
unfolding translate_each
translate_each_front [] diff rest h = refl
translate_each_front (v ∷ vs) diff rest (h, hs) =
    rw
      (
        append_assoc (be32_bytes v) (words vs) rest,
        translate_front v diff (words vs ++ rest) h,
        translate_each-behind (length vs) (be32_bytes (u32 (v + diff))) (words vs ++ rest) 0 diff,
        translate_each_front vs diff rest hs,
      )
      refl
