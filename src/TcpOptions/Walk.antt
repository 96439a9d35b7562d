-- ===== src/TcpOptions/Walk.antt =====
-- The loop over options ends within its fuel, reads nothing outside the options and the memory
-- behind them, and takes the options apart without loss.
use packetdrill.Base.{
  ℕ, zero, suc, ◌+◌, ◌-◌, ◌≤◌, ◌<◌, ◌≡◌, ◌≢◌, refl, false, List, [], ◌∷◌, ◌++◌, arith, length, take,
  drop, length-drop, length-append, ◌==◌, Bool-cases, inl, inr, All, ap, ◌∙◌, sym, subst, ◌⊎◌,
}
use packetdrill.TcpOptions.{Error, Result, ok, err, fault, option_length}
use packetdrill.TcpOptions.Loops.{Loop, finished, failed, map_loop, options_loop}

-- An accepted option has at least one byte and ends inside the options.
pub option_length_bounds :
    (rest : List ℕ) (left n : ℕ) → 0 < left → option_length rest left ≡ ok n → (1 ≤ n) × (n ≤ left)
unfolding option_length
option_length_bounds [] left n pos e = cc
option_length_bounds (kind ∷ []) left n pos e = ground arith
option_length_bounds (kind ∷ size ∷ rest) left n pos e = ground arith

-- No read leaves the memory, if the memory holds the options.
pub option_length-ne-fault :
    (rest : List ℕ) (left : ℕ) → 0 < left → left ≤ length rest → option_length rest left ≢ fault
unfolding option_length
option_length-ne-fault [] left pos h = absurd (omega arith)
option_length-ne-fault (kind ∷ []) left pos h = ground arith
option_length-ne-fault (kind ∷ size ∷ rest) left pos h = ground arith

abbrev pub concat : List (List ℕ) → List ℕ
concat [] = []
concat (o ∷ os) = o ++ concat os

-- The option is well-formed: by itself it is accepted with its own length.
unfoldable pub IsOption : List ℕ → Type 0
IsOption o = option_length o (length o) ≡ ok (length o)

take-drop : (n : ℕ) (xs : List ℕ) → take n xs ++ drop n xs ≡ xs
take-drop zero xs = refl
take-drop (suc n) [] = refl
take-drop (suc n) (x ∷ xs) = ap (λ ys. x ∷ ys) (take-drop n xs)

take-split : (n m : ℕ) (xs : List ℕ) → n ≤ m → take n xs ++ take (m - n) (drop n xs) ≡ take m xs
take-split zero m xs h = ap (λ k. take k xs) (m-0 m)
  where
    m-0 : (m : ℕ) → m - 0 ≡ m
    m-0 m = omega arith
take-split (suc n) zero xs h = absurd (omega arith)
take-split (suc n) (suc m) [] h = take-nil (suc m - suc n)
  where
    take-nil : (k : ℕ) → take {A = ℕ} k [] ≡ []
    take-nil zero = refl
    take-nil (suc k) = refl
take-split (suc n) (suc m) (x ∷ xs) h =
    let less : suc m - suc n ≡ m - n = omega arith in
    ap (λ ys. x ∷ ys) (rw less (take-split n m xs (omega arith)))

pub Result-cases :
    (r : Result) → ((n : ℕ) × (r ≡ ok n)) ⊎ (((e : Error) × (r ≡ err e)) ⊎ (r ≡ fault))
Result-cases (ok n) = inl (n, refl)
Result-cases (err e) = inr (inl (e, refl))
Result-cases fault = inr (inr refl)

-- What the loop over options may end with.
pub data Walks (rest : List ℕ) (left : ℕ) : Loop (List (List ℕ)) → Type 0 where
  all :
      (options : List (List ℕ))
      → concat options ≡ take left rest
      → Walks rest left (finished options)
  broken :
      (e : Error) (options : List (List ℕ))
      → concat options ≡ rest
      → Walks rest left (failed e options)

Walks-step :
    (rest : List ℕ) (left n : ℕ)
    → n ≤ left
    → {l : Loop (List (List ℕ))} → Walks (drop n rest) (left - n) l
    → Walks rest left (map_loop (λ options. take n rest ∷ options) l)
Walks-step rest left n h (all options e) =
    all (take n rest ∷ options) (ap (λ ys. take n rest ++ ys) e ∙ take-split n left rest h)
Walks-step rest left n h (broken e options eq) =
    broken e (take n rest ∷ options) (ap (λ ys. take n rest ++ ys) eq ∙ take-drop n rest)

nothing : (rest : List ℕ) (left : ℕ) → left ≡ 0 → Walks rest left (finished [])
nothing rest zero e = all [] refl
nothing rest (suc left) e = absurd (omega arith)

pub append-nil : (xs : List ℕ) → xs ++ [] ≡ xs
append-nil [] = refl
append-nil (x ∷ xs) = ap (λ ys. x ∷ ys) (append-nil xs)

-- If the memory `rest` holds the `left` bytes of the options and the fuel is more than `left`,
-- the loop neither reads outside the memory nor lacks fuel: it finishes, and the options that it
-- has seen make up the bytes of the options; or it ends in an error, and the options before the
-- bad one make up the memory with what follows them.
pub options_loop-Walks :
    (fuel : ℕ) (rest : List ℕ) (left : ℕ)
    → left < fuel
    → left ≤ length rest
    → Walks rest left (options_loop fuel rest left)
unfolding options_loop
options_loop-Walks zero rest left hf h = absurd (omega arith)
options_loop-Walks (suc fuel) rest left hf h = elim (Bool-cases (left == 0)) [
  | inl done ↦ rw done (nothing rest left (ground arith))
  | inr more ↦ rw more (elim (Result-cases (option_length rest left)) [
    | inl (n, e) ↦
        let b : (1 ≤ n) × (n ≤ left) = option_length_bounds rest left n (ground arith) e in
        rw e (
          Walks-step rest left n b.1 (
            options_loop-Walks fuel (drop n rest) (left - n) (omega (arith, b.0))
              (omega (arith, length-drop n rest))))
    | inr (inl (e, eq)) ↦ rw eq (broken e (rest ∷ []) (append-nil rest))
    | inr (inr eq) ↦ absurd (option_length-ne-fault rest left (ground arith) h eq)
  ])
]

-- What follows an accepted option does not matter to it.
option_length-append :
    (o more : List ℕ) (k : ℕ)
    → IsOption o
    → option_length (o ++ more) (length o + k) ≡ ok (length o)
unfolding option_length IsOption
option_length-append [] more k h = cc
option_length-append (kind ∷ []) more k h = ground arith
option_length-append (kind ∷ size ∷ rest) more k h = ground arith

option_length-pos : (o : List ℕ) → IsOption o → 1 ≤ length o
unfolding IsOption option_length
option_length-pos [] h = cc
option_length-pos (kind ∷ rest) h = omega arith

take-append : (xs ys : List ℕ) → take (length xs) (xs ++ ys) ≡ xs
take-append [] ys = refl
take-append (x ∷ xs) ys = ap (λ zs. x ∷ zs) (take-append xs ys)

drop-append : (xs ys : List ℕ) → drop (length xs) (xs ++ ys) ≡ ys
drop-append [] ys = refl
drop-append (x ∷ xs) ys = drop-append xs ys

pub append_assoc : (xs ys zs : List ℕ) → (xs ++ ys) ++ zs ≡ xs ++ (ys ++ zs)
append_assoc [] ys zs = refl
append_assoc (x ∷ xs) ys zs = ap (λ ws. x ∷ ws) (append_assoc xs ys zs)

options_loop-step :
    (fuel : ℕ) (rest : List ℕ) (left n : ℕ)
    → 0 < left
    → option_length rest left ≡ ok n
    → options_loop (suc fuel) rest left
      ≡ map_loop (λ options. take n rest ∷ options) (options_loop fuel (drop n rest) (left - n))
unfolding options_loop
options_loop-step fuel rest left n pos e =
    let nonzero : (left == 0) ≡ false = ground arith in rw (nonzero, e) refl

options_loop-end : (fuel : ℕ) (rest : List ℕ) → options_loop (suc fuel) rest 0 ≡ finished []
unfolding options_loop
options_loop-end fuel rest = refl

-- Well-formed options, one behind the other, are walked one by one, whatever follows them, if
-- the fuel is more than their bytes.
pub options_loop-concat :
    (options : List (List ℕ)) (after : List ℕ) (fuel : ℕ)
    → All IsOption options
    → length (concat options) < fuel
    → options_loop fuel (concat options ++ after) (length (concat options)) ≡ finished options
options_loop-concat options after zero all_ok h = absurd (omega arith)
options_loop-concat [] after (suc fuel) all_ok h = options_loop-end fuel after
options_loop-concat (o ∷ options) after (suc fuel) all_ok h =
    let more : List ℕ = concat options ++ after in
    let pos : 1 ≤ length o = option_length-pos o all_ok.0 in
    let total : length (o ++ concat options) ≡ length o + length (concat options) =
      length-append o (concat options) in
    let left : length (o ++ concat options) - length o ≡ length (concat options) = omega arith in
    let accepted : option_length (o ++ more) (length (o ++ concat options)) ≡ ok (length o) =
      rw total (option_length-append o more (length (concat options)) all_ok.0) in
    let walked : options_loop (suc fuel) (o ++ more) (length (o ++ concat options))
        ≡ finished (o ∷ options) =
      options_loop-step fuel (o ++ more) (length (o ++ concat options)) (length o) (omega arith)
        accepted
      ∙ rw
          (
            left,
            take-append o more,
            drop-append o more,
            options_loop-concat options after fuel all_ok.1 (omega arith),
          )
          refl in
    subst
      (λ rest. options_loop (suc fuel) rest (length (o ++ concat options)) ≡ finished (o ∷ options))
      (sym (append_assoc o (concat options) after)) walked
