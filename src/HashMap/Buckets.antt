-- ===== src/HashMap/Buckets.antt =====
-- Buckets by themselves: searching, replacing, and the array of buckets when each key has its
-- place in it.
use packetdrill.Base.{
  ℕ, zero, suc, ◌+◌, ◌≤◌, ◌<◌, ◌/◌, ◌≡◌, ◌≢◌, refl, List, [], ◌∷◌, Option, none, some, ◌==◌, arith,
  bit_and, min, get_or, set, length, replicate, All, Bool-cases, inl, inr, if◌then◌else◌, ap, ◌∙◌,
  sym, subst,
}
use packetdrill.HashMap.{HashNode, Bucket, lookup}
use Prim.Native.Nat.{digits, bit_and-bitwise}

digits_le : (n a b : ℕ) → digits (λ b. zero) min n a b ≤ b
digits_le zero a b = omega arith
digits_le (suc n) zero b = omega arith
digits_le (suc n) (suc a) b = omega (arith, digits_le n (suc a / 2) (b / 2))

pub bit_and_le : (a b : ℕ) → bit_and a b ≤ b
bit_and_le a b = omega (arith, bit_and-bitwise a b, digits_le a a b)

-- The first of two results that is there.
abbrev pub or_else : Option ℕ → Option ℕ → Option ℕ
or_else none y = y
or_else (some v) y = some v

pub or_else_assoc : (x y z : Option ℕ) → or_else (or_else x y) z ≡ or_else x (or_else y z)
or_else_assoc none y z = refl
or_else_assoc (some v) y z = refl

-- No key stands twice in a bucket.
unfoldable pub IsDistinct : Bucket → Type 0
IsDistinct [] = Unit
IsDistinct (node ∷ next) = (lookup next node.key ≡ none) × IsDistinct next

pub get_or-set_self :
    {A : Type 0} (xs : List A) (i : ℕ) (x d : A) → i < length xs → get_or (set xs i x) i d ≡ x
get_or-set_self [] i x d h = elim h [ ]
get_or-set_self (y ∷ xs) zero x d h = refl
get_or-set_self (y ∷ xs) (suc i) x d h = get_or-set_self xs i x d (omega arith)

pub get_or-set_ne :
    {A : Type 0} (xs : List A) (i j : ℕ) (x d : A) → i ≢ j → get_or (set xs i x) j d ≡ get_or xs j d
get_or-set_ne [] i j x d h = refl
get_or-set_ne (y ∷ xs) zero zero x d h = absurd (h refl)
get_or-set_ne (y ∷ xs) zero (suc j) x d h = refl
get_or-set_ne (y ∷ xs) (suc i) zero x d h = refl
get_or-set_ne (y ∷ xs) (suc i) (suc j) x d h = get_or-set_ne xs i j x d (λ e. h (ap suc e))

pub get_or-replicate : {A : Type 0} (n i : ℕ) (d : A) → get_or (replicate n d) i d ≡ d
get_or-replicate zero i d = refl
get_or-replicate (suc n) zero d = refl
get_or-replicate (suc n) (suc i) d = get_or-replicate n i d

-- The buckets from number `i` on hold distinct keys that belong there.
module _ (place : ℕ → ℕ) where
  unfoldable pub IsPlaced : ℕ → List Bucket → Type 0
  IsPlaced i [] = Unit
  IsPlaced i (bucket ∷ buckets) =
      (All (λ (node : HashNode). place node.key ≡ i) bucket × IsDistinct bucket)
      × IsPlaced (suc i) buckets

  pub lookup-elsewhere :
      (bucket : Bucket) (i key : ℕ)
      → All (λ (node : HashNode). place node.key ≡ i) bucket
      → place key ≢ i
      → lookup bucket key ≡ none
  unfolding lookup
  lookup-elsewhere [] i key h ne = refl
  lookup-elsewhere (node ∷ next) i key h ne = elim (Bool-cases (node.key == key)) [
    | inl same ↦ absurd (ne (ap place (ground arith) ∙ h.0))
    | inr other ↦ rw other (lookup-elsewhere next i key h.1 ne)
  ]

  pub IsPlaced-replicate : (n i : ℕ) → IsPlaced i (replicate n [])
  unfolding IsPlaced IsDistinct
  IsPlaced-replicate zero i = tt
  IsPlaced-replicate (suc n) i = ((tt, tt), IsPlaced-replicate n (suc i))

  -- A bucket of valid ones may be replaced by another with distinct keys that belong there.
  pub IsPlaced-set :
      (buckets : List Bucket) (i j : ℕ) (bucket : Bucket)
      → IsPlaced i buckets
      → All (λ (node : HashNode). place node.key ≡ i + j) bucket
      → IsDistinct bucket
      → IsPlaced i (set buckets j bucket)
  unfolding IsPlaced
  IsPlaced-set [] i j bucket p a d = tt
  IsPlaced-set (b ∷ buckets) i zero bucket p a d =
      ((subst (λ k. All (λ (node : HashNode). place node.key ≡ k) bucket) (omega arith) a, d), p.1)
  IsPlaced-set (b ∷ buckets) i (suc j) bucket p a d = (
    p.0,
    IsPlaced-set buckets (suc i) j bucket p.1
        (subst (λ k. All (λ (node : HashNode). place node.key ≡ k) bucket) (omega arith) a) d,
  )

  pub get_or-IsPlaced :
      (buckets : List Bucket) (i j : ℕ)
      → IsPlaced i buckets
      → All (λ (node : HashNode). place node.key ≡ i + j) (get_or buckets j [])
        × IsDistinct (get_or buckets j [])
  unfolding IsPlaced IsDistinct
  get_or-IsPlaced [] i j p = (tt, tt)
  get_or-IsPlaced (b ∷ buckets) i zero p =
      (subst (λ k. All (λ (node : HashNode). place node.key ≡ k) b) (omega arith) p.0.0, p.0.1)
  get_or-IsPlaced (b ∷ buckets) i (suc j) p =
      let (a, d) = get_or-IsPlaced buckets (suc i) j p.1 in
      (
        subst (λ k. All (λ (node : HashNode). place node.key ≡ k) (get_or buckets j []))
            (omega arith) a,
        d,
      )

  lookup-head :
      (node : HashNode) (key : ℕ) (next : Bucket) (rest : Option ℕ)
      → (place key ≡ place node.key → lookup next key ≡ rest)
      → place key ≡ place node.key
      → lookup (node ∷ next) key ≡ (if node.key == key then some node.value else rest)
  unfolding lookup
  lookup-head node key next rest h e = rw (h e) refl

  -- The search for a key in its place.
  abbrev pub get_at : List Bucket → ℕ → Option ℕ
  get_at buckets key = lookup (get_or buckets (place key) []) key

  -- Writing a bucket changes the search for the keys that belong there as far as the bucket says.
  pub get_at-set :
      (buckets : List Bucket) (j key : ℕ) (bucket : Bucket) (found : Option ℕ)
      → j < length buckets
      → (place key ≡ j → lookup bucket key ≡ found)
      → (place key ≢ j → get_at buckets key ≡ found)
      → get_at (set buckets j bucket) key ≡ found
  get_at-set buckets j key bucket found h here there = elim (Bool-cases (place key == j)) [
    | inl same ↦
        let e : place key ≡ j = ground arith in
        rw (e, get_or-set_self buckets j bucket [] h) (here e)
    | inr other ↦
        let ne : place key ≢ j = ground arith in
        rw (get_or-set_ne buckets j (place key) bucket [] (λ e. ne (sym e))) (there ne)
  ]

  pub get_at-link :
      (buckets : List Bucket) (node : HashNode) (key : ℕ)
      → place node.key < length buckets
      → get_at (set buckets (place node.key) (node ∷ get_or buckets (place node.key) [])) key
        ≡ (if node.key == key then some node.value else get_at buckets key)
  get_at-link buckets node key h =
      get_at-set buckets (place node.key) key (node ∷ get_or buckets (place node.key) [])
        (if node.key == key then some node.value else get_at buckets key) h
        (lookup-head node key (get_or buckets (place node.key) []) (get_at buckets key)
          (λ e. ap (λ j. lookup (get_or buckets j []) key) (sym e)))
        (λ ne. elim (Bool-cases (node.key == key)) [
          | inl same ↦ absurd (ne (ap place (ground arith)))
          | inr other ↦ rw other refl
        ])

-- What a search of all buckets finds, the last bucket first.
unfoldable pub find_all : List Bucket → ℕ → Option ℕ
find_all [] key = none
find_all (bucket ∷ buckets) key = or_else (find_all buckets key) (lookup bucket key)

or_else-none : (x : Option ℕ) → or_else x none ≡ x
or_else-none none = refl
or_else-none (some v) = refl

-- Each key is in its place, so the search of all buckets is that of one.
module _ (place : ℕ → ℕ) where
  find_all-below :
      (buckets : List Bucket) (i key : ℕ)
      → IsPlaced place i buckets
      → place key < i
      → find_all buckets key ≡ none
  unfolding find_all IsPlaced
  find_all-below [] i key p h = refl
  find_all-below (bucket ∷ buckets) i key p h =
      let ne : place key ≢ i = λ e. omega arith in
      rw
        (
          find_all-below buckets (suc i) key p.1 (omega arith),
          lookup-elsewhere place bucket i key p.0.0 ne,
        )
        refl

  find_all-at :
      (buckets : List Bucket) (i j key : ℕ)
      → IsPlaced place i buckets
      → place key ≡ i + j
      → find_all buckets key ≡ lookup (get_or buckets j []) key
  unfolding find_all IsPlaced lookup
  find_all-at [] i j key p e = refl
  find_all-at (bucket ∷ buckets) i zero key p e =
      rw (find_all-below buckets (suc i) key p.1 (omega arith)) refl
  find_all-at (bucket ∷ buckets) i (suc j) key p e =
      let ne : place key ≢ i = λ d. omega arith in
      rw
        (
          find_all-at buckets (suc i) j key p.1 (omega arith),
          lookup-elsewhere place bucket i key p.0.0 ne,
        )
        (or_else-none (lookup (get_or buckets j []) key))

  pub find_all-get_at :
      (buckets : List Bucket) (key : ℕ)
      → IsPlaced place 0 buckets
      → find_all buckets key ≡ get_at place buckets key
  find_all-get_at buckets key p = find_all-at buckets 0 (place key) key p (omega arith)
