-- ===== src/HashMap/New.antt =====
-- The number of buckets of a new map, and the new map itself.
use packetdrill.Base.{
  ℕ, zero, suc, ◌+◌, ◌-◌, ◌*◌, ◌^◌, ◌≤◌, ◌<◌, ◌≡◌, refl, true, ◌&&◌, [], Option, none, some, arith,
  Bool-cases, inl, inr, ◌⊎◌, if◌then◌else◌, ltb, length-replicate, sym,
}
use native.Mathlib.Nat.{pow-le-pow_right, one-le-pow}
use packetdrill.HashMap.{
  HashMap, Bucket, empty_map, hash_map_get, hash_map_new, hash_map_pick_bucket_count, pick_loop,
  max_buckets, lookup,
}
use packetdrill.HashMap.Buckets.{get_or-replicate, IsPlaced-replicate}
use packetdrill.HashMap.Laws.{IsValid, place}

-- The count is the least power of two that is at least the number of keys, or 2 ^ 30.
pub record IsPicked (num_keys : ℕ) (r : Option ℕ) : Type 0 where
  pub exponent : ℕ
  pub result : r ≡ some (2 ^ exponent)
  pub bounded : exponent ≤ 30
  pub enough : (num_keys ≤ 2 ^ exponent) ⊎ (exponent ≡ 30)
  pub least : (j : ℕ) → j < exponent → 2 ^ j < num_keys

pow_suc : (k : ℕ) → 2 ^ k * 2 ≡ 2 ^ suc k
pow_suc k = omega arith

IsPicked-stop :
    (num_keys k : ℕ)
    → k ≤ 30
    → ((num_keys ≤ 2 ^ k) ⊎ (k ≡ 30))
    → ((j : ℕ) → j < k → 2 ^ j < num_keys)
    → IsPicked num_keys (some (2 ^ k))
IsPicked-stop num_keys k h enough least = record {
  exponent = k;
  result = refl;
  bounded = h;
  enough = enough;
  least = least;
}

pick_loop-step :
    (fuel num_keys b : ℕ)
    → pick_loop (suc fuel) num_keys b
      ≡ (if ltb b num_keys && ltb b max_buckets then pick_loop fuel num_keys (b * 2) else some b)
unfolding pick_loop
pick_loop-step fuel num_keys b = refl

below_top : (k : ℕ) → k < 30 → 2 ^ k < 2 ^ 30
below_top k h =
    let le : 2 ^ suc k ≤ 2 ^ 30 =
      pow-le-pow_right {n = 2} (omega arith) {i = suc k} {j = 30} (omega arith) in
    omega (arith, one-le-pow k 2 (omega arith), pow_suc k, le)

pick_loop-IsPicked :
    (fuel num_keys k : ℕ)
    → k + fuel ≡ 30
    → ((j : ℕ) → j < k → 2 ^ j < num_keys)
    → IsPicked num_keys (pick_loop (suc fuel) num_keys (2 ^ k))
pick_loop-IsPicked zero num_keys k e least =
    let top : k ≡ 30 = omega arith in
    rw (pick_loop-step zero num_keys (2 ^ k), top)
      (elim (Bool-cases (ltb (2 ^ 30) num_keys)) [
        | inl t ↦ rw t (IsPicked-stop num_keys 30 (omega arith) (inr refl) (rw (sym top) least))
        | inr t ↦ rw t (IsPicked-stop num_keys 30 (omega arith) (inr refl) (rw (sym top) least))
      ])
pick_loop-IsPicked (suc fuel) num_keys k e least =
    rw (pick_loop-step (suc fuel) num_keys (2 ^ k)) (elim (Bool-cases (ltb (2 ^ k) num_keys)) [
      | inr t ↦ rw t (IsPicked-stop num_keys k (omega arith) (inl (ground arith)) least)
      | inl t ↦
          let below : ltb (2 ^ k) max_buckets ≡ true = ground (arith, below_top k (omega arith)) in
          rw (t, below, pow_suc k)
            (pick_loop-IsPicked fuel num_keys (suc k) (omega arith) (λ j h.
              elim (Bool-cases (ltb j k)) [
                | inl less ↦ least j (ground arith)
                | inr same ↦ let e : j ≡ k = ground arith in rw e (ground arith)
              ]))
    ])

-- `hash_map_pick_bucket_count` ends, and picks the least power of two that is at least the number
-- of keys, or 2 ^ 30 if there is none up to that.
pick_bucket_count-IsPicked :
    (num_keys : ℕ) → IsPicked num_keys (hash_map_pick_bucket_count num_keys)
unfolding hash_map_pick_bucket_count
pick_bucket_count-IsPicked num_keys = pick_loop-IsPicked 30 num_keys 0 refl (λ j h. elim h [ ])

-- What a new map is: a valid map in which no key is found.
pub record IsNew (hash_key : ℕ → ℕ) (r : Option HashMap) : Type 0 where
  pub map : HashMap
  pub result : r ≡ some map
  pub valid : IsValid hash_key map
  pub nothing : (key : ℕ) → hash_map_get hash_key map key ≡ none
  pub no_keys : map.num_keys ≡ 0

empty_map-IsNew : (hash_key : ℕ → ℕ) (n : ℕ) → 1 ≤ n → IsNew hash_key (some (empty_map n))
unfolding empty_map hash_map_get lookup
empty_map-IsNew hash_key n h = record {
  map = empty_map n;
  result = refl;
  valid = record {
    size = length-replicate n [];
    mask = omega arith;
    placed = IsPlaced-replicate (place hash_key (n - 1)) n 0;
  };
  nothing = λ key. rw (get_or-replicate {A = Bucket} n (place hash_key (n - 1) key) []) refl;
  no_keys = refl;
}

-- `hash_map_new` makes a valid map without keys, whatever number of keys it is to hold.
hash_map_new-IsNew : (hash_key : ℕ → ℕ) (num_keys : ℕ) → IsNew hash_key (hash_map_new num_keys)
unfolding hash_map_new
hash_map_new-IsNew hash_key num_keys =
    let p : IsPicked num_keys (hash_map_pick_bucket_count num_keys) =
      pick_bucket_count-IsPicked num_keys in
    rw (hash_map_new, p.result)
      (empty_map-IsNew hash_key (2 ^ p.exponent) (one-le-pow p.exponent 2 (omega arith)))
