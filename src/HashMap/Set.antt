-- ===== src/HashMap/Set.antt =====
-- The operations of the hash map as those of a finite map.
use packetdrill.Base.{
  ℕ, ◌+◌, ◌-◌, ◌*◌, ◌≤◌, ◌≡◌, refl, ◌&&◌, [], Option, none, some, ◌==◌, arith, get_or, set,
  length-set, length-replicate, replicate, Bool-cases, inl, inr, if◌then◌else◌, ap, ◌∙◌, sym, ltb,
  leb,
}
use packetdrill.HashMap.{
  HashMap, Bucket, lookup, replace, hash_bucket_num, bucket_of, link_buckets, hash_map_grow,
  add_node, hash_map_insert, hash_map_set, hash_map_get, max_buckets,
}
use packetdrill.HashMap.Buckets.{
  or_else, get_or-replicate, IsPlaced-replicate, IsPlaced-set, get_or-IsPlaced, find_all, get_at,
  get_at-set, find_all-get_at,
}
use packetdrill.HashMap.Laws.{
  IsValid, Links, IsFresh-All, link_buckets-Links, link-IsValid, link-get, place,
  bucket_num-in_range,
}
use packetdrill.HashMap.Replace.{Replaces, IsReplaced, missing, replaced, replace-Replaces}

module _ (hash_key : ℕ → ℕ) where
  -- The map `map'` is valid and holds what `map` does, but `value` at `key`.
  pub record Sets (map map' : HashMap) (key value : ℕ) : Type 0 where
    pub valid : IsValid hash_key map'
    pub get :
        (k : ℕ)
        → hash_map_get hash_key map' k
          ≡ (if key == k then some value else hash_map_get hash_key map k)

  -- An empty map of `n` buckets, whatever its number of keys.
  abbrev blank : ℕ → ℕ → HashMap
  blank keys n = record {
    num_keys = keys;
    num_buckets = n;
    bucket_mask = n - 1;
    buckets = replicate n [];
  }

  blank-IsValid : (keys n : ℕ) → 1 ≤ n → IsValid hash_key (blank keys n)
  blank-IsValid keys n h = record {
    size = length-replicate n [];
    mask = omega arith;
    placed = IsPlaced-replicate (place hash_key (n - 1)) n 0;
  }

  blank-get : (keys n key : ℕ) → hash_map_get hash_key (blank keys n) key ≡ none
  unfolding hash_map_get lookup
  blank-get keys n key = rw (get_or-replicate {A = Bucket} n (place hash_key (n - 1) key) []) refl

  -- `hash_map_grow` keeps a valid map valid, and what is found at every key, for every hash function.
  pub grow_lem :
      (map : HashMap)
      → IsValid hash_key map
      → IsValid hash_key (hash_map_grow hash_key map)
        × ((key : ℕ)
            → hash_map_get hash_key (hash_map_grow hash_key map) key
              ≡ hash_map_get hash_key map key)
  unfolding hash_map_grow hash_map_get
  grow_lem map v =
      let fresh : HashMap = blank map.num_keys (map.num_buckets * 2) in
      let links : Links hash_key fresh (link_buckets hash_key fresh map.buckets)
          (find_all map.buckets) =
        link_buckets-Links hash_key map.buckets fresh (place hash_key map.bucket_mask) 0
          (blank-IsValid map.num_keys (map.num_buckets * 2) (omega (arith, v.mask))) v.placed
          (IsFresh-All hash_key fresh (blank-get map.num_keys (map.num_buckets * 2)) map.buckets) in
      (
        links.valid,
        λ key.
            links.get key
            ∙ ap (or_else (find_all map.buckets key))
                (blank-get map.num_keys (map.num_buckets * 2) key)
            ∙ or_else-none (find_all map.buckets key)
            ∙ found key,
      )
    where
      or_else-none : (x : Option ℕ) → or_else x none ≡ x
      or_else-none none = refl
      or_else-none (some v) = refl

      found : (key : ℕ) → find_all map.buckets key ≡ hash_map_get hash_key map key
      found key = find_all-get_at (place hash_key map.bucket_mask) map.buckets key v.placed

  add_node-Sets :
      (map : HashMap) (key value : ℕ)
      → IsValid hash_key map
      → hash_map_get hash_key map key ≡ none
      → Sets map (add_node hash_key map key value) key value
  unfolding add_node hash_map_get
  add_node-Sets map key value v e =
      let more : HashMap = record map { num_keys = map.num_keys + 1 } in
      let valid_more : IsValid hash_key more = record {
        size = v.size;
        mask = v.mask;
        placed = v.placed;
      } in
      record {
        valid = link-IsValid hash_key more record { key = key; value = value } valid_more e;
        get = λ k. link-get hash_key more record { key = key; value = value } k valid_more;
      }

  missed :
      (map : HashMap) (key : ℕ)
      → lookup (bucket_of hash_key map key) key ≡ none
      → hash_map_get hash_key map key ≡ none
  unfolding hash_map_get
  missed map key e = e

  insert-Sets :
      (map : HashMap) (key value : ℕ)
      → IsValid hash_key map
      → hash_map_get hash_key map key ≡ none
      → Sets map (hash_map_insert hash_key map key value) key value
  unfolding hash_map_insert
  insert-Sets map key value v e =
      elim (Bool-cases (leb map.num_buckets map.num_keys && ltb map.num_buckets max_buckets)) [
        | inl full ↦ rw full (
            let (valid, same) = grow_lem map v in
            let added : Sets (hash_map_grow hash_key map)
                (add_node hash_key (hash_map_grow hash_key map) key value) key value =
              add_node-Sets (hash_map_grow hash_key map) key value valid (same key ∙ e) in
            record {
              valid = added.valid;
              get = λ k. added.get k ∙ ap (λ o. if key == k then some value else o) (same k);
            })
        | inr room ↦ rw room (add_node-Sets map key value v e)
      ]

  write-Sets :
      (map : HashMap) (key value : ℕ) (bucket : Bucket)
      → IsValid hash_key map
      → IsReplaced (bucket_of hash_key map key) key value bucket
      → Sets map
          record map { buckets = set map.buckets (hash_bucket_num hash_key map key) bucket }
          key
          value
  unfolding hash_map_get
  write-Sets map key value bucket v r =
      let pl : ℕ → ℕ = place hash_key map.bucket_mask in
      let (here, distinct) = get_or-IsPlaced pl map.buckets 0 (pl key) v.placed in
      record {
        valid = record {
          size = length-set map.buckets (pl key) bucket ∙ v.size;
          mask = v.mask;
          placed =
              IsPlaced-set pl map.buckets 0 (pl key) bucket v.placed
                (r.keys (λ k. pl k ≡ 0 + pl key) here) (r.distinct distinct);
        };
        get = λ k.
            get_at-set pl map.buckets (pl key) k bucket
              (if key == k then some value else get_at pl map.buckets k)
              (bucket_num-in_range hash_key map key v)
              (λ e.
                r.search k
                ∙ ap (λ j. if key == k then some value else lookup (get_or map.buckets j []) k)
                    (sym e))
              (λ ne. elim (Bool-cases (key == k)) [
                | inl same ↦ absurd (ne (ap pl (ground arith)))
                | inr other ↦ rw other refl
              ]);
      }

  -- `hash_map_set` on a valid map makes a valid map in which `hash_map_get` finds the new value
  -- at the key and at every other key what it found before, whether the key was there or not and
  -- whether the table grows or not, for every hash function.
  pub hash_map_set-Sets :
      (map : HashMap) (key value : ℕ)
      → IsValid hash_key map
      → Sets map (hash_map_set hash_key map key value) key value
  unfolding hash_map_set
  hash_map_set-Sets map key value v =
      outcome (replace (bucket_of hash_key map key) key value)
        (replace-Replaces (bucket_of hash_key map key) key value)
    where
      outcome :
          (o : Option Bucket)
          → Replaces (bucket_of hash_key map key) key value o
          → Sets map
              (elim o [
                | some bucket ↦ record map {
                  buckets = set map.buckets (hash_bucket_num hash_key map key) bucket;
                }
                | none ↦ hash_map_insert hash_key map key value
              ])
              key
              value
      outcome none (missing e) = insert-Sets map key value v (missed map key e)
      outcome (some new) (replaced bucket r) = write-Sets map key value bucket v r
