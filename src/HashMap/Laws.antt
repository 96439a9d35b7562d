-- ===== src/HashMap/Laws.antt =====
-- A valid hash map is a finite map: what is set is got, whatever the hash function is, and the
-- table grows without losing a key.
use packetdrill.Base.{
  ℕ, suc, ◌+◌, ◌<◌, ◌≡◌, ◌≢◌, refl, false, List, [], ◌∷◌, Option, none, some, ◌==◌, arith, bit_and,
  get_or, length, length-set, All, Bool-cases, inl, inr, if◌then◌else◌, ap, ◌∙◌, sym,
}
use packetdrill.HashMap.{
  HashNode, HashMap, Bucket, lookup, hash_bucket_num, hash_map_link, link_nodes, link_buckets,
  hash_map_get,
}
use packetdrill.HashMap.Buckets.{
  bit_and_le, or_else, or_else_assoc, IsDistinct, IsPlaced, lookup-elsewhere, IsPlaced-set,
  get_or-IsPlaced, find_all, get_at-link,
}

module _ (hash_key : ℕ → ℕ) where
  abbrev pub place : ℕ → ℕ → ℕ
  place mask key = bit_and (hash_key key) mask

  -- There are as many buckets as the map says, one more than the mask, and each key stands at most
  -- once, in the bucket that its hash names.
  pub record IsValid (map : HashMap) : Type 0 where
    pub size : length map.buckets ≡ map.num_buckets
    pub mask : map.bucket_mask + 1 ≡ map.num_buckets
    pub placed : IsPlaced (place map.bucket_mask) 0 map.buckets

  pub bucket_num-in_range :
      (map : HashMap) (key : ℕ)
      → IsValid map
      → hash_bucket_num hash_key map key < length map.buckets
  bucket_num-in_range map key v =
      omega (arith, bit_and_le (hash_key key) map.bucket_mask, v.size, v.mask)

  pub link-get :
      (map : HashMap) (node : HashNode) (key : ℕ)
      → IsValid map
      → hash_map_get hash_key (hash_map_link hash_key map node) key
        ≡ (if node.key == key then some node.value else hash_map_get hash_key map key)
  unfolding hash_map_get hash_map_link
  link-get map node key v =
      get_at-link (place map.bucket_mask) map.buckets node key (bucket_num-in_range map node.key v)

  pub link-IsValid :
      (map : HashMap) (node : HashNode)
      → IsValid map
      → hash_map_get hash_key map node.key ≡ none
      → IsValid (hash_map_link hash_key map node)
  unfolding hash_map_get hash_map_link IsDistinct
  link-IsValid map node v fresh =
      let bucket : Bucket = get_or map.buckets (place map.bucket_mask node.key) [] in
      let (here, distinct) =
        get_or-IsPlaced (place map.bucket_mask) map.buckets 0 (place map.bucket_mask node.key)
          v.placed in
      record {
        size = length-set map.buckets (place map.bucket_mask node.key) (node ∷ bucket) ∙ v.size;
        mask = v.mask;
        placed =
            IsPlaced-set (place map.bucket_mask) map.buckets 0 (place map.bucket_mask node.key)
              (node ∷ bucket) v.placed (omega arith, here) (fresh, distinct);
      }

  -- What linking the nodes of an old bucket, or of all, does to the map.
  pub record Links (map map' : HashMap) (found : ℕ → Option ℕ) : Type 0 where
    pub valid : IsValid map'
    pub get :
        (key : ℕ)
        → hash_map_get hash_key map' key ≡ or_else (found key) (hash_map_get hash_key map key)

  pub IsFresh : HashMap → Bucket → Type 0
  IsFresh map bucket = All (λ (node : HashNode). hash_map_get hash_key map node.key ≡ none) bucket

  IsFresh-rest :
      (map map' : HashMap) (node : HashNode) (next : Bucket)
      → ((key : ℕ)
          → hash_map_get hash_key map' key
            ≡ (if node.key == key then some node.value else hash_map_get hash_key map key))
      → lookup next node.key ≡ none
      → IsFresh map next
      → IsFresh map' next
  unfolding IsFresh lookup
  IsFresh-rest map map' node [] g e f = tt
  IsFresh-rest map map' node (n ∷ next) g e f = elim (Bool-cases (n.key == node.key)) [
    | inl same ↦ absurd (ground (arith, e, same))
    | inr other ↦
        let ne : (node.key == n.key) ≡ false = ground arith in
        (g n.key ∙ rw ne f.0, IsFresh-rest map map' node next g (ground (arith, e, other)) f.1)
  ]

  got :
      (node : HashNode) (next : Bucket) (map : HashMap) (key : ℕ)
      → lookup next node.key ≡ none
      → hash_map_get hash_key (hash_map_link hash_key map node) key
        ≡ (if node.key == key then some node.value else hash_map_get hash_key map key)
      → or_else (lookup next key) (hash_map_get hash_key (hash_map_link hash_key map node) key)
        ≡ or_else (lookup (node ∷ next) key) (hash_map_get hash_key map key)
  unfolding lookup
  got node next map key e g = elim (Bool-cases (node.key == key)) [
    | inl same ↦
        let none_next : lookup next key ≡ none = ap (lookup next) (ground arith) ∙ e in
        rw (g, same, none_next) refl
    | inr other ↦ rw (g, other) refl
  ]

  link_nodes-Links :
      (bucket : Bucket) (map : HashMap)
      → IsValid map
      → IsDistinct bucket
      → IsFresh map bucket
      → Links map (link_nodes hash_key map bucket) (lookup bucket)
  unfolding link_nodes lookup IsDistinct IsFresh
  link_nodes-Links [] map v d f = record { valid = v; get = λ key. refl }
  link_nodes-Links (node ∷ next) map v d f =
      let linked : IsValid (hash_map_link hash_key map node) = link-IsValid map node v f.0 in
      let rest : Links (hash_map_link hash_key map node)
          (link_nodes hash_key (hash_map_link hash_key map node) next) (lookup next) =
        link_nodes-Links next (hash_map_link hash_key map node) linked d.1 (
          IsFresh-rest map (hash_map_link hash_key map node) node next
            (λ key. link-get map node key v) d.0 f.1) in
      record {
        valid = rest.valid;
        get = λ key. rest.get key ∙ got node next map key d.0 (link-get map node key v);
      }

  IsFresh-linked :
      (bucket linked : Bucket) (map map' : HashMap) (pl : ℕ → ℕ) (i j : ℕ)
      → i < j
      → All (λ (node : HashNode). pl node.key ≡ i) linked
      → All (λ (node : HashNode). pl node.key ≡ j) bucket
      → ((key : ℕ)
          → hash_map_get hash_key map' key
            ≡ or_else (lookup linked key) (hash_map_get hash_key map key))
      → IsFresh map bucket
      → IsFresh map' bucket
  unfolding IsFresh
  IsFresh-linked [] linked map map' pl i j h a b g f = tt
  IsFresh-linked (node ∷ next) linked map map' pl i j h a b g f =
      let ne : pl node.key ≢ i = λ e. omega (arith, b.0, e) in
      (
        g node.key ∙ rw (lookup-elsewhere pl linked i node.key a ne) f.0,
        IsFresh-linked next linked map map' pl i j h a b.1 g f.1,
      )

  All-IsFresh-linked :
      (buckets : List Bucket) (linked : Bucket) (map map' : HashMap) (pl : ℕ → ℕ) (i j : ℕ)
      → i < j
      → All (λ (node : HashNode). pl node.key ≡ i) linked
      → IsPlaced pl j buckets
      → ((key : ℕ)
          → hash_map_get hash_key map' key
            ≡ or_else (lookup linked key) (hash_map_get hash_key map key))
      → All (IsFresh map) buckets
      → All (IsFresh map') buckets
  unfolding IsPlaced
  All-IsFresh-linked [] linked map map' pl i j h a p g f = tt
  All-IsFresh-linked (bucket ∷ buckets) linked map map' pl i j h a p g f = (
    IsFresh-linked bucket linked map map' pl i j h a p.0.0 g f.0,
    All-IsFresh-linked buckets linked map map' pl i (suc j) (omega arith) a p.1 g f.1,
  )

  pub link_buckets-Links :
      (buckets : List Bucket) (map : HashMap) (pl : ℕ → ℕ) (i : ℕ)
      → IsValid map
      → IsPlaced pl i buckets
      → All (IsFresh map) buckets
      → Links map (link_buckets hash_key map buckets) (find_all buckets)
  unfolding link_buckets find_all IsPlaced
  link_buckets-Links [] map pl i v p f = record { valid = v; get = λ key. refl }
  link_buckets-Links (bucket ∷ buckets) map pl i v p f =
      let one : Links map (link_nodes hash_key map bucket) (lookup bucket) =
        link_nodes-Links bucket map v p.0.1 f.0 in
      let rest : Links (link_nodes hash_key map bucket)
          (link_buckets hash_key (link_nodes hash_key map bucket) buckets) (find_all buckets) =
        link_buckets-Links buckets (link_nodes hash_key map bucket) pl (suc i) one.valid p.1 (
          All-IsFresh-linked buckets bucket map (link_nodes hash_key map bucket) pl i (suc i)
            (omega arith) p.0.0 p.1 one.get f.1) in
      record {
        valid = rest.valid;
        get = λ key.
            rest.get key
            ∙ ap (or_else (find_all buckets key)) (one.get key)
            ∙ sym (
                or_else_assoc (find_all buckets key) (lookup bucket key)
                  (hash_map_get hash_key map key));
      }

  pub IsFresh-All :
      (map : HashMap)
      → ((key : ℕ) → hash_map_get hash_key map key ≡ none)
      → (buckets : List Bucket) → All (IsFresh map) buckets
  unfolding IsFresh
  IsFresh-All map e [] = tt
  IsFresh-All map e (bucket ∷ buckets) = (inner bucket, IsFresh-All map e buckets)
    where
      inner :
          (bucket : Bucket)
          → All (λ (node : HashNode). hash_map_get hash_key map node.key ≡ none) bucket
      inner [] = tt
      inner (node ∷ next) = (e node.key, inner next)
