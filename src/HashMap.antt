-- ===== src/HashMap.antt =====
-- The hash map from u32 to u32 of gtests/net/packetdrill/hash_map.c and hash_map.h, which holds the
-- mapping of TCP timestamps of a socket. The hash function (`MurmurHash3_x86_32` with seed 0 on
-- the key's bytes) is a parameter.
pub mod Buckets
pub mod Replace
pub mod Laws
pub mod Set
pub mod New
use packetdrill.Base.{
  ℕ, zero, suc, ◌+◌, ◌-◌, ◌*◌, ◌^◌, Bool, true, false, ◌&&◌, List, [], ◌∷◌, Option, none, some, ltb,
  leb, ◌==◌, if◌then◌else◌, bit_and, get_or, set, replicate,
}

-- `struct hash_node`; the list linked by `next` is a list.
pub record HashNode : Type 0 where
  pub key : ℕ
  pub value : ℕ

abbrev pub Bucket : Type 0
Bucket = List HashNode

-- `struct hash_map`.
pub record HashMap : Type 0 where
  pub num_keys : ℕ
  pub num_buckets : ℕ
  pub bucket_mask : ℕ
  pub buckets : List Bucket

abbrev pub max_buckets : ℕ
max_buckets = 1073741824

-- The `while` loop on `buckets`, with fuel.
unfoldable pub pick_loop : ℕ → ℕ → ℕ → Option ℕ
pick_loop zero num_keys buckets = none
pick_loop (suc fuel) num_keys buckets =
    let rest = pick_loop fuel num_keys (buckets * 2) in
    if ltb buckets num_keys && ltb buckets max_buckets then rest else some buckets

unfoldable pub hash_map_pick_bucket_count : ℕ → Option ℕ
unfolding pick_loop
hash_map_pick_bucket_count num_keys = pick_loop 31 num_keys 1

-- A map of `num_buckets` empty buckets.
unfoldable pub empty_map : ℕ → HashMap
empty_map num_buckets = record {
  num_keys = 0;
  num_buckets = num_buckets;
  bucket_mask = num_buckets - 1;
  buckets = replicate num_buckets [];
}

unfoldable pub hash_map_new : ℕ → Option HashMap
unfolding hash_map_pick_bucket_count empty_map
hash_map_new num_keys = elim (hash_map_pick_bucket_count num_keys) [
  | none ↦ none
  | some n ↦ some (empty_map n)
]

module _ (hash_key : ℕ → ℕ) where
  abbrev pub hash_bucket_num : HashMap → ℕ → ℕ
  hash_bucket_num map key = bit_and (hash_key key) map.bucket_mask

  -- The bucket of a key. The number is less than `num_buckets` in a valid map.
  abbrev pub bucket_of : HashMap → ℕ → Bucket
  bucket_of map key = get_or map.buckets (hash_bucket_num map key) []

  unfoldable pub hash_map_link : HashMap → HashNode → HashMap
  hash_map_link map node = record map {
    buckets = set map.buckets (hash_bucket_num map node.key) (node ∷ bucket_of map node.key);
  }

  -- The inner loop of `hash_map_grow`.
  unfoldable pub link_nodes : HashMap → Bucket → HashMap
  unfolding hash_map_link
  link_nodes map [] = map
  link_nodes map (node ∷ next) = link_nodes (hash_map_link map node) next

  unfoldable pub link_buckets : HashMap → List Bucket → HashMap
  unfolding link_nodes
  link_buckets map [] = map
  link_buckets map (bucket ∷ old_buckets) = link_buckets (link_nodes map bucket) old_buckets

  unfoldable pub hash_map_grow : HashMap → HashMap
  unfolding link_buckets
  hash_map_grow map =
      link_buckets
        record {
          num_keys = map.num_keys;
          num_buckets = map.num_buckets * 2;
          bucket_mask = map.num_buckets * 2 - 1;
          buckets = replicate (map.num_buckets * 2) [];
        }
        map.buckets

  unfoldable pub add_node : HashMap → ℕ → ℕ → HashMap
  unfolding hash_map_link
  add_node map key value =
      hash_map_link record map { num_keys = map.num_keys + 1 } record { key = key; value = value }

  unfoldable pub hash_map_insert : HashMap → ℕ → ℕ → HashMap
  unfolding hash_map_grow add_node
  hash_map_insert map key value =
      add_node
        (if leb map.num_buckets map.num_keys && ltb map.num_buckets max_buckets
          then hash_map_grow map
          else map)
        key value

-- Searches a bucket.
unfoldable pub lookup : Bucket → ℕ → Option ℕ
lookup [] key = none
lookup (node ∷ next) key = if node.key == key then some node.value else lookup next key

-- Replaces the value of a key in a bucket; `none` if the key is not there.
unfoldable pub replace : Bucket → ℕ → ℕ → Option Bucket
replace [] key value = none
replace (node ∷ next) key value =
    let rest = replace next key value in
    if node.key == key
    then some (record { key = node.key; value = value } ∷ next)
    else elim rest [ none ↦ none | some bucket ↦ some (node ∷ bucket) ]

module _ (hash_key : ℕ → ℕ) where
  unfoldable pub hash_map_set : HashMap → ℕ → ℕ → HashMap
  unfolding replace hash_map_insert
  hash_map_set map key value = elim (replace (bucket_of hash_key map key) key value) [
    | some bucket ↦ record map {
      buckets = set map.buckets (hash_bucket_num hash_key map key) bucket;
    }
    | none ↦ hash_map_insert hash_key map key value
  ]

  -- `none` is `false`.
  unfoldable pub hash_map_get : HashMap → ℕ → Option ℕ
  unfolding lookup
  hash_map_get map key = lookup (bucket_of hash_key map key) key
