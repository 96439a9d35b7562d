-- ===== src/Tests/Maps.antt =====
-- The hash map on a concrete table, with a hash function of its own.
use packetdrill.Base.{ℕ, ◌*◌, ◌≡◌, refl, [], ◌∷◌, some}
use packetdrill.HashMap.{HashMap, lookup, hash_map_set, hash_map_get, hash_map_grow}
use packetdrill.HashMap.Buckets.{IsPlaced, IsDistinct}
use packetdrill.HashMap.Laws.{IsValid}
use packetdrill.HashMap.Set.{Sets, hash_map_set-Sets, grow_lem}

abbrev times_seven : ℕ → ℕ
times_seven key = key * 7

-- Two keys in two buckets: the next insertion grows the table.
abbrev full_table : HashMap
full_table = record {
  num_keys = 2;
  num_buckets = 2;
  bucket_mask = 1;
  buckets = (record { key = 2; value = 20 } ∷ []) ∷ (record { key = 3; value = 30 } ∷ []) ∷ [];
}

full_table-IsValid : IsValid times_seven full_table
unfolding IsPlaced IsDistinct lookup
full_table-IsValid = record {
  size = refl;
  mask = refl;
  placed = (((refl, tt), (refl, tt)), (((refl, tt), (refl, tt)), tt));
}

grown : hash_map_get times_seven (hash_map_set times_seven full_table 6 60) 3 ≡ some 30
unfolding hash_map_get hash_map_set
grown = refl

hash_map_set-Sets_example :
    Sets times_seven full_table (hash_map_set times_seven full_table 6 60) 6 60
hash_map_set-Sets_example = hash_map_set-Sets times_seven full_table 6 60 full_table-IsValid

grow_lem_example :
    IsValid times_seven (hash_map_grow times_seven full_table)
    × ((key : ℕ)
        → hash_map_get times_seven (hash_map_grow times_seven full_table) key
          ≡ hash_map_get times_seven full_table key)
grow_lem_example = grow_lem times_seven full_table full_table-IsValid
