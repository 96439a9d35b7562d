-- ===== src/SctpRewrite/Whole.antt =====
-- The translated chunks are whole again, with the same lengths.
use packetdrill.Base.{
  ℕ, ◌+◌, ◌*◌, ◌^◌, ◌<◌, ◌≡◌, refl, true, false, Bool, List, [], ◌∷◌, length, map, arith, All, u32,
  ◌==◌, if◌then◌else◌, ap,
}
use packetdrill.SctpRewrite.Layout.{
  Layout, numbered, plain, sack, init, chunk_bytes, IsWhole, translated,
}
use packetdrill.SctpRewrite.Chunks.{length-map}

module _ (own peer from to : ℕ) where
  pub chunk_bytes-translated :
      (c : Layout) → chunk_bytes (translated own peer from to c) ≡ chunk_bytes c
  chunk_bytes-translated (numbered k f n tsn rest) = refl
  chunk_bytes-translated (plain k f n rest) = refl
  chunk_bytes-translated (sack f cum_tsn a_rwnd gaps dups) =
      ap (λ (l : ℕ). 16 + 4 * (l + length gaps)) (length-map (λ v. u32 (v + peer)) dups)
  chunk_bytes-translated (init is_ack f n tag a_rwnd streams tsn rest) = refl

  pub translated-IsWhole :
      (c : Layout) → to < 2 ^ 32 → IsWhole c → IsWhole (translated own peer from to c)
  translated-IsWhole (numbered k f n tsn rest) t (h, l, b, e) = (omega arith, l, b, e)
  translated-IsWhole (plain k f n rest) t w = w
  translated-IsWhole (sack f cum_tsn a_rwnd gaps dups) t (h, l, hs) =
      (omega arith, rw (length-map (λ v. u32 (v + peer)) dups) l, small dups)
    where
      small : (vs : List ℕ) → All (λ v. v < 2 ^ 32) (map (λ v. u32 (v + peer)) vs)
      small [] = tt
      small (v ∷ vs) = (omega arith, small vs)
  translated-IsWhole (init is_ack f n tag a_rwnd streams tsn rest) t (h, k, l, b, e) =
      (omega arith, chosen (tag == from), l, b, e)
    where
      chosen : (b : Bool) → (if b then to else tag) < 2 ^ 32
      chosen true = t
      chosen false = k
