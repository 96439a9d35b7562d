-- ===== src/SctpRewrite/Numbers.antt =====
-- What the live numbers of a chunk are, without the differences that the program computes.
use packetdrill.Base.{
  ℕ, ◌+◌, ◌-◌, ◌^◌, ◌<◌, ◌≡◌, refl, ap, ap₂, Bool, true, false, List, [], ◌∷◌, map, arith, ◌==◌,
  if◌then◌else◌, u32, subst,
}
use packetdrill.Connect.{TestSocket}
use packetdrill.SctpRewrite.{difference}
use packetdrill.SctpRewrite.Inbound.{remote_to_live, local_to_live}
use packetdrill.SctpRewrite.Layout.{
  Layout, numbered, plain, sack, init, IsWhole, translated, is_own,
}
use packetdrill.SctpRewrite.Whole.{translated-IsWhole}

-- The numbers of the socket have 32 bits.
pub record HasWords (socket : TestSocket) : Type 0 where
  pub script_local : socket.script.local_initial_tsn < 2 ^ 32
  pub script_remote : socket.script.remote_initial_tsn < 2 ^ 32
  pub live_local : socket.live.local_initial_tsn < 2 ^ 32
  pub live_remote : socket.live.remote_initial_tsn < 2 ^ 32
  pub script_tag : socket.script.local_initiate_tag < 2 ^ 32
  pub live_tag : socket.live.local_initiate_tag < 2 ^ 32

-- The number as far behind `to` as `v` is behind `from`, around the circle of the 32-bit words.
abbrev pub rebased : ℕ → ℕ → ℕ → ℕ
rebased from to v = u32 (to + u32 (v + 2 ^ 32 - from))

-- The chunk with the sender's numbers taken by `own`, those of the peer that it answers by `peer`, and
-- the tag `from` replaced by `to`.
module _ (own peer : ℕ → ℕ) (from to : ℕ) where
  abbrev pub with_numbers : Layout → Layout
  with_numbers (numbered k f n tsn rest) =
      numbered k f n (if is_own k then own tsn else peer tsn) rest
  with_numbers (plain k f n rest) = plain k f n rest
  with_numbers (sack f cum_tsn a_rwnd gaps dups) = sack f (peer cum_tsn) a_rwnd gaps (map peer dups)
  with_numbers (init is_ack f n tag a_rwnd streams tsn rest) =
      init is_ack f n (if tag == from then to else tag) a_rwnd streams (own tsn) rest

-- From the script's initial TSNs to the live ones: the TSNs of the peer that the script plays, and
-- those of the local side.
abbrev pub remote_live : TestSocket → ℕ → ℕ
remote_live socket = rebased socket.script.remote_initial_tsn socket.live.remote_initial_tsn

abbrev pub local_live : TestSocket → ℕ → ℕ
local_live socket = rebased socket.script.local_initial_tsn socket.live.local_initial_tsn

abbrev pub sent_by_peer : TestSocket → Layout → Layout
sent_by_peer socket =
    with_numbers (remote_live socket) (local_live socket) socket.script.local_initiate_tag
      socket.live.local_initiate_tag

-- The chunk as the local side sends it where the script has `c`.
abbrev pub sent_for : TestSocket → Layout → Layout
sent_for socket =
    with_numbers (local_live socket) (remote_live socket) socket.script.local_initiate_tag
      socket.live.local_initiate_tag

rebased-difference :
    (from to v : ℕ) → from < 2 ^ 32 → to < 2 ^ 32 → u32 (v + difference to from) ≡ rebased from to v
rebased-difference from to v hf ht = omega arith

module _ (a b : ℕ) (own peer : ℕ → ℕ) (from to : ℕ) (by_own : (v : ℕ) → u32 (v + a) ≡ own v)
    (by_peer : (v : ℕ) → u32 (v + b) ≡ peer v) where
  translated-with_numbers :
      (c : Layout) → translated a b from to c ≡ with_numbers own peer from to c
  translated-with_numbers (numbered k f n tsn rest) =
      ap (λ v. numbered k f n v rest) (by_side (is_own k))
    where
      by_side :
          (side : Bool) → u32 (tsn + (if side then a else b)) ≡ (if side then own tsn else peer tsn)
      by_side true = by_own tsn
      by_side false = by_peer tsn
  translated-with_numbers (plain k f n rest) = refl
  translated-with_numbers (sack f cum_tsn a_rwnd gaps dups) =
      ap₂ (λ v vs. sack f v a_rwnd gaps vs) (by_peer cum_tsn) (each dups)
    where
      each : (vs : List ℕ) → map (λ v. u32 (v + b)) vs ≡ map peer vs
      each [] = refl
      each (v ∷ vs) = ap₂ (λ x xs. x ∷ xs) (by_peer v) (each vs)
  translated-with_numbers (init is_ack f n tag a_rwnd streams tsn rest) =
      ap (λ v. init is_ack f n (if tag == from then to else tag) a_rwnd streams v rest) (by_own tsn)

module _ (socket : TestSocket) (s : HasWords socket) where
  remote_moves : (v : ℕ) → u32 (v + remote_to_live socket) ≡ remote_live socket v
  remote_moves v = rebased-difference _ _ v s.script_remote s.live_remote

  local_moves : (v : ℕ) → u32 (v + local_to_live socket) ≡ local_live socket v
  local_moves v = rebased-difference _ _ v s.script_local s.live_local

  pub translated-sent_by_peer :
      (cs : List Layout)
      → map
          (translated
            (remote_to_live socket)
            (local_to_live socket)
            socket.script.local_initiate_tag
            socket.live.local_initiate_tag)
          cs
        ≡ map (sent_by_peer socket) cs
  translated-sent_by_peer [] = refl
  translated-sent_by_peer (c ∷ cs) =
      ap₂ (λ x xs. x ∷ xs) (translated-with_numbers _ _ _ _ _ _ remote_moves local_moves c)
        (translated-sent_by_peer cs)

  pub sent_for-IsWhole : (c : Layout) → IsWhole c → IsWhole (sent_for socket c)
  sent_for-IsWhole c w =
      subst IsWhole (translated-with_numbers _ _ _ _ _ _ local_moves remote_moves c) (
        translated-IsWhole (local_to_live socket) (remote_to_live socket)
          socket.script.local_initiate_tag socket.live.local_initiate_tag c s.live_tag w)
