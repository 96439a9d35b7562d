-- ===== src/TcpOptions/Loops.antt =====
-- The loops `for (option = tcp_options_begin(...); option != NULL; option = tcp_options_next(...))`
-- of run_packet.c, and the loop by itself, which collects the options. Each recurs on fuel; every
-- option has at least one byte, so one more than the bytes of the options is enough.
use packetdrill.Base.{
  ℕ, zero, suc, ◌+◌, ◌-◌, ◌*◌, Bool, false, Option, some, none, List, [], ◌∷◌, ◌++◌, ◌==◌,
  if◌then◌else◌, take, drop, be32, be32_bytes, u32,
}
use packetdrill.TcpOptions.{
  Error, ok, err, fault, option_length, num_sack_blocks, tcpopt_sack, tcpopt_timestamp,
}

-- How a loop over options ends: by the end of the options, by an error, by a read outside the
-- memory, or in the model by lack of fuel. The state `A` is what the loop has made so far.
pub data Loop (A : Type 0) : Type 0 where
  finished : A → Loop A
  failed : Error → A → Loop A
  faulted stuck : Loop A

abbrev pub map_loop : {A B : Type 0} → (A → B) → Loop A → Loop B
map_loop f (finished a) = finished (f a)
map_loop f (failed e a) = failed e (f a)
map_loop f faulted = faulted
map_loop f stuck = stuck

-- The options, each by its bytes. `tcp_options_begin` and `tcp_options_next` return NULL where no
-- bytes are left; the error of `tcp_options_next` comes when the loop has seen the option.
unfoldable pub options_loop : ℕ → List ℕ → ℕ → Loop (List (List ℕ))
options_loop zero rest left = stuck
options_loop (suc fuel) rest left =
    if left == 0 then finished [] else elim (option_length rest left) [
      | err e ↦ failed e (rest ∷ [])
      | fault ↦ faulted
      | ok n ↦
          map_loop (λ options. take n rest ∷ options) (options_loop fuel (drop n rest) (left - n))
    ]

-- `val += ack_offset` for `n` words in network order; `none` is an access outside the memory.
unfoldable pub offset_words : ℕ → ℕ → List ℕ → Option (List ℕ)
offset_words zero ack_offset bytes = some bytes
offset_words (suc n) ack_offset (a ∷ b ∷ c ∷ d ∷ bytes) = elim (offset_words n ack_offset bytes) [
  | none ↦ none
  | some rest ↦ some (be32_bytes (u32 (be32 a b c d + ack_offset)) ++ rest)
]
offset_words (suc n) ack_offset bytes = none

-- What the body of the loop of `offset_sack_blocks` does at an option: the memory from the option
-- on, or an error. The number of blocks is taken from the length byte before `tcp_options_next`
-- compares that byte with the end of the options.
unfoldable pub offset_option : ℕ → List ℕ → Loop (List ℕ)
unfolding offset_words
offset_option ack_offset [] = faulted
offset_option ack_offset (kind ∷ []) = if kind == tcpopt_sack then faulted else finished (kind ∷ [])
offset_option ack_offset (kind ∷ size ∷ bytes) =
    if kind == tcpopt_sack
    then elim (num_sack_blocks size) [
      | err e ↦ failed e (kind ∷ size ∷ bytes)
      | fault ↦ faulted
      | ok blocks ↦ elim (offset_words (2 * blocks) ack_offset bytes) [
        | none ↦ faulted
        | some moved ↦ finished (kind ∷ size ∷ moved)
      ]
    ]
    else finished (kind ∷ size ∷ bytes)

-- The memory from the option on, as the loop leaves it.
unfoldable pub offset_sack_blocks : ℕ → ℕ → List ℕ → ℕ → Loop (List ℕ)
unfolding offset_option
offset_sack_blocks ack_offset zero rest left = stuck
offset_sack_blocks ack_offset (suc fuel) rest left =
    if left == 0 then finished rest else elim (offset_option ack_offset rest) [
      | failed e memory ↦ failed e memory
      | faulted ↦ faulted
      | stuck ↦ stuck
      | finished memory ↦ elim (option_length memory left) [
        | err e ↦ failed e memory
        | fault ↦ faulted
        | ok n ↦
            map_loop (λ more. take n memory ++ more)
              (offset_sack_blocks ack_offset fuel (drop n memory) (left - n))
      ]
    ]

-- Where the timestamp's `val` and `ecr` stand, for an option at offset `p`.
pub record Timestamps : Type 0 where
  pub ts_val : Option ℕ
  pub ts_ecr : Option ℕ

abbrev pub no_timestamps : Timestamps
no_timestamps = record { ts_val = none; ts_ecr = none }

abbrev pub is_kind : ℕ → List ℕ → Bool
is_kind k [] = false
is_kind k (kind ∷ rest) = kind == k

-- `val_off` is 2 and `ecr_off` is 6 in the packed struct.
unfoldable pub find_tcp_timestamp : ℕ → List ℕ → ℕ → ℕ → Timestamps → Loop Timestamps
find_tcp_timestamp zero rest left p found = stuck
find_tcp_timestamp (suc fuel) rest left p found =
    if left == 0
    then finished found
    else (let seen : Timestamps =
          if is_kind tcpopt_timestamp rest
          then record { ts_val = some (p + 2); ts_ecr = some (p + 6) }
          else found in
        elim (option_length rest left) [
          | err e ↦ failed e seen
          | fault ↦ faulted
          | ok n ↦ find_tcp_timestamp fuel (drop n rest) (left - n) (p + n) seen
        ])
