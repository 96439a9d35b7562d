-- ===== src/Socket/Translate.antt =====
-- The translations there and back, and what an echoed timestamp becomes.
use packetdrill.Base.{
  ℕ, ◌+◌, ◌^◌, ◌<◌, ◌≡◌, refl, Bool, true, false, some, arith, u32, Bool-cases, inl, inr, ◌==◌, ap₂,
  ◌∙◌,
}
use packetdrill.HashMap.{hash_map_set, hash_map_get}
use packetdrill.HashMap.Laws.{IsValid}
use packetdrill.HashMap.Set.{Sets, hash_map_set-Sets}
use packetdrill.Socket.{
  Socket, negate, TcpSeq, remote_seq_script_to_live_offset, remote_seq_live_to_script_offset,
  local_seq_script_to_live_offset, local_seq_live_to_script_offset, map_inbound_seq,
  map_outbound_seq, get_outbound_ts_val_mapping, set_outbound_ts_val_mapping, map_outbound_ts_val,
  map_inbound_ts_ecr,
}

-- The initial sequence numbers and the timestamps of the socket are 32-bit words.
pub record IsWords (socket : Socket) : Type 0 where
  pub live_local : socket.live_local_isn < 2 ^ 32
  pub script_local : socket.script_local_isn < 2 ^ 32
  pub live_remote : socket.live_remote_isn < 2 ^ 32
  pub first_script : socket.first_script_ts_val < 2 ^ 32
  pub first_actual : socket.first_actual_ts_val < 2 ^ 32

offset_back :
    (x offset : ℕ) → x < 2 ^ 32 → offset < 2 ^ 32 → u32 (u32 (x + offset) + negate offset) ≡ x
offset_back x offset hx ho = omega arith

local_offset_bound :
    (socket : Socket) (is_syn : Bool)
    → IsWords socket
    → local_seq_script_to_live_offset socket is_syn < 2 ^ 32
unfolding local_seq_script_to_live_offset
local_offset_bound socket true w = omega arith
local_offset_bound socket false w = w.live_local

remote_offset_bound :
    (socket : Socket) (is_syn : Bool)
    → IsWords socket
    → remote_seq_script_to_live_offset socket is_syn < 2 ^ 32
unfolding remote_seq_script_to_live_offset
remote_offset_bound socket true w = omega arith
remote_offset_bound socket false w = w.live_remote

-- The answer that acknowledges what a packet has sent, from where the packet has acknowledged.
abbrev pub answer : TcpSeq → TcpSeq
answer tcp = record { seq = tcp.ack_seq; ack_seq = tcp.seq; syn = tcp.syn; ack = tcp.ack }

-- If a packet with an acknowledgement is taken from the script's sequence numbers to the live ones,
-- its answer in live numbers is taken back to its answer in the script's numbers. All numbers are
-- 32-bit words, the packet's flags do not ask for absolute numbers, and the answer has the
-- packet's SYN flag.
pub map_outbound_seq-answer :
    (socket : Socket) (seq ack_seq : ℕ) (is_syn : Bool)
    → IsWords socket
    → seq < 2 ^ 32
    → ack_seq < 2 ^ 32
    → map_outbound_seq socket false (
        answer (
          map_inbound_seq socket false
            record { seq = seq; ack_seq = ack_seq; syn = is_syn; ack = true }))
      ≡ answer record { seq = seq; ack_seq = ack_seq; syn = is_syn; ack = true }
unfolding map_outbound_seq map_inbound_seq local_seq_live_to_script_offset
    remote_seq_live_to_script_offset
map_outbound_seq-answer socket seq ack_seq is_syn w hs ha =
    ap₂ (λ s a. record { seq = s; ack_seq = a; syn = is_syn; ack = true })
      (offset_back ack_seq (local_seq_script_to_live_offset socket is_syn) ha
        (local_offset_bound socket is_syn w))
      (offset_back seq (remote_seq_script_to_live_offset socket is_syn) hs
        (remote_offset_bound socket is_syn w))

module _ (hash_key : ℕ → ℕ) where
  -- When an outbound packet's timestamp is not ignored, the socket's map stays valid, and an
  -- inbound packet with an acknowledgement that echoes the script's timestamp then echoes the
  -- live one.
  pub map_inbound_ts_ecr-outbound :
      (socket : Socket) (script_ts_val actual_ts_val : ℕ)
      → IsValid hash_key socket.ts_val_map
      → IsValid hash_key
          (map_outbound_ts_val hash_key socket false script_ts_val actual_ts_val).0.ts_val_map
        × (map_inbound_ts_ecr hash_key
              (map_outbound_ts_val hash_key socket false script_ts_val actual_ts_val).0
              false
              true
              script_ts_val
            ≡ some actual_ts_val)
  unfolding map_outbound_ts_val map_inbound_ts_ecr set_outbound_ts_val_mapping
      get_outbound_ts_val_mapping
  map_inbound_ts_ecr-outbound socket script_ts_val actual_ts_val v =
      let sets : Sets hash_key socket.ts_val_map
          (hash_map_set hash_key socket.ts_val_map script_ts_val actual_ts_val) script_ts_val
          actual_ts_val =
        hash_map_set-Sets hash_key socket.ts_val_map script_ts_val actual_ts_val v in
      let same : (script_ts_val == script_ts_val) ≡ true = ground arith in
      let got : hash_map_get hash_key
            (hash_map_set hash_key socket.ts_val_map script_ts_val actual_ts_val) script_ts_val
          ≡ some actual_ts_val =
        sets.get script_ts_val ∙ rw same refl in
      elim (Bool-cases socket.found_first_tcp_ts) [
        | inl found ↦ rw found (sets.valid, got)
        | inr first ↦ rw first (sets.valid, got)
      ]

  -- The first timestamp of a socket is rewritten into the script's. Later ones lie as far from
  -- the script's first timestamp as the live one from the first live one, modulo 2 ^ 32.
  map_outbound_ts_val_lem :
      (socket : Socket) (ignore : Bool) (script_ts_val actual_ts_val : ℕ)
      → IsWords socket
      → script_ts_val < 2 ^ 32
      → actual_ts_val < 2 ^ 32
      → (socket.found_first_tcp_ts ≡ false
          → (map_outbound_ts_val hash_key socket ignore script_ts_val actual_ts_val).1
            ≡ script_ts_val)
        × (socket.found_first_tcp_ts ≡ true
            → u32 (
                (map_outbound_ts_val hash_key socket ignore script_ts_val actual_ts_val).1
                + socket.first_actual_ts_val)
              ≡ u32 (socket.first_script_ts_val + actual_ts_val))
  unfolding map_outbound_ts_val set_outbound_ts_val_mapping
  map_outbound_ts_val_lem socket ignore script_ts_val actual_ts_val w hs ha =
      (first ignore, later ignore)
    where
      first :
          (ignore : Bool)
          → socket.found_first_tcp_ts ≡ false
          → (map_outbound_ts_val hash_key socket ignore script_ts_val actual_ts_val).1
            ≡ script_ts_val
      first true e = rw e (omega arith)
      first false e = rw e (omega arith)

      later :
          (ignore : Bool)
          → socket.found_first_tcp_ts ≡ true
          → u32 (
              (map_outbound_ts_val hash_key socket ignore script_ts_val actual_ts_val).1
              + socket.first_actual_ts_val)
            ≡ u32 (socket.first_script_ts_val + actual_ts_val)
      later true e = rw e (omega (arith, w.first_actual, w.first_script))
      later false e = rw e (omega (arith, w.first_actual, w.first_script))
