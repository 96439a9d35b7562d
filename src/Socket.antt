-- ===== src/Socket.antt =====
-- The translation of TCP sequence numbers and timestamps between the script's values and the live
-- ones: the offsets of gtests/net/packetdrill/socket.h, the timestamp mapping of run_packet.c, and
-- the TCP parts of `map_inbound_packet` and `map_outbound_live_packet`.
pub mod Translate
use packetdrill.Base.{
  ℕ, ◌+◌, ◌-◌, ◌*◌, ◌^◌, Bool, true, false, not, List, Option, none, some, if◌then◌else◌, u32,
}
use packetdrill.HashMap.{HashMap, hash_map_get, hash_map_set}

-- The fields of `struct socket` that take part.
pub record Socket : Type 0 where
  pub live_local_isn : ℕ
  pub script_local_isn : ℕ
  pub live_remote_isn : ℕ
  pub ts_val_map : HashMap
  pub found_first_tcp_ts : Bool
  pub first_script_ts_val : ℕ
  pub first_actual_ts_val : ℕ

unfoldable pub remote_seq_script_to_live_offset : Socket → Bool → ℕ
remote_seq_script_to_live_offset socket is_syn = if is_syn then 0 else socket.live_remote_isn

-- The unary minus of a u32.
abbrev pub negate : ℕ → ℕ
negate n = u32 (2 ^ 32 - n)

unfoldable pub remote_seq_live_to_script_offset : Socket → Bool → ℕ
unfolding remote_seq_script_to_live_offset
remote_seq_live_to_script_offset socket is_syn =
    negate (remote_seq_script_to_live_offset socket is_syn)

unfoldable pub local_seq_script_to_live_offset : Socket → Bool → ℕ
local_seq_script_to_live_offset socket is_syn =
    if is_syn
    then u32 (socket.live_local_isn + 2 ^ 32 - socket.script_local_isn)
    else socket.live_local_isn

unfoldable pub local_seq_live_to_script_offset : Socket → Bool → ℕ
unfolding local_seq_script_to_live_offset
local_seq_live_to_script_offset socket is_syn =
    negate (local_seq_script_to_live_offset socket is_syn)

-- The fields of the TCP header that are rewritten, in host byte order, and the flags on which
-- this depends.
pub record TcpSeq : Type 0 where
  pub seq : ℕ
  pub ack_seq : ℕ
  pub syn : Bool
  pub ack : Bool

-- The sequence numbers in `map_inbound_packet`; `absolute_seq` is FLAG_ABSOLUTE_SEQ.
unfoldable pub map_inbound_seq : Socket → Bool → TcpSeq → TcpSeq
unfolding remote_seq_script_to_live_offset local_seq_script_to_live_offset
map_inbound_seq socket absolute_seq tcp =
    let seq_offset = remote_seq_script_to_live_offset socket tcp.syn in
    let ack_offset = local_seq_script_to_live_offset socket tcp.syn in
    record tcp {
      seq = if absolute_seq then tcp.seq else u32 (tcp.seq + seq_offset);
      ack_seq = if tcp.ack then u32 (tcp.ack_seq + ack_offset) else tcp.ack_seq;
    }

-- The sequence numbers in `map_outbound_live_packet`.
unfoldable pub map_outbound_seq : Socket → Bool → TcpSeq → TcpSeq
unfolding local_seq_live_to_script_offset remote_seq_live_to_script_offset
map_outbound_seq socket absolute_seq tcp =
    let seq_offset = local_seq_live_to_script_offset socket tcp.syn in
    let ack_offset = remote_seq_live_to_script_offset socket tcp.syn in
    record tcp {
      seq = if absolute_seq then tcp.seq else u32 (tcp.seq + seq_offset);
      ack_seq = if tcp.ack then u32 (tcp.ack_seq + ack_offset) else tcp.ack_seq;
    }

module _ (hash_key : ℕ → ℕ) where
  -- `none` is STATUS_ERR.
  unfoldable pub get_outbound_ts_val_mapping : Socket → ℕ → Option ℕ
  get_outbound_ts_val_mapping socket script_timestamp =
      hash_map_get hash_key socket.ts_val_map script_timestamp

  unfoldable pub set_outbound_ts_val_mapping : Socket → ℕ → ℕ → Socket
  set_outbound_ts_val_mapping socket script_timestamp live_timestamp = record socket {
    ts_val_map = hash_map_set hash_key socket.ts_val_map script_timestamp live_timestamp;
  }

  -- The last part of `map_outbound_live_packet`, for packets that both have a timestamp: the socket
  -- and the value that is written into the actual packet. `ignore_ts_val` is FLAG_IGNORE_TS_VAL.
  unfoldable pub map_outbound_ts_val : Socket → Bool → ℕ → ℕ → Socket × ℕ
  unfolding set_outbound_ts_val_mapping
  map_outbound_ts_val socket ignore_ts_val script_ts_val actual_ts_val =
      let socket1 : Socket =
        if ignore_ts_val
        then socket
        else set_outbound_ts_val_mapping socket script_ts_val actual_ts_val in
      let socket2 : Socket =
        if not socket1.found_first_tcp_ts
        then record socket1 {
          found_first_tcp_ts = true;
          first_script_ts_val = script_ts_val;
          first_actual_ts_val = actual_ts_val;
        }
        else socket1 in
      (
        socket2,
        u32 (
            socket2.first_script_ts_val
            + u32 (actual_ts_val + 2 ^ 32 - socket2.first_actual_ts_val)),
      )

  -- The last part of `map_inbound_packet`, for a packet with a timestamp: the echo reply that is
  -- written into the live packet. `absolute_ts_ecr` is FLAG_ABSOLUTE_TS_ECR, and `none` the
  -- error that there is no mapping.
  unfoldable pub map_inbound_ts_ecr : Socket → Bool → Bool → ℕ → Option ℕ
  unfolding get_outbound_ts_val_mapping
  map_inbound_ts_ecr socket absolute_ts_ecr ack ts_ecr =
      if absolute_ts_ecr
      then some ts_ecr
      else (if ack then get_outbound_ts_val_mapping socket ts_ecr else some ts_ecr)
