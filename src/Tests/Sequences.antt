-- ===== src/Tests/Sequences.antt =====
-- The translation of sequence numbers and timestamps for a concrete socket.
use packetdrill.Base.{ℕ, ◌*◌, ◌≡◌, refl, true, false, arith, some}
use packetdrill.HashMap.{empty_map}
use packetdrill.HashMap.Laws.{IsValid}
use packetdrill.HashMap.Buckets.{IsPlaced, IsDistinct}
use packetdrill.Socket.{
  Socket, map_inbound_seq, map_outbound_seq, map_outbound_ts_val, map_inbound_ts_ecr,
}
use packetdrill.Socket.Translate.{
  IsWords, answer, map_outbound_seq-answer, map_inbound_ts_ecr-outbound,
}

abbrev times_five : ℕ → ℕ
times_five key = key * 5

abbrev connected : Socket
connected = record {
  live_local_isn = 4294967000;
  script_local_isn = 0;
  live_remote_isn = 77;
  ts_val_map = empty_map 2;
  found_first_tcp_ts = false;
  first_script_ts_val = 0;
  first_actual_ts_val = 0;
}

connected-IsWords : IsWords connected
connected-IsWords = record {
  live_local = omega arith;
  script_local = omega arith;
  live_remote = omega arith;
  first_script = omega arith;
  first_actual = omega arith;
}

connected-IsValid : IsValid times_five connected.ts_val_map
unfolding IsPlaced IsDistinct empty_map
connected-IsValid = record { size = refl; mask = refl; placed = ((tt, tt), ((tt, tt), tt)) }

map_outbound_seq-answer_example :
    map_outbound_seq connected false (
      answer (
        map_inbound_seq connected false
          record { seq = 1; ack_seq = 1001; syn = false; ack = true }))
    ≡ answer record { seq = 1; ack_seq = 1001; syn = false; ack = true }
map_outbound_seq-answer_example =
    map_outbound_seq-answer connected 1 1001 false connected-IsWords (omega arith) (omega arith)

map_inbound_ts_ecr-outbound_example :
    IsValid times_five (map_outbound_ts_val times_five connected false 100 5000).0.ts_val_map
    × (map_inbound_ts_ecr times_five
          (map_outbound_ts_val times_five connected false 100 5000).0
          false
          true
          100
        ≡ some 5000)
map_inbound_ts_ecr-outbound_example =
    map_inbound_ts_ecr-outbound times_five connected 100 5000 connected-IsValid
