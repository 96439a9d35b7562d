-- ===== src/Tests/Options.antt =====
-- TCP options on concrete bytes.
use packetdrill.Base.{
  ℕ, ◌+◌, ◌≤◌, ◌<◌, ◌≡◌, refl, true, false, List, [], ◌∷◌, ◌++◌, ◌⊎◌, arith, some,
}
use packetdrill.TcpOptions.{
  tcp_options_new, tcp_options_append, option_length, num_sack_blocks, ok, data_too_far,
  tcpopt_sack,
}
use packetdrill.TcpOptions.Append.{IsValid, wire, new-IsValid, append-IsValid}
use packetdrill.TcpOptions.Loops.{
  options_loop, finished, failed, offset_words, offset_sack_blocks, find_tcp_timestamp,
  no_timestamps,
}
use packetdrill.TcpOptions.Walk.{Walks, IsOption, options_loop-Walks}
use packetdrill.TcpOptions.RoundTrip.{append_all, append_all-walk}
use packetdrill.TcpOptions.Sack.{offset_sack_blocks_overrun}
use packetdrill.TcpOptions.Timestamp.{Searched, find_tcp_timestamp-Searched}

abbrev mss : List ℕ
mss = 2 ∷ 4 ∷ 5 ∷ 180 ∷ []

abbrev timestamps : List ℕ
timestamps = 8 ∷ 10 ∷ 0 ∷ 0 ∷ 0 ∷ 100 ∷ 0 ∷ 0 ∷ 0 ∷ 7 ∷ []

mss-IsOption : IsOption mss
unfolding IsOption option_length
mss-IsOption = refl

timestamps-IsOption : IsOption timestamps
unfolding IsOption option_length
timestamps-IsOption = refl

append-IsValid_example :
    IsValid (tcp_options_append tcp_options_new mss 4).0
    × (((tcp_options_append tcp_options_new mss 4) ≡ (tcp_options_new, false))
          × (40 < tcp_options_new.length_bytes + 4)
        ⊎ ((tcp_options_append tcp_options_new mss 4).1 ≡ true)
          × (tcp_options_new.length_bytes + 4 ≤ 40)
          × (wire (tcp_options_append tcp_options_new mss 4).0 ≡ wire tcp_options_new ++ mss))
append-IsValid_example = append-IsValid tcp_options_new mss 4 new-IsValid (omega arith)

options_loop-Walks_example : Walks (mss ++ timestamps) 14 (options_loop 15 (mss ++ timestamps) 14)
options_loop-Walks_example =
    options_loop-Walks 15 (mss ++ timestamps) 14 (omega arith) (omega arith)

append_all-walk_example :
    ((append_all tcp_options_new (mss ∷ timestamps ∷ [])).1 ≡ true)
    × (options_loop 41
          (wire (append_all tcp_options_new (mss ∷ timestamps ∷ [])).0)
          (append_all tcp_options_new (mss ∷ timestamps ∷ [])).0.length_bytes
        ≡ finished (mss ∷ timestamps ∷ []))
append_all-walk_example =
    append_all-walk (mss ∷ timestamps ∷ []) (mss-IsOption, (timestamps-IsOption, tt)) (omega arith)

moved : offset_words 1 5 (255 ∷ 255 ∷ 255 ∷ 254 ∷ []) ≡ some (0 ∷ 0 ∷ 0 ∷ 3 ∷ [])
unfolding offset_words
moved = refl

payload_moved :
    offset_words 2 5 (0 ∷ 0 ∷ 0 ∷ 1 ∷ 0 ∷ 0 ∷ 0 ∷ 2 ∷ [])
    ≡ some (0 ∷ 0 ∷ 0 ∷ 6 ∷ 0 ∷ 0 ∷ 0 ∷ 7 ∷ [])
unfolding offset_words
payload_moved = refl

one_block : num_sack_blocks 10 ≡ ok 1
unfolding num_sack_blocks
one_block = refl

offset_sack_blocks_overrun_example :
    offset_sack_blocks 5 3 (tcpopt_sack ∷ 10 ∷ 0 ∷ 0 ∷ 0 ∷ 1 ∷ 0 ∷ 0 ∷ 0 ∷ 2 ∷ []) 2
    ≡ failed data_too_far (tcpopt_sack ∷ 10 ∷ 0 ∷ 0 ∷ 0 ∷ 6 ∷ 0 ∷ 0 ∷ 0 ∷ 7 ∷ [])
offset_sack_blocks_overrun_example =
    offset_sack_blocks_overrun 5 2 2 10 1 (0 ∷ 0 ∷ 0 ∷ 1 ∷ 0 ∷ 0 ∷ 0 ∷ 2 ∷ [])
      (0 ∷ 0 ∷ 0 ∷ 6 ∷ 0 ∷ 0 ∷ 0 ∷ 7 ∷ []) (omega arith) (omega arith) one_block payload_moved

find_tcp_timestamp-Searched_example :
    Searched 20 34 (find_tcp_timestamp 15 (mss ++ timestamps) 14 20 no_timestamps)
find_tcp_timestamp-Searched_example =
    find_tcp_timestamp-Searched 15 (mss ++ timestamps) 14 20 (omega arith) (omega arith)
