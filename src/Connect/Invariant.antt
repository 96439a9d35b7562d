-- ===== src/Connect/Invariant.antt =====
-- The socket under test stays the same connection through every sequence of lookups.
use packetdrill.Base.{
  ℕ, ◌≡◌, refl, subst, sym, Bool, true, false, not, ◌&&◌, ◌||◌, Option, some, ◌==◌, ltb, u64, ◌^◌,
  ◌+◌, ◌-◌, leb,
}
use packetdrill.SctpMatch.Compare.{Place, load, bits8, bits16, bits32}
use packetdrill.Connect.{
  Status, active_connecting, Direction, inbound, outbound, TestSocket, RunState, TestPacket, Config,
  Lookup, returned,
}
use packetdrill.Connect.Live.{find_connect_for_live_packet, is_connecting, is_syn, is_some}
use packetdrill.Connect.Listen.{
  handle_listen_for_script_packet, handle_listen_sctp, learn_peer, is_candidate, is_listening,
}
use packetdrill.Connect.Script.{
  handle_connect_for_script_packet, existing_connection, find_or_create_socket_for_script_packet,
  is_script_packet_match_for_socket,
}
use packetdrill.Connect.Laws.{testing}
use packetdrill.Connect.Kept.{
  Moves, sends_syn, sends_init, SameConnection, Kept, kept, kept_failed, kept_bad, by_option,
  by_list, by_test, same_connection, Kept-true, connect-Kept, same_trans, or_else-Kept,
}

peer-Kept :
    (config : Config) (fresh : ℕ) (socket : TestSocket) (port : Option ℕ) (packet : TestPacket)
    (init : Place)
    → Kept socket (learn_peer config fresh (testing socket port) packet init)
peer-Kept config fresh socket port packet init =
    by_option socket (load bits32 init 4) _ _ kept_bad (λ tag.
      by_option socket (load bits32 init 16) _ _ kept_bad
        (λ tsn. Kept-true socket _ port (refl, refl, refl, refl)))

listen_sctp-Kept :
    (config : Config) (fresh : ℕ) (socket : TestSocket) (port : Option ℕ) (packet : TestPacket)
    → Kept socket (handle_listen_sctp config fresh (testing socket port) packet)
unfolding handle_listen_sctp
listen_sctp-Kept config fresh socket port packet =
    let stay = kept true socket port (same_connection socket) in
    by_option socket packet.chunk_list _ _
      (by_test socket packet.is_generic _ _
        (λ e. by_option socket (load bits8 packet.sctp_payload 0) _ _ kept_bad (λ type_.
          by_test socket (type_ == 1) _ _
            (λ e.
              by_test socket (ltb (u64 (packet.sctp_total_bytes + 2 ^ 64 - 12)) 20) _ _
                (λ e. kept false socket port (same_connection socket))
                (λ e. peer-Kept config fresh socket port packet packet.sctp_payload))
            (λ e. stay)))
        (λ e. stay))
      (λ items. by_list socket items _ _ stay (λ item rest.
        by_option socket (load bits8 item.chunk 0) _ _ kept_bad (λ type_.
          by_test socket (type_ == 1) _ _
            (λ e. by_option socket (load bits16 item.chunk 2) _ _ kept_bad (λ length.
              by_test socket (leb 20 length) _ _
                (λ e. peer-Kept config fresh socket port packet item.chunk) (λ e. stay)))
            (λ e. stay))))

listen-Kept :
    (config : Config) (fresh : ℕ) (socket : TestSocket) (port : Option ℕ) (packet : TestPacket)
    (direction : Direction)
    → Kept socket
        (handle_listen_for_script_packet config fresh (testing socket port) packet direction)
unfolding handle_listen_for_script_packet
listen-Kept config fresh socket port packet outbound =
    kept false socket port (same_connection socket)
listen-Kept config fresh socket port packet inbound =
    by_test socket (not (is_candidate config is_listening (some socket))) _ _
      (λ e. kept false socket port (same_connection socket))
      (λ e.
        by_option socket packet.sctp _ _
          (by_option socket packet.tcp _ _ (kept true socket port (same_connection socket))
            (λ tcp. Kept-true socket _ port (refl, refl, refl, refl)))
          (λ ports. listen_sctp-Kept config fresh socket port packet))

candidate_connecting :
    (b : Bool) (config : Config) (socket : TestSocket)
    → (b && is_candidate config is_connecting (some socket)) ≡ true
    → socket.state ≡ active_connecting
candidate_connecting false config socket e = absurd (cc e)
candidate_connecting true config socket e = connecting config.is_wire_server socket.state e
  where
    connecting : (w : Bool) (s : Status) → (not w && is_connecting s) ≡ true → s ≡ active_connecting
    connecting true s e = absurd (cc e)
    connecting false active_connecting e = refl
    connecting false s e = absurd (cc e)

has_sent :
    (socket after : TestSocket) (port : Option ℕ)
    → socket.state ≡ active_connecting
    → Moves active_connecting after.state
    → socket.protocol ≡ after.protocol
    → socket.address_family ≡ after.address_family
    → socket.live.remote ≡ after.live.remote
    → Kept socket (returned true (testing after port))
has_sent socket after port e m p f r = kept true after port record {
  protocol_same = p;
  family_same = f;
  remote_same = r;
  moves = subst (λ t. Moves t after.state) (sym e) m;
}

script_connect-Kept :
    (config : Config) (socket : TestSocket) (port : Option ℕ) (packet : TestPacket)
    (direction : Direction)
    → Kept socket (handle_connect_for_script_packet config (testing socket port) packet direction)
unfolding handle_connect_for_script_packet
script_connect-Kept config socket port packet inbound =
    kept false socket port (same_connection socket)
script_connect-Kept config socket port packet outbound =
    let no = kept false socket port (same_connection socket) in
    let candidate = is_candidate config is_connecting (some socket) in
    by_option socket packet.tcp _ _
      (by_option socket packet.chunk_list _ _ kept_failed (λ items.
        by_list socket items _ _ no (λ item rest.
          by_option socket (load bits8 item.chunk 0) _ _ kept_bad (λ type_.
            by_test socket ((type_ == 1) && candidate) _ _
              (λ e. by_option socket (load bits32 item.chunk 16) _ _ kept_bad (λ tsn.
                by_option socket (load bits32 item.chunk 4) _ _ kept_bad (λ tag.
                  has_sent socket _ port (candidate_connecting (type_ == 1) config socket e)
                    sends_init refl refl refl)))
              (λ e. no)))))
      (λ tcp.
        by_test socket (is_syn tcp && candidate) _ _
          (λ e.
            has_sent socket _ port (candidate_connecting (is_syn tcp) config socket e) sends_syn
              refl refl refl)
          (λ e. no))

existing-Kept :
    (socket : TestSocket) (port : Option ℕ) (packet : TestPacket)
    → Kept socket (existing_connection (testing socket port) packet)
unfolding existing_connection
existing-Kept socket port packet =
    by_option socket (is_script_packet_match_for_socket packet socket) _ _ kept_failed
      (λ b. kept b socket port (same_connection socket))

script-Kept :
    (config : Config) (fresh : ℕ) (socket : TestSocket) (port : Option ℕ) (packet : TestPacket)
    (direction : Direction)
    → Kept socket (
        find_or_create_socket_for_script_packet config fresh (testing socket port) packet direction)
unfolding find_or_create_socket_for_script_packet
script-Kept config fresh socket port packet direction =
    by_test socket (is_some packet.tcp || is_some packet.sctp) _ _
      (λ e.
        or_else-Kept socket _ _ (listen-Kept config fresh socket port packet direction)
          (λ after port.
            or_else-Kept after _ _ (script_connect-Kept config after port packet direction)
              (λ later port. existing-Kept later port packet)))
      (λ e. existing-Kept socket port packet)

-- A packet of the script or a live one is looked up.
pub data Step (config : Config) (state : RunState) : RunState → Type 0 where
  scripted :
      (fresh : ℕ) (packet : TestPacket) (direction : Direction) (b : Bool) (next : RunState)
      → find_or_create_socket_for_script_packet config fresh state packet direction
        ≡ returned b next
      → Step config state next
  received :
      (packet : TestPacket) (b : Bool) (next : RunState)
      → find_connect_for_live_packet state packet ≡ returned b next
      → Step config state next

pub data Reach (config : Config) (state : RunState) : RunState → Type 0 where
  here : Reach config state state
  after : {s t : RunState} → Reach config state s → Step config s t → Reach config state t

-- There is a socket under test, and it is the same connection.
abbrev pub Continues : TestSocket → RunState → Type 0
Continues socket state =
    (now : TestSocket) × (port : Option ℕ) × (state ≡ testing now port) × SameConnection socket now

Kept-Continues :
    (socket : TestSocket) (l : Lookup) (b : Bool) (next : RunState)
    → Kept socket l
    → l ≡ returned b next
    → Continues socket next
Kept-Continues socket l b next (kept c later port s) e = (later, port, cc e, s)
Kept-Continues socket l b next kept_failed e = absurd (cc e)
Kept-Continues socket l b next kept_bad e = absurd (cc e)

Step-Continues :
    (config : Config) (socket : TestSocket) (port : Option ℕ) (next : RunState)
    → Step config (testing socket port) next
    → Continues socket next
Step-Continues config socket port next (scripted fresh packet direction b n e) =
    Kept-Continues socket _ b next (script-Kept config fresh socket port packet direction) e
Step-Continues config socket port next (received packet b n e) =
    Kept-Continues socket _ b next (connect-Kept socket port packet) e

-- Once there is a socket under test, it stays through every sequence of scripted and live packets
-- that are looked up, with its protocol, its address family and its live remote endpoint; and its
-- status stays, but that a connecting socket may send its SYN or its INIT, once.
pub Reach-Continues :
    (config : Config) (socket : TestSocket) (port : Option ℕ) (state : RunState)
    → Reach config (testing socket port) state
    → Continues socket state
Reach-Continues config socket port state here = (socket, port, refl, same_connection socket)
Reach-Continues config socket port state (after r st) =
    let (now, p, e, same) = Reach-Continues config socket port _ r in
    let (later, q, e', same') =
      Step-Continues config now p state (subst (λ s. Step config s state) e st) in
    (later, q, e', same_trans socket now later same same')
