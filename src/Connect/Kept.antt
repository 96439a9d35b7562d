-- ===== src/Connect/Kept.antt =====
-- What a lookup of the socket under test leaves of the connection, and that the lookup for a live
-- packet keeps it.
use packetdrill.Base.{
  ℕ, ◌≡◌, refl, ◌∙◌, subst, Bool, true, false, not, ◌||◌, List, [], ◌∷◌, Option, none, some, ◌==◌,
  if◌then◌else◌,
}
use packetdrill.Sctp.{Outcome, at, aborted, fault}
use packetdrill.SctpMatch.Compare.{Place, load, bits8, bits32}
use packetdrill.Connect.{
  Status, active_connecting, active_syn_sent, active_init_sent, TestSocket, RunState, TestPacket,
  TcpHead, Lookup, returned, assertion_failed, bad_read, is_equal_ip, get_packet_tuple,
}
use packetdrill.Connect.Live.{
  find_connect_for_live_packet, learn_chunk, learn_init, learn_isn, learn_local, is_connect_match,
}
use packetdrill.Connect.Script.{or_else}
use packetdrill.Connect.Laws.{testing}

-- The status stays, or a connecting socket has sent its SYN or INIT.
pub data Moves : Status → Status → Type 0 where
  stays : (s : Status) → Moves s s
  sends_syn : Moves active_connecting active_syn_sent
  sends_init : Moves active_connecting active_init_sent

-- The same connection, moved on at most from connecting.
pub record SameConnection (a b : TestSocket) : Type 0 where
  pub protocol_same : a.protocol ≡ b.protocol
  pub family_same : a.address_family ≡ b.address_family
  pub remote_same : a.live.remote ≡ b.live.remote
  pub moves : Moves a.state b.state

-- The lookup leaves a socket under test, which is the same connection.
pub data Kept (socket : TestSocket) : Lookup → Type 0 where
  kept :
      (b : Bool) (after : TestSocket) (port : Option ℕ)
      → SameConnection socket after
      → Kept socket (returned b (testing after port))
  kept_failed : Kept socket assertion_failed
  kept_bad : Kept socket bad_read

module _ (socket : TestSocket) where
  pub by_option {ℓ} :
      {A : Type ℓ} (o : Option A) (n : Lookup) (f : A → Lookup)
      → Kept socket n
      → ((a : A) → Kept socket (f a))
      → Kept socket (elim o [ none ↦ n | some a ↦ f a ])
  by_option none n f x y = x
  by_option (some a) n f x y = y a

  pub by_list {ℓ} :
      {A : Type ℓ} (xs : List A) (n : Lookup) (f : A → List A → Lookup)
      → Kept socket n
      → ((x : A) (rest : List A) → Kept socket (f x rest))
      → Kept socket (elim xs [ [] ↦ n | x ∷ rest ↦ f x rest ])
  by_list [] n f p q = p
  by_list (x ∷ rest) n f p q = q x rest

  pub by_test :
      (c : Bool) (x y : Lookup)
      → (c ≡ true → Kept socket x)
      → (c ≡ false → Kept socket y)
      → Kept socket (if c then x else y)
  by_test true x y p q = p refl
  by_test false x y p q = q refl

pub same_connection : (a : TestSocket) → SameConnection a a
same_connection a = record {
  protocol_same = refl;
  family_same = refl;
  remote_same = refl;
  moves = stays a.state;
}

-- What the connection is known by stays.
abbrev IsSame : TestSocket → TestSocket → Type 0
IsSame a b =
    (a.protocol ≡ b.protocol)
    × (a.address_family ≡ b.address_family)
    × (a.live.remote ≡ b.live.remote)
    × (a.state ≡ b.state)

pub Kept-true :
    (socket after : TestSocket) (port : Option ℕ)
    → IsSame socket after
    → Kept socket (returned true (testing after port))
Kept-true socket after port (p, f, r, s) = kept true after port record {
  protocol_same = p;
  family_same = f;
  remote_same = r;
  moves = subst (λ t. Moves socket.state t) s (stays socket.state);
}

init-Kept :
    (socket learned : TestSocket) (port : Option ℕ) (p : Place)
    → IsSame socket learned
    → Kept socket (learn_init learned p (testing socket port))
init-Kept socket learned port p same =
    by_option socket (load bits32 p 4) _ _ kept_bad (λ tag.
      by_option socket (load bits32 p 16) _ _ kept_bad (λ tsn. Kept-true socket _ port same))

chunk-Kept :
    (o : Outcome) (socket learned : TestSocket) (port : Option ℕ) (packet : TestPacket)
    → IsSame socket learned
    → Kept socket (learn_chunk o learned packet (testing socket port))
chunk-Kept aborted socket learned port packet same = kept_failed
chunk-Kept fault socket learned port packet same = kept_bad
chunk-Kept (at it (some e)) socket learned port packet same = Kept-true socket learned port same
chunk-Kept (at it none) socket learned port packet same =
    by_option socket it.current _ _ (Kept-true socket learned port same) (λ p.
      by_option socket (load bits8 record { memory = packet.sctp_payload.memory; start = p } 0) _ _
        kept_bad
        (λ type_.
          by_test socket (type_ == 1) _ _ (λ e. init-Kept socket learned port _ same)
            (λ e. Kept-true socket learned port same)))

pub connect-Kept :
    (socket : TestSocket) (port : Option ℕ) (packet : TestPacket)
    → Kept socket (find_connect_for_live_packet (testing socket port) packet)
unfolding find_connect_for_live_packet
connect-Kept socket port packet =
    let same = same_connection socket in
    by_test socket (not (is_connect_match socket packet)) _ _ (λ e. kept false socket port same)
      (λ e.
        by_test socket
          (not (is_equal_ip (get_packet_tuple packet).dst.ip socket.live.remote.ip)
            || not ((get_packet_tuple packet).dst.port == socket.live.remote.port))
          _ _ (λ e. kept false socket port same)
          (λ e.
            by_option socket packet.sctp _ _ (Kept-true socket _ port (learned-IsSame packet.tcp))
              (λ ports. chunk-Kept _ socket _ port packet (learned-IsSame packet.tcp))))
  where
    learned-IsSame : (o : Option TcpHead) → IsSame socket (learn_isn o (learn_local socket packet))
    learned-IsSame none = (refl, refl, refl, refl)
    learned-IsSame (some tcp) = (refl, refl, refl, refl)

Moves-trans : {a b c : Status} → Moves a b → Moves b c → Moves a c
Moves-trans (stays s) n = n
Moves-trans sends_syn (stays s) = sends_syn
Moves-trans sends_init (stays s) = sends_init

pub same_trans : (a b c : TestSocket) → SameConnection a b → SameConnection b c → SameConnection a c
same_trans a b c x y = record {
  protocol_same = x.protocol_same ∙ y.protocol_same;
  family_same = x.family_same ∙ y.family_same;
  remote_same = x.remote_same ∙ y.remote_same;
  moves = Moves-trans x.moves y.moves;
}

Kept-later :
    (socket after : TestSocket) (l : Lookup)
    → SameConnection socket after
    → Kept after l
    → Kept socket l
Kept-later socket after l same (kept b later port s) =
    kept b later port (same_trans socket after later same s)
Kept-later socket after l same kept_failed = kept_failed
Kept-later socket after l same kept_bad = kept_bad

pub or_else-Kept :
    (socket : TestSocket) (l : Lookup) (next : RunState → Lookup)
    → Kept socket l
    → ((after : TestSocket) (port : Option ℕ) → Kept after (next (testing after port)))
    → Kept socket (or_else l next)
or_else-Kept socket l next (kept true after port s) f = kept true after port s
or_else-Kept socket l next (kept false after port s) f =
    Kept-later socket after (next (testing after port)) s (f after port)
or_else-Kept socket l next kept_failed f = kept_failed
or_else-Kept socket l next kept_bad f = kept_bad
