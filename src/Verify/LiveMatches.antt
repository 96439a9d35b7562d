-- ===== src/Verify/LiveMatches.antt =====
-- What it means that the headers of a live packet match the script's, layer by layer.
use packetdrill.Base.{
  ℕ, suc, ◌*◌, ◌≤◌, ◌≡◌, ◌↔◌, refl, true, List, [], ◌∷◌, arith, length, take, IsByte, All, ◌==◌, ap,
  Bool-cases, inl, inr, subst, sym,
}
use packetdrill.Parser.Network.{gre_len}
use packetdrill.SctpMatch.Compare.{CheckResult, passed}
use packetdrill.SctpMatch.MatchesPacket.{verify_sctp_iff}
use packetdrill.SctpMatch.SpecItems.{ChunkMatches}
use packetdrill.SctpMatch.Tiles.{Tiles}
use packetdrill.Verify.{Verdict, ok as ok_fields}
use packetdrill.Verify.Fields.{Either}
use packetdrill.Verify.Labels.{verify_mpls_iff}
use packetdrill.Verify.Layers.{
  LayerVerdict, ok as ok_layer, verify_udp, verify_udplite, verify_gre, verify_mpls,
}
use packetdrill.Verify.Live.{
  LayerHeader, ipv4, ipv6, gre, mpls, sctp, tcp, udp, udplite, icmpv4, icmpv6, header_type,
  LivePacket, ScriptPacket, HeaderVerdict, ok, of_fields, of_layer, of_chunks, ◌>>>◌, call_verifier,
  verify_header, headers_loop, verify_outbound_live_headers,
}
use packetdrill.Verify.Matches.{
  Ipv4Matches, Ipv6Matches, TcpMatches, verify_ipv4_iff, verify_ipv6_iff, verify_tcp_iff,
}

-- The memory holds the label stack that a header announces, of whole entries.
abbrev pub IsHeld : LayerHeader → Type 0
IsHeld (mpls bytes stack) = (entries : ℕ) × (bytes ≡ entries * 4) × (bytes ≤ length stack)
IsHeld other = Unit

module _ (actual_packet : LivePacket) (script_packet : ScriptPacket) (udp_encaps : ℕ) where
  -- Two headers of one type: IP and TCP headers with the compared fields the same, GRE headers of
  -- one length, MPLS stacks with the same bytes, UDP headers with one length unless another
  -- protocol is encapsulated, UDPLite headers with one coverage, and for SCTP the chunks.
  pub LayerMatches : LayerHeader → LayerHeader → Type 0
  LayerMatches (ipv4 a) (ipv4 s) =
      Ipv4Matches a s script_packet.ecn actual_packet.tcp_options_len script_packet.flags udp_encaps
  LayerMatches (ipv6 a) (ipv6 s) =
      Ipv6Matches a s script_packet.ecn actual_packet.tcp_options_len script_packet.flags udp_encaps
  LayerMatches (gre a) (gre s) = gre_len a ≡ gre_len s
  LayerMatches (mpls n a) (mpls m s) = (n ≡ m) × (take m a ≡ take m s)
  LayerMatches sctp sctp =
      Tiles actual_packet.memory actual_packet.packet_end
        (λ p. ChunkMatches record { memory = actual_packet.memory; start = p })
        actual_packet.payload script_packet.chunk_list
  LayerMatches (tcp a au) (tcp s su) =
      TcpMatches a s au su actual_packet.tcp_options_len script_packet.flags udp_encaps
  LayerMatches (udp a) (udp s) = Either (udp_encaps == 0) (a ≡ s) (Unit {0})
  LayerMatches (udplite a) (udplite s) = a ≡ s
  LayerMatches a s = ⊥

  -- The same number of layers, each matching the script's.
  pub HeadersMatch : List LayerHeader → List LayerHeader → Type 0
  HeadersMatch [] [] = Unit
  HeadersMatch (a ∷ as_) (s ∷ ss) = LayerMatches a s × HeadersMatch as_ ss
  HeadersMatch as_ ss = ⊥

of_fields_iff : (v : Verdict) → (of_fields v ≡ ok) ↔ (v ≡ ok_fields)
of_fields_iff ok_fields = (λ e. refl, λ e. refl)
of_fields_iff v = (λ e. absurd (cc e), λ e. absurd (cc e))

of_layer_iff : (v : LayerVerdict) → (of_layer v ≡ ok) ↔ (v ≡ ok_layer)
of_layer_iff ok_layer = (λ e. refl, λ e. refl)
of_layer_iff v = (λ e. absurd (cc e), λ e. absurd (cc e))

of_chunks_iff : (v : CheckResult) → (of_chunks v ≡ ok) ↔ (v ≡ passed)
of_chunks_iff passed = (λ e. refl, λ e. refl)
of_chunks_iff v = (λ e. absurd (cc e), λ e. absurd (cc e))

then_iff :
    (a b : HeaderVerdict) {P Q : Type 0}
    → ((a ≡ ok) ↔ P)
    → ((b ≡ ok) ↔ Q)
    → ((a >>> b) ≡ ok) ↔ (P × Q)
then_iff ok b p q = (λ e. (p.0 refl, q.0 e), λ (x, y). q.1 y)
then_iff v b p q = (λ h. absurd (cc h), λ (x, y). absurd (cc (p.1 x)))

through : {P Q R : Type 0} → (P ↔ Q) → (Q ↔ R) → P ↔ R
through f g = (λ p. g.0 (f.0 p), λ r. f.1 (g.1 r))

gre_iff : (a s : ℕ) → (verify_gre a s ≡ ok_layer) ↔ (gre_len a ≡ gre_len s)
unfolding verify_gre
gre_iff a s = ground arith

udplite_iff : (a s : ℕ) → (verify_udplite a s ≡ ok_layer) ↔ (a ≡ s)
unfolding verify_udplite
udplite_iff a s = ground arith

udp_iff :
    (a s udp_encaps : ℕ)
    → (verify_udp a s udp_encaps ≡ ok_layer) ↔ Either (udp_encaps == 0) (a ≡ s) (Unit {0})
unfolding verify_udp
udp_iff a s udp_encaps = ground arith

module _ (actual_packet : LivePacket) (script_packet : ScriptPacket) (udp_encaps : ℕ)
    (bytes : All IsByte actual_packet.memory)
    (inside : actual_packet.packet_end ≤ length actual_packet.memory)
    (ordered : actual_packet.payload ≤ actual_packet.packet_end) where
  verify_header_iff :
      (layer : ℕ) (a s : LayerHeader)
      → IsHeld a
      → IsHeld s
      → (verify_header actual_packet script_packet udp_encaps layer a s ≡ ok)
        ↔ LayerMatches actual_packet script_packet udp_encaps a s
  unfolding verify_header header_type call_verifier LayerMatches
  verify_header_iff layer (ipv4 a) (ipv4 s) ha hs =
      through (of_fields_iff _) (verify_ipv4_iff _ _ _ _ _ _)
  verify_header_iff layer (ipv6 a) (ipv6 s) ha hs =
      through (of_fields_iff _) (verify_ipv6_iff _ _ _ _ _ _)
  verify_header_iff layer (tcp a au) (tcp s su) ha hs =
      through (of_fields_iff _) (verify_tcp_iff _ _ _ _ _ _ _)
  verify_header_iff layer (gre a) (gre s) ha hs = through (of_layer_iff _) (gre_iff a s)
  verify_header_iff layer (mpls n a) (mpls m s) (j, en, la) (k, em, ls) = through (of_layer_iff _) (
      subst (λ m. (verify_mpls n m a s ≡ ok_layer) ↔ ((n ≡ m) × (take m a ≡ take m s))) (sym em)
        (verify_mpls_iff n k a s la (omega arith)))
  verify_header_iff layer sctp sctp ha hs = through (of_chunks_iff _) (
      verify_sctp_iff actual_packet.memory actual_packet.payload actual_packet.packet_end
        script_packet.chunk_list bytes inside ordered)
  verify_header_iff layer (udp a) (udp s) ha hs = through (of_layer_iff _) (udp_iff a s udp_encaps)
  verify_header_iff layer (udplite a) (udplite s) ha hs = through (of_layer_iff _) (udplite_iff a s)
  verify_header_iff layer icmpv4 icmpv4 ha hs = (λ e. absurd (cc e), λ e. elim e [ ])
  verify_header_iff layer icmpv6 icmpv6 ha hs = (λ e. absurd (cc e), λ e. elim e [ ])
  verify_header_iff layer a s ha hs = (λ e. absurd (cc e), λ e. elim e [ ])

  headers_loop_iff :
      (i : ℕ) (as_ ss : List LayerHeader)
      → All IsHeld as_
      → All IsHeld ss
      → length as_ ≡ length ss
      → (headers_loop actual_packet script_packet udp_encaps i as_ ss ≡ ok)
        ↔ HeadersMatch actual_packet script_packet udp_encaps as_ ss
  unfolding headers_loop HeadersMatch
  headers_loop_iff i [] [] ha hs e = (λ e. tt, λ u. refl)
  headers_loop_iff i (a ∷ as_) (s ∷ ss) (ha, has) (hs, hss) e =
      then_iff _ _ (verify_header_iff i a s ha hs)
        (headers_loop_iff (suc i) as_ ss has hss (omega arith))
  headers_loop_iff i [] (s ∷ ss) ha hs e = absurd (omega arith)
  headers_loop_iff i (a ∷ as_) [] ha hs e = absurd (omega arith)

  HeadersMatch-length :
      (as_ ss : List LayerHeader)
      → HeadersMatch actual_packet script_packet udp_encaps as_ ss
      → length as_ ≡ length ss
  unfolding HeadersMatch
  HeadersMatch-length [] [] h = refl
  HeadersMatch-length (a ∷ as_) (s ∷ ss) (h, hs) = ap suc (HeadersMatch-length as_ ss hs)
  HeadersMatch-length [] (s ∷ ss) h = elim h [ ]
  HeadersMatch-length (a ∷ as_) [] h = elim h [ ]

  -- If both packets' label stacks are held in memory and of whole entries, the live packet has an
  -- IP header and an SCTP, TCP, UDP or UDPLite header, and its SCTP payload lies in a memory of
  -- bytes, then `verify_outbound_live_headers` passes exactly if the live packet has as many
  -- headers as the script's and each matches.
  pub verify_outbound_live_headers_iff :
      actual_packet.has_ip ≡ true
      → actual_packet.has_transport ≡ true
      → All IsHeld actual_packet.headers
      → All IsHeld script_packet.headers
      → (verify_outbound_live_headers actual_packet script_packet udp_encaps ≡ ok)
        ↔ HeadersMatch actual_packet script_packet udp_encaps actual_packet.headers
            script_packet.headers
  unfolding verify_outbound_live_headers
  verify_outbound_live_headers_iff ip transport ha hs =
      simp (ip, transport)
        (elim (Bool-cases (length actual_packet.headers == length script_packet.headers)) [
          | inl same ↦
              rw same (
                headers_loop_iff 0 actual_packet.headers script_packet.headers ha hs (ground arith))
          | inr other ↦
              rw other (λ e. absurd (cc e), λ m. absurd (ground (arith, HeadersMatch-length _ _ m)))
        ])
