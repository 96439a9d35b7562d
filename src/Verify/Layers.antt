-- ===== src/Verify/Layers.antt =====
-- `verify_udp`, `verify_udplite`, `verify_gre` and `verify_mpls` of run_packet.c. A label stack is the
-- bytes from its header on; a comparison outside the memory at hand is `outside`.
use packetdrill.Base.{ℕ, zero, suc, ◌/◌, not, ◌&&◌, List, ◌∷◌, ◌==◌, if◌then◌else◌}
use packetdrill.Parser.Network.{gre_len}

pub data LayerVerdict : Type 0 where
  ok udp_len udplite_cov gre_header_len mpls_depth outside : LayerVerdict
  mpls_label : ℕ → LayerVerdict

unfoldable pub verify_udp : ℕ → ℕ → ℕ → LayerVerdict
verify_udp actual_len script_len udp_encaps =
    if not (udp_encaps == 0) then ok else (if actual_len == script_len then ok else udp_len)

unfoldable pub verify_udplite : ℕ → ℕ → LayerVerdict
verify_udplite actual_cov script_cov = if actual_cov == script_cov then ok else udplite_cov

-- The headers are given by the flags in their first byte.
unfoldable pub verify_gre : ℕ → ℕ → LayerVerdict
verify_gre actual script = if gre_len actual == gre_len script then ok else gre_header_len

-- The loop over the entries of four bytes each; `i` counts those before.
unfoldable pub mpls_entries : ℕ → ℕ → List ℕ → List ℕ → LayerVerdict
mpls_entries zero i actual script = ok
mpls_entries (suc n) i (a ∷ b ∷ c ∷ d ∷ actual) (a' ∷ b' ∷ c' ∷ d' ∷ script) =
    let rest = mpls_entries n (suc i) actual script in
    if (a == a') && ((b == b') && ((c == c') && (d == d'))) then rest else mpls_label i
mpls_entries (suc n) i actual script = outside

unfoldable pub verify_mpls : ℕ → ℕ → List ℕ → List ℕ → LayerVerdict
unfolding mpls_entries
verify_mpls actual_bytes script_bytes actual script =
    if script_bytes == actual_bytes
    then mpls_entries (script_bytes / 4) 0 actual script
    else mpls_depth
