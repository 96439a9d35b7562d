-- ===== src/Parser/Rules.antt =====
-- The precondition under which a parsing function is called, the postcondition that each leaves,
-- and one rule for each kind of statement.
use packetdrill.Base.{
  ℕ, suc, ◌+◌, ◌*◌, ◌≤◌, ◌<◌, ◌%◌, ◌≡◌, refl, true, false, Option, none, some, List, arith, length,
  leb, set, get_elem?-in_range, be16, Bool-cases, inl, inr, ltb, All, IsByte, ap, sym, ◌∙◌, ◌⊎◌,
  ◌==◌,
}
use packetdrill.Packet.{
  Packet, HeaderType, is_none, header_count, packet_append_header, set_total_bytes,
}
use packetdrill.Packet.Headers.{
  Layout, layout_end, push, length-push, count-push, Layout-push, end-push, new_header,
}
use packetdrill.Parser.Outcome.{Outcome, done, fault, stuck, byte, read16, read32}

-- What holds of the packet throughout: `buffer` is the buffer's content at the start, `limit` the
-- end of the packet. At least one byte of the buffer lies behind the packet.
pub record IsKept (buffer : List ℕ) (limit : ℕ) (packet : Packet) : Type 0 where
  pub same_buffer : packet.buffer ≡ buffer
  pub slots : length packet.headers ≡ 6
  pub layout : Layout limit 0 packet.headers

-- Before a function is called at offset `p`, with at least `n` headers before it.
pub record IsReady (buffer : List ℕ) (limit n p : ℕ) (packet : Packet) : Type 0 where
  pub kept : IsKept buffer limit packet
  pub at_end : layout_end 0 packet.headers ≡ p
  pub bytes_before : packet.ip_bytes ≡ p
  pub aligned : p % 4 ≡ 0
  pub enough : n ≤ header_count packet.headers
  pub at_most : header_count packet.headers ≤ 6
  pub inside : p ≤ limit
  pub spare : limit < length buffer
  pub allocated : packet.buffer_bytes ≡ length buffer
  pub bytes : All IsByte buffer

-- The function returns, with no failed assertion and no read outside the buffer.
abbrev pub Returns : List ℕ → ℕ → Outcome → Type 0
Returns buffer limit (done r packet) = IsKept buffer limit packet
Returns buffer limit fault = ⊥
Returns buffer limit stuck = ⊥

pub data Found (o : Option ℕ) : Type 0 where
  found : (x : ℕ) → o ≡ some x → Found o

pub byte-Found : (packet : Packet) (i : ℕ) → i < length packet.buffer → Found (byte packet i)
byte-Found packet i h = let (x, e) = get_elem?-in_range packet.buffer i h in found x e

pub read16-Found :
    (packet : Packet) (i : ℕ) → i + 1 < length packet.buffer → Found (read16 packet i)
read16-Found packet i h =
    let (x, e) = get_elem?-in_range packet.buffer i (omega arith) in
    let (y, d) = get_elem?-in_range packet.buffer (i + 1) h in found (be16 x y) (rw (e, d) refl)

pub read32-Found :
    (packet : Packet) (i : ℕ) → i + 3 < length packet.buffer → Found (read32 packet i)
read32-Found packet i h = elim (read16-Found packet i (omega arith)) [
  | found hi e ↦ elim (read16-Found packet (i + 2) (omega arith)) [
    | found lo d ↦ found (hi * 65536 + lo) (rw (e, d))
  ]
]

pub leb-true : (a b : ℕ) → a ≤ b → leb a b ≡ true
leb-true a b h = ground arith

module _ (buffer : List ℕ) (limit : ℕ) where
  -- Only the buffer, the sizes and the header array matter.
  pub IsReady-same :
      {n p : ℕ} {packet : Packet} (other : Packet)
      → other.buffer ≡ packet.buffer
      → other.buffer_bytes ≡ packet.buffer_bytes
      → other.ip_bytes ≡ packet.ip_bytes
      → other.headers ≡ packet.headers
      → IsReady buffer limit n p packet
      → IsReady buffer limit n p other
  IsReady-same other b s i h ready = record {
    kept = record {
      same_buffer = b ∙ ready.kept.same_buffer;
      slots = ap length h ∙ ready.kept.slots;
      layout = rw h ready.kept.layout;
    };
    at_end = rw h ready.at_end;
    bytes_before = i ∙ ready.bytes_before;
    aligned = ready.aligned;
    enough = rw h ready.enough;
    at_most = rw h ready.at_most;
    inside = ready.inside;
    spare = ready.spare;
    allocated = s ∙ ready.allocated;
    bytes = ready.bytes;
  }

  -- The header is appended at the offset that the function was called with.
  pub appended-IsReady :
      {n p : ℕ} {packet : Packet} (t : HeaderType) (bytes total : ℕ)
      → IsReady buffer limit n p packet
      → is_none t ≡ false
      → bytes ≤ total
      → p + total ≤ limit
      → bytes % 4 ≡ 0
      → (header_count packet.headers == 6) ≡ false
      → (other : Packet) → other.buffer ≡ packet.buffer
      → other.buffer_bytes ≡ packet.buffer_bytes
      → other.ip_bytes ≡ packet.ip_bytes + bytes
      → other.headers ≡ push packet.headers t bytes total packet.ip_bytes
      → IsReady buffer limit (suc n) (p + bytes) other
  appended-IsReady {packet = packet} t bytes total ready used fits inside aligned not_full other b s
        i h =
      let room : header_count packet.headers < length packet.headers =
        ground (arith, ready.at_most, ready.kept.slots) in
      let count = count-push limit t bytes total used packet.ip_bytes ready.kept.layout room in
      let at_end : packet.ip_bytes ≡ layout_end 0 packet.headers =
        ready.bytes_before ∙ sym ready.at_end in
      record {
        kept = record {
          same_buffer = b ∙ ready.kept.same_buffer;
          slots =
              ap length h
              ∙ length-push packet.headers t bytes total packet.ip_bytes
              ∙ ready.kept.slots;
          layout = rw h (
              Layout-push limit t bytes total used packet.ip_bytes ready.kept.layout room at_end
                fits (omega (arith, ready.bytes_before)));
        };
        at_end = rw h (
            end-push limit t bytes total used packet.ip_bytes ready.kept.layout room
            ∙ ap (λ (x : ℕ). x + bytes) ready.at_end);
        bytes_before = i ∙ ap (λ (x : ℕ). x + bytes) ready.bytes_before;
        aligned = omega (arith, ready.aligned);
        enough = rw (h, count) (omega (arith, ready.enough));
        at_most = rw (h, count) (omega (arith, room, ready.kept.slots));
        inside = omega arith;
        spare = ready.spare;
        allocated = s ∙ ready.allocated;
        bytes = ready.bytes;
      }

  pub append-cases :
      {n p : ℕ} {packet : Packet} (t : HeaderType) (bytes total : ℕ)
      → IsReady buffer limit n p packet
      → is_none t ≡ false
      → bytes ≤ total
      → p + total ≤ limit
      → bytes % 4 ≡ 0
      → (packet_append_header packet t bytes ≡ none)
        ⊎ ((packet1 : Packet) × (i : ℕ) × (packet_append_header packet t bytes ≡ some (packet1, i))
            × IsReady buffer limit (suc n) (p + bytes) (set_total_bytes packet1 i total))
  unfolding packet_append_header set_total_bytes
  append-cases {packet = packet} t bytes total ready used fits inside aligned =
      elim (Bool-cases (header_count packet.headers == 6)) [
        | inl full ↦ inl (rw full)
        | inr not_full ↦ elim (Bool-cases (ltb packet.buffer_bytes (packet.ip_bytes + bytes))) [
          | inl over ↦ inl (rw (not_full, over))
          | inr within ↦
              let appended_to : Packet = record packet {
                ip_bytes = packet.ip_bytes + bytes;
                headers =
                    set packet.headers (header_count packet.headers)
                      (new_header t bytes 0 packet.ip_bytes);
              } in
              inr (
                appended_to,
                header_count packet.headers,
                rw (not_full, within) refl,
                appended-IsReady t bytes total ready used fits inside aligned not_full
                    (set_total_bytes appended_to (header_count packet.headers) total) refl refl refl
                    refl,
              )
        ]
      ]
