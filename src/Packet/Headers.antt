-- ===== src/Packet/Headers.antt =====
-- The header array: a stack that grows by `packet_append_header` and describes adjacent ranges of
-- the buffer.
use packetdrill.Base.{
  ℕ, zero, suc, ◌+◌, ◌≤◌, ◌<◌, ◌≡◌, refl, true, false, List, [], ◌∷◌, arith, length, set, some,
  get_elem?-in_range, Bool-cases, inl, inr, if◌then◌else◌, ap, ◌∙◌, sym,
}
use packetdrill.Packet.{Header, HeaderType, is_none, header_count, set_header_total, header_before}

-- After the first empty slot all slots are empty.
abbrev pub AllEmpty : List Header → Type 0
AllEmpty [] = Unit {0}
AllEmpty (h ∷ hs) = (is_none h.type ≡ true) × AllEmpty hs

-- Slots `h ∷ hs` from offset `o`: each header in use begins where the last one ended, holds its own
-- bytes, and what it holds ends by `limit`.
pub data Layout (limit : ℕ) : ℕ → List Header → Type 0 where
  done : {o : ℕ} {hs : List Header} → AllEmpty hs → Layout limit o hs
  more :
      {o : ℕ} {h : Header} {hs : List Header}
      → is_none h.type ≡ false
      → h.ptr ≡ o
      → h.header_bytes ≤ h.total_bytes
      → o + h.total_bytes ≤ limit
      → Layout limit (o + h.header_bytes) hs
      → Layout limit o (h ∷ hs)

-- Where the headers in use end.
unfoldable pub layout_end : ℕ → List Header → ℕ
layout_end o [] = o
layout_end o (h ∷ hs) = if is_none h.type then o else layout_end (o + h.header_bytes) hs

abbrev pub new_header : HeaderType → ℕ → ℕ → ℕ → Header
new_header t bytes total ptr = record {
  type = t;
  header_bytes = bytes;
  total_bytes = total;
  ptr = ptr;
}

-- An append followed by the assignment of the total.
abbrev pub push : List Header → HeaderType → ℕ → ℕ → ℕ → List Header
push hs t bytes total ptr =
    set_header_total (set hs (header_count hs) (new_header t bytes 0 ptr)) (header_count hs) total

push-empty :
    (h : Header) (hs : List Header) (t : HeaderType) (bytes total ptr : ℕ)
    → is_none h.type ≡ true
    → push (h ∷ hs) t bytes total ptr ≡ new_header t bytes total ptr ∷ hs
unfolding set_header_total header_count
push-empty h hs t bytes total ptr e = rw e

push-used :
    (h : Header) (hs : List Header) (t : HeaderType) (bytes total ptr : ℕ)
    → is_none h.type ≡ false
    → push (h ∷ hs) t bytes total ptr ≡ h ∷ push hs t bytes total ptr
unfolding set_header_total header_count
push-used h hs t bytes total ptr e = rw e

header_count-used :
    (h : Header) (hs : List Header)
    → is_none h.type ≡ false
    → header_count (h ∷ hs) ≡ suc (header_count hs)
unfolding header_count
header_count-used h hs e = rw e

header_count-empty : (hs : List Header) → AllEmpty hs → header_count hs ≡ 0
unfolding header_count
header_count-empty [] h = refl
header_count-empty (x ∷ hs) (h, hs_empty) = rw h

layout_end-used :
    (o : ℕ) (h : Header) (hs : List Header)
    → is_none h.type ≡ false
    → layout_end o (h ∷ hs) ≡ layout_end (o + h.header_bytes) hs
unfolding layout_end
layout_end-used o h hs e = rw e

layout_end-empty : (o : ℕ) (hs : List Header) → AllEmpty hs → layout_end o hs ≡ o
unfolding layout_end
layout_end-empty o [] h = refl
layout_end-empty o (x ∷ hs) (h, hs_empty) = rw h

pub length-push :
    (hs : List Header) (t : HeaderType) (bytes total ptr : ℕ)
    → length (push hs t bytes total ptr) ≡ length hs
unfolding set_header_total header_count
length-push [] t bytes total ptr = refl
length-push (h ∷ hs) t bytes total ptr = elim (Bool-cases (is_none h.type)) [
  | inl e ↦ rw e
  | inr e ↦ rw e (ap suc (length-push hs t bytes total ptr))
]

module _ (limit : ℕ) (t : HeaderType) (bytes total : ℕ) (used : is_none t ≡ false) where
  pub count-push :
      {o : ℕ} {hs : List Header} (ptr : ℕ)
      → Layout limit o hs
      → header_count hs < length hs
      → header_count (push hs t bytes total ptr) ≡ suc (header_count hs)
  count-push {hs = []} ptr (done a) h = elim h [ ]
  count-push {hs = x ∷ hs} ptr (done (a, none_used)) h = rw (push-empty x hs t bytes total ptr a) (
      header_count-used (new_header t bytes total ptr) hs used
      ∙ ap suc (header_count-empty hs none_used ∙ sym (header_count-empty (x ∷ hs) (a, none_used))))
  count-push ptr (more {h = x} {hs = hs} e p q r l) h =
      let c = header_count-used x hs e in
      rw (push-used x hs t bytes total ptr e) (
        header_count-used x (push hs t bytes total ptr) e
        ∙ ap suc (count-push ptr l (omega arith) ∙ sym c))

  pub Layout-push :
      {o : ℕ} {hs : List Header} (ptr : ℕ)
      → Layout limit o hs
      → header_count hs < length hs
      → ptr ≡ layout_end o hs
      → bytes ≤ total
      → ptr + total ≤ limit
      → Layout limit o (push hs t bytes total ptr)
  Layout-push {hs = []} ptr (done a) h e fits inside = elim h [ ]
  Layout-push {o} {hs = x ∷ hs} ptr (done (a, none_used)) h e fits inside =
      let at_o : ptr ≡ o = e ∙ layout_end-empty o (x ∷ hs) (a, none_used) in
      rw (push-empty x hs t bytes total ptr a) (more used at_o fits (omega arith) (done none_used))
  Layout-push {o} ptr (more {h = x} {hs = hs} u p q r l) h e fits inside =
      let c = header_count-used x hs u in
      rw (push-used x hs t bytes total ptr u)
        (more u p q r (Layout-push ptr l (omega arith) (e ∙ layout_end-used o x hs u) fits inside))

  pub end-push :
      {o : ℕ} {hs : List Header} (ptr : ℕ)
      → Layout limit o hs
      → header_count hs < length hs
      → layout_end o (push hs t bytes total ptr) ≡ layout_end o hs + bytes
  end-push {hs = []} ptr (done a) h = elim h [ ]
  end-push {o} {hs = x ∷ hs} ptr (done (a, none_used)) h =
      rw (push-empty x hs t bytes total ptr a, layout_end-empty o (x ∷ hs) (a, none_used))
        (layout_end-used o (new_header t bytes total ptr) hs used
          ∙ layout_end-empty (o + bytes) hs none_used)
  end-push {o} ptr (more {h = x} {hs = hs} u p q r l) h =
      let c = header_count-used x hs u in
      rw (push-used x hs t bytes total ptr u, layout_end-used o x hs u)
        (layout_end-used o x (push hs t bytes total ptr) u ∙ end-push ptr l (omega arith))

pub header_before-in_range :
    (hs : List Header) (n : ℕ)
    → 0 < n
    → n ≤ length hs
    → (h : Header) × (header_before hs n ≡ some h)
unfolding header_before
header_before-in_range hs zero pos h = absurd (omega arith)
header_before-in_range hs (suc n) pos h = get_elem?-in_range hs n (omega arith)
