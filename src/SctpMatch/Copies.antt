-- ===== src/SctpMatch/Copies.antt =====
-- A live SCTP chunk that holds the bytes of another one matches what the other one matches.
use packetdrill.Base.{ℕ, zero, suc, ◌+◌, ◌<◌, ◌≡◌, refl, Bool, false, Option, none, some}
use packetdrill.Sctp.{both}
use packetdrill.SctpMatch.Compare.{
  Place, Width, bits8, bits16, bits32, flags_as_word, load, load16, byte_at, both32, shifted,
}
use packetdrill.SctpMatch.Items.{ListItem}
use packetdrill.SctpMatch.Laws.{◌and◌, SameField, SameBytes}
use packetdrill.SctpMatch.Spec.{
  DataMatches, IDataMatches, SackMatches, NrSackChunkMatches, ForwardTsnMatches, IForwardTsnMatches,
  BlobMatches,
}
use packetdrill.SctpMatch.SpecItems.{Either, ParameterMatches, CauseMatches}

-- Every byte of the block from `a` on is at the same offset from `b`.
abbrev pub Copies : Place → Place → Type 0
Copies a b = (i v : ℕ) → byte_at a i ≡ some v → byte_at b i ≡ some v

-- `P` leads to `Q`; kept shut, for `search` to take it as a rule's conclusion.
unfoldable pub Leads : Type 0 → Type 0 → Type 0
Leads P Q = P → Q

both-some :
    (x y x' y' : Option ℕ) (v : ℕ)
    → ((a : ℕ) → x ≡ some a → x' ≡ some a)
    → ((a : ℕ) → y ≡ some a → y' ≡ some a)
    → both x y ≡ some v
    → both x' y' ≡ some v
both-some none y x' y' v hx hy e = absurd (cc e)
both-some (some a) none x' y' v hx hy e = absurd (cc e)
both-some (some a) (some b) x' y' v hx hy e =
    let ex = hx a refl in let ey = hy b refl in rw (ex, ey) e

both32-some :
    (x y x' y' : Option ℕ) (v : ℕ)
    → ((a : ℕ) → x ≡ some a → x' ≡ some a)
    → ((a : ℕ) → y ≡ some a → y' ≡ some a)
    → both32 x y ≡ some v
    → both32 x' y' ≡ some v
both32-some none y x' y' v hx hy e = absurd (cc e)
both32-some (some a) none x' y' v hx hy e = absurd (cc e)
both32-some (some a) (some b) x' y' v hx hy e =
    let ex = hx a refl in let ey = hy b refl in rw (ex, ey) e

shifted-some :
    (x x' : Option ℕ) (v : ℕ)
    → ((a : ℕ) → x ≡ some a → x' ≡ some a)
    → shifted x ≡ some v
    → shifted x' ≡ some v
shifted-some none x' v hx e = absurd (cc e)
shifted-some (some a) x' v hx e = let ex = hx a refl in rw ex e

module _ (a b : Place) (copy : Copies a b) where
  load16-copy : (i v : ℕ) → load16 a i ≡ some v → load16 b i ≡ some v
  unfolding load16
  load16-copy i v =
      both-some (byte_at a i) (byte_at a (i + 1)) (byte_at b i) (byte_at b (i + 1)) v
        (λ w. copy i w) (λ w. copy (i + 1) w)

  pub load-copy : (w : Width) (i v : ℕ) → load w a i ≡ some v → load w b i ≡ some v
  unfolding load
  load-copy bits8 i v = copy i v
  load-copy bits16 i v = load16-copy i v
  load-copy bits32 i v =
      both32-some (load16 a i) (load16 a (i + 2)) (load16 b i) (load16 b (i + 2)) v
        (λ w. load16-copy i w) (λ w. load16-copy (i + 2) w)
  load-copy flags_as_word i v = shifted-some (byte_at a i) (byte_at b i) v (λ w. copy i w)

  pub leads_same :
      (w : Width) (s : Place) (i j : ℕ) → Leads (SameField w s i a j) (SameField w s i b j)
  unfolding Leads
  leads_same w s i j (v, x, y) = (v, x, load-copy w j v y)

  pub leads_bytes :
      (n : ℕ) (s : Place) (i j : ℕ) → Leads (SameBytes n s i a j) (SameBytes n s i b j)
  unfolding Leads
  leads_bytes zero s i j x = x
  leads_bytes (suc n) s i j ((v, x, y), rest) =
      ((v, x, load-copy bits8 j v y), leads_bytes n s (i + 1) (j + 1) rest)

  pub leads_live :
      (w : Width) (i : ℕ) (P Q : ℕ → Type 0)
      → ((v : ℕ) → Leads (P v) (Q v))
      → Leads ((v : ℕ) × (load w a i ≡ some v) × P v) ((v : ℕ) × (load w b i ≡ some v) × Q v)
  unfolding Leads
  leads_live w i P Q f (v, x, y) = (v, load-copy w i v x, f v y)

pub leads_script :
    (o : Option ℕ) (P Q : ℕ → Type 0)
    → ((v : ℕ) → Leads (P v) (Q v))
    → Leads ((v : ℕ) × (o ≡ some v) × P v) ((v : ℕ) × (o ≡ some v) × Q v)
unfolding Leads
leads_script o P Q f (v, x, y) = (v, x, f v y)

pub leads_refl : (P : Type 0) → Leads P P
unfolding Leads
leads_refl P x = x

pub leads_and : (P Q P' Q' : Type 0) → Leads P P' → Leads Q Q' → Leads (P and Q) (P' and Q')
unfolding Leads
leads_and P Q P' Q' f g (x, y) = (f x, g y)

pub leads_wanted : (c : Bool) (P Q : Type 0) → Leads P Q → Leads (c ≡ false → P) (c ≡ false → Q)
unfolding Leads
leads_wanted c P Q f x e = f (x e)

pub leads_either :
    (c : Bool) (P Q P' Q' : Type 0)
    → Leads P P'
    → Leads Q Q'
    → Leads (Either c P Q) (Either c P' Q')
unfolding Leads
leads_either c P Q P' Q' f g (x, y) = (λ e. f (x e), λ e. g (y e))

pub leads_each :
    (n : ℕ) (P Q : ℕ → Type 0)
    → ((k : ℕ) → Leads (P k) (Q k))
    → Leads ((k : ℕ) → k < n → P k) ((k : ℕ) → k < n → Q k)
unfolding Leads
leads_each n P Q f x k h = f k (x k h)

pub ruleset leads = (
  leads_refl, leads_and, leads_wanted, leads_either, leads_each, leads_script, leads_same,
  leads_bytes, leads_live,
)

module _ (a b : Place) (copy : Copies a b) where
  pub data_copy : (s : Place) (flags : ℕ) → Leads (DataMatches a s flags) (DataMatches b s flags)
  data_copy s flags = search leads depth 20

  pub i_data_copy :
      (s : Place) (flags : ℕ) → Leads (IDataMatches a s flags) (IDataMatches b s flags)
  i_data_copy s flags = search leads depth 20

  pub sack_copy : (s : Place) (flags : ℕ) → Leads (SackMatches a s flags) (SackMatches b s flags)
  sack_copy s flags = search (leads, leads_live a b copy) depth 24

  pub nr_sack_copy :
      (s : Place) (flags : ℕ) → Leads (NrSackChunkMatches a s flags) (NrSackChunkMatches b s flags)
  nr_sack_copy s flags = search (leads, leads_live a b copy) depth 30

  pub forward_copy :
      (s : Place) (flags : ℕ) → Leads (ForwardTsnMatches a s flags) (ForwardTsnMatches b s flags)
  forward_copy s flags = search leads depth 20

  pub i_forward_copy :
      (s : Place) (flags : ℕ) → Leads (IForwardTsnMatches a s flags) (IForwardTsnMatches b s flags)
  i_forward_copy s flags = search leads depth 20

  pub blob_copy : (s : Place) (flags : ℕ) → Leads (BlobMatches a s flags) (BlobMatches b s flags)
  blob_copy s flags = search (leads, leads_live a b copy) depth 20

  pub parameter_copy : (item : ListItem) → Leads (ParameterMatches a item) (ParameterMatches b item)
  parameter_copy item = search (leads, leads_live a b copy) depth 30

  pub cause_copy : (item : ListItem) → Leads (CauseMatches a item) (CauseMatches b item)
  cause_copy item = search (leads, leads_live a b copy) depth 20
