-- ===== src/TcpOptions/RoundTrip.antt =====
-- What is built by `tcp_options_append` is what the loop over options finds.
use packetdrill.Base.{
  ℕ, ◌+◌, ◌≤◌, ◌≡◌, refl, Bool, true, false, List, [], ◌∷◌, ◌++◌, arith, length, length-append,
  take, inl, inr, ap, ◌∙◌, sym, subst, All,
}
use packetdrill.TcpOptions.{TcpOptions, tcp_options_append, tcp_options_new}
use packetdrill.TcpOptions.Append.{IsValid, wire, append-IsValid, new-IsValid}
use packetdrill.TcpOptions.Loops.{options_loop, finished}
use packetdrill.TcpOptions.Walk.{append_assoc, append-nil, IsOption, concat, options_loop-concat}

abbrev and_then : TcpOptions × Bool → (TcpOptions → TcpOptions × Bool) → TcpOptions × Bool
and_then (o, true) f = f o
and_then (o, false) f = (o, false)

-- Appends options in order, up to the first that does not fit.
unfoldable pub append_all : TcpOptions → List (List ℕ) → TcpOptions × Bool
append_all o [] = (o, true)
append_all o (option ∷ options) =
    and_then (tcp_options_append o option (length option)) (λ o'. append_all o' options)

take-length : (xs : List ℕ) → take (length xs) xs ≡ xs
take-length [] = refl
take-length (x ∷ xs) = ap (λ ys. x ∷ ys) (take-length xs)

record Appended (o : TcpOptions) (bytes : List ℕ) (r : TcpOptions × Bool) : Type 0 where
  pub valid : IsValid r.0
  pub success : r.1 ≡ true
  pub size : r.0.length_bytes ≡ o.length_bytes + length bytes
  pub bytes_wire : wire r.0 ≡ wire o ++ bytes

append-Appended :
    (o : TcpOptions) (option : List ℕ)
    → IsValid o
    → o.length_bytes + length option ≤ 40
    → Appended o option (tcp_options_append o option (length option))
unfolding tcp_options_append
append-Appended o option v h =
    let (v', outcome) = append-IsValid o option (length option) v (omega arith) in
    elim outcome [
      | inl full ↦ absurd (omega (arith, full.1))
      | inr fits ↦ record {
        valid = v';
        success = fits.0;
        size = size-append o option h;
        bytes_wire = fits.2 ∙ ap (λ ys. wire o ++ ys) (take-length option);
      }
    ]
  where
    size-append :
        (o : TcpOptions) (option : List ℕ)
        → o.length_bytes + length option ≤ 40
        → (tcp_options_append o option (length option)).0.length_bytes
          ≡ o.length_bytes + length option
    size-append o option h = ground arith

and_then-Appended :
    (o : TcpOptions) (option bytes : List ℕ) (f : TcpOptions → TcpOptions × Bool)
    (r : TcpOptions × Bool)
    → Appended o option r
    → ((o' : TcpOptions)
        → IsValid o'
        → o'.length_bytes ≡ o.length_bytes + length option
        → Appended o' bytes (f o'))
    → Appended o (option ++ bytes) (and_then r f)
and_then-Appended o option bytes f (o', false) a k = absurd (cc a.success)
and_then-Appended o option bytes f (o', true) a k =
    let rest : Appended o' bytes (f o') = k o' a.valid a.size in
    record {
      valid = rest.valid;
      success = rest.success;
      size = omega (arith, rest.size, a.size, length-append option bytes);
      bytes_wire =
          rest.bytes_wire
          ∙ ap (λ ys. ys ++ bytes) a.bytes_wire
          ∙ append_assoc (wire o) option bytes;
    }

append_all-Appended :
    (options : List (List ℕ)) (o : TcpOptions)
    → IsValid o
    → o.length_bytes + length (concat options) ≤ 40
    → Appended o (concat options) (append_all o options)
unfolding append_all
append_all-Appended [] o v h = record {
  valid = v;
  success = refl;
  size = omega arith;
  bytes_wire = sym (append-nil (wire o));
}
append_all-Appended (option ∷ options) o v h =
    let total : length (option ++ concat options) ≡ length option + length (concat options) =
      length-append option (concat options) in
    and_then-Appended o option (concat options) (λ o'. append_all o' options)
      (tcp_options_append o option (length option)) (append-Appended o option v (omega arith))
      (λ o' v' size. append_all-Appended options o' v' (omega arith))

-- Well-formed options of at most 40 bytes in all are appended without error to the empty list,
-- and the loop over the bytes in wire format finds exactly these options.
pub append_all-walk :
    (options : List (List ℕ))
    → All IsOption options
    → length (concat options) ≤ 40
    → ((append_all tcp_options_new options).1 ≡ true)
      × (options_loop 41
            (wire (append_all tcp_options_new options).0)
            (append_all tcp_options_new options).0.length_bytes
          ≡ finished options)
unfolding tcp_options_new
append_all-walk options all_ok h =
    let a : Appended tcp_options_new (concat options) (append_all tcp_options_new options) =
      append_all-Appended options tcp_options_new new-IsValid (omega arith) in
    let size : (append_all tcp_options_new options).0.length_bytes ≡ length (concat options) =
      omega (arith, a.size) in
    (
      a.success,
      rw (a.bytes_wire, size)
          (subst (λ bytes. options_loop 41 bytes (length (concat options)) ≡ finished options)
            (append-nil (concat options)) (options_loop-concat options [] 41 all_ok (omega arith))),
    )
