-- ===== src/Vars/Pieces.antt =====
-- Texts that are made of plain parts and `${NAME}` references: what `resolveRef` and
-- `ExtractVarRefs` give on them.
use nvoi.Base.{ℕ, zero, suc, ◌≤◌, ◌<◌, Bytes, ◌≡◌, refl, Option, none, some, List, [], ◌∷◌}
use nvoi.Base.{◌++◌, arith, cut, nat_eq, length, length-append, Option-cases}
use nvoi.Base.{inl, inr, false, lookup, Dict, All, has_byte, ap, sym, ◌∙◌}
use nvoi.Base.{append_assoc}
use nvoi.Vars.{span_var, has_var_ref}
use nvoi.Vars.{Resolved, ok, err, write, substitute}
use nvoi.Vars.{resolve_braced, resolve_at, resolve_loop, resolve_ref}
use nvoi.Vars.Fuel.{cut-length, span_var-length}

pub data Piece : Type 0 where
  plain : Bytes → Piece
  ref : Bytes → Piece

abbrev pub render : List Piece → Bytes
render [] = []
render (plain t ∷ ps) = t ++ render ps
render (ref k ∷ ps) = b'$' ∷ b'{' ∷ (k ++ b'}' ∷ render ps)

-- No `$` in a plain part, and no `}` in a name.
abbrev pub IsPiece : Piece → Type 0
IsPiece (plain t) = has_byte b'$' t ≡ false
IsPiece (ref k) = has_byte b'}' k ≡ false

abbrev pub refs_of : List Piece → List Bytes
refs_of [] = []
refs_of (plain t ∷ ps) = refs_of ps
refs_of (ref k ∷ ps) = k ∷ refs_of ps

abbrev prepend : Option Bytes → Option Bytes → Option Bytes
prepend (some v) (some w) = some (v ++ w)
prepend (some v) none = none
prepend none w = none

-- The text with each reference replaced by its value, if all have one.
abbrev pub expand : Dict Bytes → List Piece → Option Bytes
expand sources [] = some []
expand sources (plain t ∷ ps) = prepend (some t) (expand sources ps)
expand sources (ref k ∷ ps) = prepend (lookup k sources) (expand sources ps)

cut-close : (k s : Bytes) → has_byte b'}' k ≡ false → cut b'}' (k ++ b'}' ∷ s) ≡ some (k, s)
unfolding cut has_byte
cut-close [] s h = refl
cut-close (c ∷ k) s h = ground (arith, cut-close k s)

module _ (sources : Dict Bytes) where
  resolve_at-cong :
      (r1 r2 : Bytes → Resolved) (c n : ℕ) (s : Bytes)
      → ((t : Bytes) → length t < length (c ∷ n ∷ s) → r1 t ≡ r2 t)
      → resolve_at sources r1 c n s ≡ resolve_at sources r2 c n s
  unfolding resolve_at resolve_braced
  resolve_at-cong r1 r2 c n s h = elim (Option-cases (cut b'}' s)) [
    | inl missing ↦ ground (
      arith,
      missing,
      h (n ∷ s) (omega arith),
      h (span_var s).1 (omega (arith, span_var-length s)),
    )
    | inr ((a, b), found) ↦ ground (
      arith,
      found,
      h (n ∷ s) (omega arith),
      h (span_var s).1 (omega (arith, span_var-length s)),
      h b (omega (arith, cut-length b'}' s a b found)),
    )
  ]

  -- More fuel than the text is long changes nothing.
  resolve_loop-fuel :
      (f g : ℕ) (s : Bytes)
      → length s ≤ f
      → length s ≤ g
      → resolve_loop sources f s ≡ resolve_loop sources g s
  unfolding resolve_loop
  resolve_loop-fuel zero zero s h k = refl
  resolve_loop-fuel zero (suc g) [] h k = refl
  resolve_loop-fuel zero (suc g) (c ∷ s) h k = absurd (omega arith)
  resolve_loop-fuel (suc f) zero [] h k = refl
  resolve_loop-fuel (suc f) zero (c ∷ s) h k = absurd (omega arith)
  resolve_loop-fuel (suc f) (suc g) [] h k = refl
  resolve_loop-fuel (suc f) (suc g) (c ∷ []) h k = refl
  resolve_loop-fuel (suc f) (suc g) (c ∷ n ∷ s) h k =
      resolve_at-cong (resolve_loop sources f) (resolve_loop sources g) c n s
        (λ t lt. resolve_loop-fuel f g t (omega arith) (omega arith))

  -- The loop with the fuel that it is given at the start.
  abbrev resolve_all : Bytes → Resolved
  resolve_all s = resolve_loop sources (length s) s

  write-write : (v w : Bytes) (r : Resolved) → write v (write w r) ≡ write (v ++ w) r
  write-write v w (ok out) = ap ok (sym (append_assoc v w out))
  write-write v w (err e) = refl

  resolve_all-char :
      (c : ℕ) (s : Bytes)
      → nat_eq c b'$' ≡ false
      → resolve_all (c ∷ s) ≡ write (c ∷ []) (resolve_all s)
  unfolding resolve_loop resolve_at
  resolve_all-char c [] h = refl
  resolve_all-char c (n ∷ s) h = ground arith

  resolve_all-plain :
      (t s : Bytes) → has_byte b'$' t ≡ false → resolve_all (t ++ s) ≡ write t (resolve_all s)
  unfolding has_byte
  resolve_all-plain [] s h = ground (arith)
  resolve_all-plain (c ∷ t) s h =
      resolve_all-char c (t ++ s) (ground arith)
      ∙ ap (write (c ∷ [])) (resolve_all-plain t s (ground arith))
      ∙ write-write (c ∷ []) t (resolve_all s)

  resolve_all-ref :
      (k s : Bytes)
      → has_byte b'}' k ≡ false
      → resolve_all (b'$' ∷ b'{' ∷ (k ++ b'}' ∷ s))
        ≡ substitute k (lookup k sources) (resolve_all s)
  unfolding resolve_loop resolve_at resolve_braced
  resolve_all-ref k s h = rw (cut-close k s h) (
      ap (substitute k (lookup k sources)) (
        resolve_loop-fuel (suc (length (k ++ b'}' ∷ s))) (length s) s
          (omega (arith, length-append k (b'}' ∷ s))) (omega arith)))

  resolve_all-render :
      (ps : List Piece) (out : Bytes)
      → All IsPiece ps
      → expand sources ps ≡ some out
      → resolve_all (render ps) ≡ ok out
  unfolding resolve_loop substitute
  resolve_all-render [] out h e = ground arith
  resolve_all-render (plain t ∷ ps) out (p, h) e = elim (Option-cases (expand sources ps)) [
    | inl missing ↦ ground arith
    | inr (w, found) ↦
        ground (arith, resolve_all-plain t (render ps) p, resolve_all-render ps w h found)
  ]
  resolve_all-render (ref k ∷ ps) out (p, h) e = elim (Option-cases (expand sources ps)) [
    | inl missing ↦ ground arith
    | inr (w, found) ↦
        ground (arith, resolve_all-ref k (render ps) p, resolve_all-render ps w h found)
  ]

  no_ref-resolve_all : (s : Bytes) → has_var_ref s ≡ false → resolve_all s ≡ ok s
  unfolding has_var_ref resolve_loop resolve_at
  no_ref-resolve_all [] h = refl
  no_ref-resolve_all (c ∷ []) h = refl
  no_ref-resolve_all (c ∷ n ∷ s) h = ground (arith, no_ref-resolve_all (n ∷ s))

  -- On a text of plain parts without `$` and `${NAME}` references that all have values, the names
  -- without `}`, `resolveRef` returns the plain parts with the values in place of the references,
  -- in order.
  pub resolve_ref-render :
      (ps : List Piece) (out : Bytes)
      → All IsPiece ps
      → expand sources ps ≡ some out
      → resolve_ref sources (render ps) ≡ ok out
  unfolding resolve_ref
  resolve_ref-render ps out h e =
      ground (arith, resolve_all-render ps out h e, no_ref-resolve_all (render ps))
