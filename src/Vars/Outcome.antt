-- ===== src/Vars/Outcome.antt =====
-- `resolveRef` against `ExtractVarRefs`: which texts resolve, and why the others do not.
use nvoi.Base.{ℕ, subst, zero, suc, ◌≤◌, ◌<◌, Bytes, ◌≡◌, refl, none, some, List, [], ◌∷◌}
use nvoi.Base.{arith, cut, nat_eq, length, Bool-cases, Option-cases}
use nvoi.Base.{inl, inr, true, false, Bool, ◌&&◌, ◌||◌, not, ==_refl, contains, lookup, Dict, All}
use nvoi.Base.{is_some, has_byte}
use nvoi.Vars.{
  span_var, is_var_char, is_var_start, has_var_ref, extract_braced, extract_at, extract_loop,
}
use nvoi.Vars.{
  extract_var_refs, Resolved, ok, err, unclosed, unknown, out_of_fuel, write, substitute,
}
use nvoi.Vars.{resolve_braced, resolve_at, resolve_loop, resolve_ref}
use nvoi.Vars.Fuel.{cut-length, span_var-length}

-- A `${` with no `}` behind it.
abbrev pub opens_unclosed : Bytes → Bool
opens_unclosed [] = false
opens_unclosed (next ∷ s) = nat_eq next b'{' && not (has_byte b'}' s)

abbrev pub has_unclosed : Bytes → Bool
has_unclosed [] = false
has_unclosed (c ∷ s) = (nat_eq c b'$' && opens_unclosed s) || has_unclosed s

cut-none : (c : ℕ) (s : Bytes) → cut c s ≡ none → has_byte c s ≡ false
unfolding cut has_byte
cut-none c [] h = refl
cut-none c (x ∷ s) h = ground (arith, cut-none c s)

opens_unclosed-closed : (s : Bytes) → has_byte b'}' s ≡ true → opens_unclosed s ≡ false
unfolding has_byte
opens_unclosed-closed [] h = refl
opens_unclosed-closed (x ∷ s) h = ground arith

-- What is cut off at the first `}` holds no unclosed reference that closes later.
cut-unclosed :
    (s a b : Bytes)
    → cut b'}' s ≡ some (a, b)
    → (has_unclosed s ≡ has_unclosed b) × (has_byte b'}' s ≡ true)
unfolding cut has_byte
cut-unclosed [] a b h = cc
cut-unclosed (x ∷ s) a b h = elim (Bool-cases (nat_eq x b'}')) [
  | inl e ↦ ground arith
  | inr e ↦ elim (Option-cases (cut b'}' s)) [
    | inl n ↦ ground arith
    | inr ((a', b'), p) ↦ ground (arith, cut-unclosed s a' b' p, opens_unclosed-closed s)
  ]
]

span_var-unclosed : (s : Bytes) → has_unclosed s ≡ has_unclosed (span_var s).1
unfolding span_var is_var_char is_var_start
span_var-unclosed [] = refl
span_var-unclosed (c ∷ s) = ground (arith, span_var-unclosed s)

-- `k` has a value.
abbrev pub IsKnown : Dict Bytes → Bytes → Type 0
IsKnown sources k = is_some (lookup k sources) ≡ true

-- What a result says about the text: `refs` are its references, `dangling` whether one is unclosed.
abbrev pub Explains : Dict Bytes → List Bytes → Bool → Resolved → Type 0
Explains sources refs dangling (ok out) = (dangling ≡ false) × All (IsKnown sources) refs
Explains sources refs dangling (err unclosed) = dangling ≡ true
Explains sources refs dangling (err (unknown k)) =
    (contains k refs ≡ true) × (lookup k sources ≡ none)
Explains sources refs dangling (err out_of_fuel) = ⊥

module _ (sources : Dict Bytes) where
  Explains-write :
      (v : Bytes) (refs : List Bytes) (dangling : Bool) (r : Resolved)
      → Explains sources refs dangling r
      → Explains sources refs dangling (write v r)
  Explains-write v refs dangling (ok out) h = h
  Explains-write v refs dangling (err unclosed) h = h
  Explains-write v refs dangling (err (unknown k)) h = h
  Explains-write v refs dangling (err out_of_fuel) h = h

  Explains-cons :
      (k v : Bytes) (refs : List Bytes) (dangling : Bool) (r : Resolved)
      → lookup k sources ≡ some v
      → Explains sources refs dangling r
      → Explains sources (k ∷ refs) dangling (write v r)
  unfolding contains
  Explains-cons k v refs dangling (ok out) e (h, hs) = (h, (rw e refl, hs))
  Explains-cons k v refs dangling (err unclosed) e h = h
  Explains-cons k v refs dangling (err (unknown j)) e (h, n) = (ground arith, n)
  Explains-cons k v refs dangling (err out_of_fuel) e h = h

  Explains-cast :
      {refs refs' : List Bytes} {d d' : Bool} {r r' : Resolved}
      → Explains sources refs' d' r'
      → refs ≡ refs'
      → d ≡ d'
      → r ≡ r'
      → Explains sources refs d r
  Explains-cast h p q e = rw (p, q, e) h

  Explains-substitute :
      (k : Bytes) (refs : List Bytes) (dangling : Bool) (r : Resolved)
      → Explains sources refs dangling r
      → Explains sources (k ∷ refs) dangling (substitute k (lookup k sources) r)
  unfolding substitute contains
  Explains-substitute k refs dangling r h = elim (Option-cases (lookup k sources)) [
    | inl missing ↦ rw (missing, substitute) (ground (arith, ==_refl k), missing)
    | inr (v, found) ↦ rw (found, substitute) (Explains-cons k v refs dangling r found h)
  ]

name-unclosed :
    (n : ℕ) (s : Bytes)
    → nat_eq n b'{' ≡ false
    → is_var_start n ≡ true
    → has_unclosed (span_var s).1 ≡ has_unclosed (b'$' ∷ n ∷ s)
unfolding is_var_start
name-unclosed n s e v = ground (arith, span_var-unclosed s)

module _ (sources : Dict Bytes) (es : Bytes → List Bytes) (rs : Bytes → Resolved) where
  -- What the later rounds of the two loops give for shorter texts.
  abbrev Agree : Bytes → Type 0
  Agree s = Explains sources (es s) (has_unclosed s) (rs s)

  at-braced :
      (s : Bytes)
      → ((t : Bytes) → length t < length s → Agree t)
      → Explains sources
          (extract_braced es (cut b'}' s))
          (not (has_byte b'}' s) || has_unclosed s)
          (resolve_braced sources rs (cut b'}' s))
  unfolding extract_braced resolve_braced
  at-braced s ih = elim (Option-cases (cut b'}' s)) [
    | inl missing ↦ rw missing (ground (arith, cut-none b'}' s missing))
    | inr ((a, b), found) ↦ rw (found) (
        rw ((cut-unclosed s a b found).1, (cut-unclosed s a b found).0)
          (Explains-substitute sources a (es b) (has_unclosed b) (rs b)
            (ih b (cut-length b'}' s a b found))))
  ]

  -- A character that starts no reference.
  at-literal :
      (c n : ℕ) (s : Bytes)
      → (nat_eq c b'$' && opens_unclosed (n ∷ s)) ≡ false
      → Agree (n ∷ s)
      → Explains sources (es (n ∷ s)) (has_unclosed (c ∷ n ∷ s)) (write (c ∷ []) (rs (n ∷ s)))
  at-literal c n s e h = rw e (Explains-write sources (c ∷ []) _ _ (rs (n ∷ s)) h)

  at-name :
      (n : ℕ) (s : Bytes)
      → nat_eq n b'{' ≡ false
      → is_var_start n ≡ true
      → ((t : Bytes) → length t < length (n ∷ s) → Agree t)
      → Explains sources ((n ∷ (span_var s).0) ∷ es (span_var s).1) (has_unclosed (b'$' ∷ n ∷ s)) (
          substitute (n ∷ (span_var s).0) (lookup (n ∷ (span_var s).0) sources) (rs (span_var s).1))
  at-name n s e v ih =
      subst
        (λ d. Explains sources ((n ∷ (span_var s).0) ∷ es (span_var s).1) d (
          substitute (n ∷ (span_var s).0) (lookup (n ∷ (span_var s).0) sources)
            (rs (span_var s).1)))
        (name-unclosed n s e v)
        (Explains-substitute sources (n ∷ (span_var s).0) _ _ (rs (span_var s).1)
          (ih (span_var s).1 (omega (arith, span_var-length s))))

  at-Explains :
      (c n : ℕ) (s : Bytes)
      → ((t : Bytes) → length t < length (c ∷ n ∷ s) → Agree t)
      → Explains sources
          (extract_at es c n s)
          (has_unclosed (c ∷ n ∷ s))
          (resolve_at sources rs c n s)
  unfolding extract_at resolve_at
  at-Explains c n s ih = elim (Bool-cases (nat_eq c b'$')) [
    | inr e ↦
        Explains-cast sources (at-literal c n s (ground arith) (ih (n ∷ s) (omega arith)))
          (ground arith) refl (ground arith)
    | inl e ↦ elim (Bool-cases (nat_eq n b'{')) [
      | inl f ↦
          Explains-cast sources (at-braced s (λ t lt. ih t (omega arith))) (ground arith)
            (ground arith) (ground arith)
      | inr f ↦ elim (Bool-cases (is_var_start n)) [
        | inl v ↦
            Explains-cast sources {refs' = (n ∷ (span_var s).0) ∷ es (span_var s).1}
              (at-name n s f v (λ t lt. ih t (omega arith))) (ground arith) (ground arith)
              (ground arith)
        | inr v ↦
            Explains-cast sources (at-literal c n s (ground arith) (ih (n ∷ s) (omega arith)))
              (ground arith) refl (ground arith)
      ]
    ]
  ]

module _ (sources : Dict Bytes) where
  loop-Explains :
      (f : ℕ) (s : Bytes)
      → length s ≤ f
      → Explains sources (extract_loop f s) (has_unclosed s) (resolve_loop sources f s)
  unfolding extract_loop resolve_loop
  loop-Explains zero [] h = (refl, tt)
  loop-Explains zero (c ∷ s) h = absurd (omega arith)
  loop-Explains (suc f) [] h = (refl, tt)
  loop-Explains (suc f) (c ∷ []) h = (ground arith, tt)
  loop-Explains (suc f) (c ∷ n ∷ s) h =
      at-Explains sources (extract_loop f) (resolve_loop sources f) c n s
        (λ t lt. loop-Explains f t (omega arith))

no_ref-closed :
    (f : ℕ) (s : Bytes) → has_var_ref s ≡ false → (extract_loop f s ≡ []) × (has_unclosed s ≡ false)
unfolding has_var_ref extract_loop extract_at is_var_start
no_ref-closed zero [] h = (refl, refl)
no_ref-closed zero (c ∷ []) h = (refl, ground arith)
no_ref-closed zero (c ∷ n ∷ s) h = (refl, (ground (arith, no_ref-closed zero (n ∷ s))))
no_ref-closed (suc f) [] h = (refl, refl)
no_ref-closed (suc f) (c ∷ []) h = (refl, ground arith)
no_ref-closed (suc f) (c ∷ n ∷ s) h = ground (arith, no_ref-closed f (n ∷ s))

-- `resolveRef` succeeds exactly when the text has no `${` that is never closed and the sources
-- have a value for each reference that `ExtractVarRefs` lists. If it fails, it names a listed
-- reference that has no value, or the text has an unclosed `${`. It never runs out of fuel.
pub resolve_ref-Explains :
    (sources : Dict Bytes) (val : Bytes)
    → Explains sources (extract_var_refs val) (has_unclosed val) (resolve_ref sources val)
unfolding extract_var_refs resolve_ref
resolve_ref-Explains sources val = elim (Bool-cases (has_var_ref val)) [
  | inl some_ref ↦ rw some_ref (loop-Explains sources (length val) val (omega arith))
  | inr no_ref ↦
      let (none_listed, closed) = no_ref-closed (length val) val no_ref in
      rw no_ref (closed, rw none_listed tt)
]
