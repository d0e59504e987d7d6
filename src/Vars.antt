-- ===== src/Vars.antt =====
-- `$VAR` references: pkg/utils/envvars.go and internal/reconcile/envvars.go. A loop over an index
-- is a recursion on the suffix behind it, on fuel; the length of the text is enough fuel.
pub mod Fuel
pub mod Behind
pub mod Outcome
pub mod Pieces
use nvoi.Base.{
  ℕ, zero, suc, Bytes, bytes, Dict, Option, none, some, Bool, true, false, List, [], ◌∷◌,
}
use nvoi.Base.{◌++◌, ◌&&◌, ◌||◌, if◌then◌else◌, cut, nat_eq, is_lower, is_upper, is_digit, length}
use nvoi.Base.{lookup}

unfoldable pub is_var_start : ℕ → Bool
is_var_start b = is_upper b || is_lower b || nat_eq b b'_'

unfoldable pub is_var_char : ℕ → Bool
unfolding is_var_start
is_var_char b = is_var_start b || is_digit b

-- the loop `for j < len(s) && IsVarChar(s[j])`: the name's characters, and what follows them
unfoldable pub span_var : Bytes → Bytes × Bytes
unfolding is_var_char
span_var [] = ([], [])
span_var (c ∷ s) = if is_var_char c then (c ∷ (span_var s).0, (span_var s).1) else ([], c ∷ s)

unfoldable pub has_var_ref : Bytes → Bool
unfolding is_var_start
has_var_ref [] = false
has_var_ref (c ∷ []) = false
has_var_ref (c ∷ next ∷ s) =
    if nat_eq c b'$' && (nat_eq next b'{' || is_var_start next)
    then true
    else has_var_ref (next ∷ s)

-- `rest` makes the loop's next rounds.
extract_braced : (rest : Bytes → List Bytes) → Option (Bytes × Bytes) → List Bytes
extract_braced rest none = []
extract_braced rest (some r) = r.0 ∷ rest r.1

extract_at : (rest : Bytes → List Bytes) (c next : ℕ) → Bytes → List Bytes
unfolding extract_braced is_var_start span_var
extract_at rest c next s =
    if nat_eq c b'$'
    then (if nat_eq next b'{'
        then extract_braced rest (cut b'}' s)
        else if is_var_start next
        then (next ∷ (span_var s).0) ∷ rest (span_var s).1
        else rest (next ∷ s))
    else rest (next ∷ s)

extract_loop : ℕ → Bytes → List Bytes
unfolding extract_at
extract_loop zero s = []
extract_loop (suc f) [] = []
extract_loop (suc f) (c ∷ []) = []
extract_loop (suc f) (c ∷ next ∷ s) = extract_at (extract_loop f) c next s

unfoldable pub extract_var_refs : Bytes → List Bytes
unfolding extract_loop
extract_var_refs s = extract_loop (length s) s

pub data RefError : Type 0 where
  unclosed : RefError
  unknown : Bytes → RefError
  out_of_fuel : RefError

pub data Resolved : Type 0 where
  ok : Bytes → Resolved
  err : RefError → Resolved

-- `b.WriteByte` and `b.WriteString` in front of what the later rounds write
abbrev pub write : Bytes → Resolved → Resolved
write v (ok out) = ok (v ++ out)
write v (err e) = err e

substitute : (name : Bytes) → Option Bytes → Resolved → Resolved
substitute name none rest = err (unknown name)
substitute name (some v) rest = write v rest

module _ (sources : Dict Bytes) where
  resolve_braced : (rest : Bytes → Resolved) → Option (Bytes × Bytes) → Resolved
  unfolding substitute
  resolve_braced rest none = err unclosed
  resolve_braced rest (some r) = substitute r.0 (lookup r.0 sources) (rest r.1)

  resolve_at : (rest : Bytes → Resolved) (c next : ℕ) → Bytes → Resolved
  unfolding resolve_braced substitute is_var_start span_var
  resolve_at rest c next s =
      if nat_eq c b'$'
      then (if nat_eq next b'{'
          then resolve_braced rest (cut b'}' s)
          else if is_var_start next
          then (let name = next ∷ (span_var s).0 in
              substitute name (lookup name sources) (rest (span_var s).1))
          else write (c ∷ []) (rest (next ∷ s)))
      else write (c ∷ []) (rest (next ∷ s))

  resolve_loop : ℕ → Bytes → Resolved
  unfolding resolve_at
  resolve_loop zero [] = ok []
  resolve_loop zero (c ∷ s) = err out_of_fuel
  resolve_loop (suc f) [] = ok []
  resolve_loop (suc f) (c ∷ []) = ok (c ∷ [])
  resolve_loop (suc f) (c ∷ next ∷ s) = resolve_at (resolve_loop f) c next s

  unfoldable pub resolve_ref : Bytes → Resolved
  unfolding resolve_loop has_var_ref
  resolve_ref val = if has_var_ref val then resolve_loop (length val) val else ok val
