-- ===== src/Base/Strings.antt =====
-- Go strings: byte sequences, with the functions of the `strings` package that the program uses.
use Prim.Native.Nat.{ℕ, suc}
use Prim.Native.Char.{code}
use Prim.Native.String.{String}
use mathlib.Core.Path.{◌≡◌, refl}
use mathlib.Core.Logic.{◌↔◌}
use mathlib.Core.Bool.{Bool, true, false, ◌&&◌, ◌||◌}
use mathlib.Core.Option.{Option, none, some}
use mathlib.Core.List.{List, [], ◌∷◌, reverse}
use native.Mathlib.Omega.{arith}
use nvoi.Base.Tests.{leb, nat_eq, if◌then◌else◌}

abbrev pub Bytes : Type 0
Bytes = List ℕ

-- The bytes of an ASCII literal. `String` has its own `[]` and `∷`.
abbrev pub bytes : String → Bytes
bytes String.[] = []
bytes (String.◌∷◌ c s) = code c ∷ bytes s

infix 50 ◌==◌
unfoldable pub ◌==◌ : Bytes → Bytes → Bool
[] == [] = true
[] == (y ∷ ys) = false
(x ∷ xs) == [] = false
(x ∷ xs) == (y ∷ ys) = nat_eq x y && xs == ys

pub ==_refl : (a : Bytes) → (a == a) ≡ true
unfolding ◌==◌
==_refl [] = refl
==_refl (x ∷ a) = ground (arith, ==_refl a)

eq_of_== : (a b : Bytes) → (a == b) ≡ true → a ≡ b
unfolding ◌==◌
eq_of_== [] [] h = refl
eq_of_== [] (y ∷ ys) h = cc
eq_of_== (x ∷ xs) [] h = cc
eq_of_== (x ∷ xs) (y ∷ ys) h = ground (arith, eq_of_== xs ys)

pub ==_iff : (a b : Bytes) → ((a == b) ≡ true) ↔ (a ≡ b)
==_iff a b = (eq_of_== a b, λ e. rw e (==_refl b))

-- `s == ""`
abbrev pub is_empty {ℓ} : {A : Type ℓ} → List A → Bool
is_empty [] = true
is_empty (x ∷ xs) = false

-- strings.HasPrefix
unfoldable pub has_prefix : (prefix s : Bytes) → Bool
has_prefix [] s = true
has_prefix (p ∷ ps) [] = false
has_prefix (p ∷ ps) (c ∷ s) = nat_eq p c && has_prefix ps s

-- strings.HasSuffix
unfoldable pub has_suffix : (suffix s : Bytes) → Bool
unfolding has_prefix
has_suffix suffix s = has_prefix (reverse suffix) (reverse s)

-- strings.ContainsRune and strings.IndexByte(s, c) >= 0, for an ASCII character
unfoldable pub has_byte : ℕ → Bytes → Bool
has_byte c [] = false
has_byte c (x ∷ s) = nat_eq x c || has_byte c s

abbrev pub first_part : ℕ → Option (Bytes × Bytes) → Option (Bytes × Bytes)
first_part x none = none
first_part x (some (a, b)) = some (x ∷ a, b)

-- strings.Cut at a one-byte separator: what stands before and behind its first occurrence
unfoldable pub cut : ℕ → Bytes → Option (Bytes × Bytes)
cut c [] = none
cut c (x ∷ s) = if nat_eq x c then some ([], s) else first_part x (cut c s)

-- The same at the last occurrence (strings.LastIndexByte).
unfoldable pub cut_last : ℕ → Bytes → Option (Bytes × Bytes)
cut_last c [] = none
cut_last c (x ∷ s) =
    let rest = cut_last c s in
    elim rest [ some r ↦ first_part x (some r) | none ↦ if nat_eq x c then some ([], s) else none ]

abbrev pub prepend_first : ℕ → List Bytes → List Bytes
prepend_first x [] = (x ∷ []) ∷ []
prepend_first x (p ∷ ps) = (x ∷ p) ∷ ps

-- strings.Split at a one-byte separator; the result is never empty
unfoldable pub split : ℕ → Bytes → List Bytes
split c [] = [] ∷ []
split c (x ∷ s) = let rest = split c s in if nat_eq x c then [] ∷ rest else prepend_first x rest

abbrev add_index : Option ℕ → Option ℕ
add_index none = none
add_index (some i) = some (suc i)

-- strings.Index
unfoldable pub index_of : (s sub : Bytes) → Option ℕ
unfolding has_prefix
index_of [] sub = if is_empty sub then some 0 else none
index_of (x ∷ s) sub = if has_prefix sub (x ∷ s) then some 0 else add_index (index_of s sub)

abbrev pub is_some {ℓ} : {A : Type ℓ} → Option A → Bool
is_some none = false
is_some (some a) = true

-- White space as `strings.TrimSpace` and `strings.Fields` see it in ASCII text.
abbrev pub is_space : ℕ → Bool
is_space c = (leb 9 c && leb c 13) || nat_eq c 32

unfoldable pub trim_left : Bytes → Bytes
trim_left [] = []
trim_left (c ∷ s) = if is_space c then trim_left s else c ∷ s

unfoldable pub trim_space : Bytes → Bytes
unfolding trim_left
trim_space s = reverse (trim_left (reverse (trim_left s)))

abbrev pub is_lower : ℕ → Bool
is_lower c = leb b'a' c && leb c b'z'

abbrev pub is_upper : ℕ → Bool
is_upper c = leb b'A' c && leb c b'Z'

abbrev pub is_digit : ℕ → Bool
is_digit c = leb b'0' c && leb c b'9'
