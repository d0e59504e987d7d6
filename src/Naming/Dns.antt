-- ===== src/Naming/Dns.antt =====
-- ValidateName, ValidateEnvVarName and ValidateDomain of pkg/utils/naming.go. A regular
-- expression is modelled by a matcher that reads the value once, from left to right.
use nvoi.Base.{ℕ, zero, suc, ◌≤◌, ◌≡◌, refl, ◌↔◌, Bool, true, false, ◌&&◌}
use mathlib.Core.Bool.{and-eq-true_iff}
use nvoi.Base.{◌||◌, ◌≢◌, Bytes, List, [], ◌∷◌, arith, nat_eq}
use nvoi.Base.{length, All, all, is_lower, is_upper, is_digit, split}

-- `[a-z0-9]`
abbrev pub is_alnum : ℕ → Bool
is_alnum c = is_lower c || is_digit c

-- `[a-z0-9-]`
abbrev pub is_label_char : ℕ → Bool
is_label_char c = is_alnum c || nat_eq c b'-'

-- `([a-z0-9-]{0,61}[a-z0-9])?$` behind a first character, with room for `n` more characters
unfoldable pub match_rest : ℕ → Bytes → Bool
match_rest n [] = true
match_rest zero (c ∷ s) = false
match_rest (suc n) (c ∷ []) = is_alnum c
match_rest (suc n) (c ∷ d ∷ s) = is_label_char c && match_rest n (d ∷ s)

-- `^[a-z0-9]([a-z0-9-]{0,61}[a-z0-9])?$`
unfoldable pub dns1123 : Bytes → Bool
unfolding match_rest
dns1123 [] = false
dns1123 (c ∷ s) = is_alnum c && match_rest 62 s

-- `[A-Z0-9_]`
abbrev pub is_env_char : ℕ → Bool
is_env_char c = is_upper c || is_digit c || nat_eq c b'_'

-- `^[A-Z][A-Z0-9_]*$`
unfoldable pub env_var_name : Bytes → Bool
env_var_name [] = false
env_var_name (c ∷ s) = is_upper c && all is_env_char s

abbrev pub two_or_more : List Bytes → Bool
two_or_more [] = false
two_or_more (l ∷ []) = false
two_or_more (l ∷ m ∷ ls) = true

-- `^label(\.label)+$`: two labels at least, between dots
unfoldable pub valid_domain : Bytes → Bool
unfolding dns1123
valid_domain s = let labels = split b'.' s in two_or_more labels && all dns1123 labels

-- The last character, or the given one.
abbrev last_of : ℕ → Bytes → ℕ
last_of c [] = c
last_of c (d ∷ s) = last_of d s

-- A DNS-1123 label, as the documentation describes it.
pub record IsLabel (c : ℕ) (s : Bytes) : Type 0 where
  pub short : length (c ∷ s) ≤ 63
  pub chars : All (λ d. is_label_char d ≡ true) (c ∷ s)
  pub first : is_alnum c ≡ true
  pub last : is_alnum (last_of c s) ≡ true

match_rest_sound :
    (n d : ℕ) (s : Bytes)
    → match_rest n (d ∷ s) ≡ true
    → (length (d ∷ s) ≤ n)
      × All (λ e. is_label_char e ≡ true) (d ∷ s)
      × (is_alnum (last_of d s) ≡ true)
unfolding match_rest
match_rest_sound zero d s h = cc
match_rest_sound (suc n) d [] h = (omega arith, (ground arith, tt), h)
match_rest_sound (suc n) d (e ∷ s) h =
    let (here, later) = (and-eq-true_iff _ _).0 h in
    let (short, chars, last) = match_rest_sound n e s later in (omega arith, (here, chars), last)

match_rest_complete :
    (n d : ℕ) (s : Bytes)
    → length (d ∷ s) ≤ n
    → All (λ e. is_label_char e ≡ true) (d ∷ s)
    → is_alnum (last_of d s) ≡ true
    → match_rest n (d ∷ s) ≡ true
unfolding match_rest
match_rest_complete zero d s h k l = absurd (omega arith)
match_rest_complete (suc n) d [] h k l = l
match_rest_complete (suc n) d (e ∷ s) h (p, k) l =
    (and-eq-true_iff _ _).1 (p, match_rest_complete n e s (omega arith) k l)

dns1123_sound : (c : ℕ) (s : Bytes) → dns1123 (c ∷ s) ≡ true → IsLabel c s
unfolding dns1123
dns1123_sound c [] h = record {
  short = omega arith;
  chars = (ground arith, tt);
  first = ground arith;
  last = ground arith;
}
dns1123_sound c (d ∷ s) h =
    let (first, later) = (and-eq-true_iff _ _).0 h in
    let (short, chars, last) = match_rest_sound 62 d s later in
    record { short = omega arith; chars = (ground arith, chars); first = first; last = last }

dns1123_complete : (c : ℕ) (s : Bytes) → IsLabel c s → dns1123 (c ∷ s) ≡ true
unfolding dns1123
dns1123_complete c [] h = (and-eq-true_iff _ _).1 (h.first, refl)
dns1123_complete c (d ∷ s) h =
    (and-eq-true_iff _ _).1
      (h.first, match_rest_complete 62 d s (omega (arith, h.short)) h.chars.1 h.last)

no_empty : dns1123 [] ≢ true
unfolding dns1123
no_empty h = cc

-- A name passes validation exactly when it is not empty, has at most 63 characters, all of them
-- lower-case letters, digits and hyphens, and neither the first nor the last is a hyphen.
pub dns1123_iff :
    (s : Bytes) → (dns1123 s ≡ true) ↔ ((c : ℕ) × (rest : Bytes) × (s ≡ c ∷ rest) × IsLabel c rest)
dns1123_iff [] = (λ h. absurd (no_empty h), λ (c, rest, e, l). cc)
dns1123_iff (c ∷ s) =
    (λ h. (c, s, refl, dns1123_sound c s h), λ (d, rest, e, l). rw e (dns1123_complete d rest l))
