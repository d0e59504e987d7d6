-- ===== src/Vars/Fuel.antt =====
-- What the scanning steps leave is shorter than what they read.
use nvoi.Base.{ℕ, ◌≤◌, ◌<◌, Bytes, ◌≡◌, some, [], ◌∷◌, arith}
use nvoi.Base.{cut, nat_eq, length, Bool-cases, Option-cases, inl, inr}
use nvoi.Vars.{span_var}

pub cut-length : (c : ℕ) (s a b : Bytes) → cut c s ≡ some (a, b) → length b < length s
unfolding cut
cut-length c [] a b h = cc
cut-length c (x ∷ s) a b h = elim (Bool-cases (nat_eq x c)) [
  | inl e ↦ ground (arith)
  | inr e ↦ elim (Option-cases (cut c s)) [
    | inl n ↦ ground arith
    | inr ((a', b'), p) ↦ ground (arith, cut-length c s a' b' p)
  ]
]

pub span_var-length : (s : Bytes) → length (span_var s).1 ≤ length s
unfolding span_var
span_var-length [] = omega arith
span_var-length (c ∷ s) = ground (arith, span_var-length s)
