-- ===== src/Firewall/Ports.antt =====
-- The texts that ParseRawRules of pkg/provider/allowlist.go takes for ports.
use nvoi.Base.{
  ℕ, ◌+◌, ◌*◌, ◌-◌, ◌≤◌, ◌⊎◌, Bytes, [], ◌∷◌, ◌++◌, append_assoc, append-nil, true, ◌≡◌, refl, sym,
  ap, subst, arith, ◌&&◌, leb, nat_eq, is_digit, all, Bool-cases, inl, inr,
}
use nvoi.Firewall.{digits_value, atoi, valid_port}

-- The number that a text of digits stands for, the empty one for 0.
pub data Denotes : Bytes → ℕ → Type 0 where
  no_digit : Denotes [] 0
  digit :
      {s : Bytes} {n : ℕ} {d : ℕ}
      → Denotes s n
      → d ≤ 9
      → Denotes (s ++ ((48 + d) ∷ [])) (n * 10 + d)

-- A port in decimal digits, with a plus sign or without.
pub record IsPort (p : Bytes) : Type 0 where
  pub digits : Bytes
  pub port : ℕ
  pub written : (p ≡ digits) ⊎ (p ≡ b'+' ∷ digits)
  pub denotes : Denotes digits port
  pub positive : 1 ≤ port
  pub bounded : port ≤ 65535

digits_value-Denotes :
    (front s : Bytes) (n : ℕ)
    → Denotes front n
    → all is_digit s ≡ true
    → Denotes (front ++ s) (digits_value n s)
unfolding digits_value
digits_value-Denotes front [] n h e = subst (λ t. Denotes t n) (sym (append-nil front)) h
digits_value-Denotes front (c ∷ s) n h e =
    let low : 48 ≤ c = ground (arith, e) in
    let high : c - 48 ≤ 9 = ground (arith, e) in
    let back : 48 + (c - 48) ≡ c = omega (arith, low) in
    let here : Denotes (front ++ (c ∷ [])) (n * 10 + (c - 48)) =
      subst (λ x. Denotes (front ++ (x ∷ [])) (n * 10 + (c - 48))) back (digit h high) in
    subst (λ t. Denotes t (digits_value (n * 10 + (c - 48)) s)) (append_assoc front (c ∷ []) s)
      (digits_value-Denotes (front ++ (c ∷ [])) s (n * 10 + (c - 48)) here (ground (arith, e)))

unsigned-IsPort :
    (p unsigned : Bytes)
    → (p ≡ unsigned) ⊎ (p ≡ b'+' ∷ unsigned)
    → all is_digit unsigned ≡ true
    → leb 1 (digits_value 0 unsigned) && leb (digits_value 0 unsigned) 65535 ≡ true
    → IsPort p
unsigned-IsPort p unsigned w d e = record {
  digits = unsigned;
  port = digits_value 0 unsigned;
  written = w;
  denotes = digits_value-Denotes [] unsigned 0 no_digit d;
  positive = ground (arith, e);
  bounded = ground (arith, e);
}

pub valid_port-IsPort : (p : Bytes) → valid_port p ≡ true → IsPort p
unfolding valid_port atoi
valid_port-IsPort [] h = cc
valid_port-IsPort (c ∷ s) h = elim (Bool-cases (nat_eq c b'+')) [
  | inl plus ↦
      let sign : c ≡ b'+' = ground (arith, plus) in
      unsigned-IsPort (c ∷ s) s (inr (ap (λ x. x ∷ s) sign)) (ground (arith, h, plus))
        (ground (arith, h, plus))
  | inr plain ↦
      unsigned-IsPort (c ∷ s) (c ∷ s) (inl refl) (ground (arith, h, plain))
        (ground (arith, h, plain))
]
