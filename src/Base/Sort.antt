-- ===== src/Base/Sort.antt =====
-- `sort.Strings`, and the keys of a set in sorted order.
use Prim.Native.Nat.{ℕ, ◌+◌, ◌<◌}
use mathlib.Core.Path.{◌≡◌, refl, sym, ap₂, subst, ◌∙◌}
use mathlib.Core.Logic.{◌↔◌, inl, inr}
use mathlib.Core.Bool.{true}
use mathlib.Core.List.{List, [], ◌∷◌}
use native.Mathlib.Omega.{arith}
use nvoi.Base.Tests.{if◌then◌else◌, Bool-cases}
use nvoi.Base.Strings.{Bytes, ◌==◌, ==_iff, ==_refl}
use nvoi.Base.Lists.{All, contains}
use nvoi.Base.Order.{lex_le, lex_le_total, lex_le_trans, lex_le_antisymm}

unfoldable pub insert_sorted : Bytes → List Bytes → List Bytes
unfolding lex_le
insert_sorted x [] = x ∷ []
insert_sorted x (y ∷ ys) = if lex_le x y then x ∷ y ∷ ys else y ∷ insert_sorted x ys

unfoldable pub sort : List Bytes → List Bytes
unfolding insert_sorted
sort [] = []
sort (x ∷ xs) = insert_sorted x (sort xs)

-- How often `x` stands in a list.
abbrev pub count : Bytes → List Bytes → ℕ
count x [] = 0
count x (y ∷ ys) = (if y == x then 1 else 0) + count x ys

count-insert_sorted :
    (x y : Bytes) (ys : List Bytes) → count x (insert_sorted y ys) ≡ count x (y ∷ ys)
unfolding insert_sorted
count-insert_sorted x y [] = refl
count-insert_sorted x y (z ∷ zs) = ground (arith, count-insert_sorted x y zs)

pub count-sort : (x : Bytes) (xs : List Bytes) → count x (sort xs) ≡ count x xs
unfolding sort
count-sort x [] = refl
count-sort x (y ∷ ys) = omega (arith, count-insert_sorted x y (sort ys), count-sort x ys)

pub contains-count : (x : Bytes) (xs : List Bytes) → (contains x xs ≡ true) ↔ (0 < count x xs)
unfolding contains
contains-count x [] = ground arith
contains-count x (y ∷ ys) = ground (arith, contains-count x ys)

lex_le_refl : (x : Bytes) → lex_le x x ≡ true
lex_le_refl x = elim (Bool-cases (lex_le x x)) [ inl le ↦ le | inr gt ↦ lex_le_total x x gt ]

abbrev pub IsSorted : List Bytes → Type 0
IsSorted [] = Unit
IsSorted (x ∷ xs) = All (λ y. lex_le x y ≡ true) xs × IsSorted xs

All-insert_sorted :
    (P : Bytes → Type 0) (x : Bytes) (ys : List Bytes) → P x → All P ys → All P (insert_sorted x ys)
unfolding insert_sorted
All-insert_sorted P x [] p h = (p, tt)
All-insert_sorted P x (y ∷ ys) p (q, h) = elim (Bool-cases (lex_le x y)) [
  | inl le ↦ rw le (p, (q, h))
  | inr gt ↦ rw gt (q, All-insert_sorted P x ys p h)
]

All-le_trans :
    (x y : Bytes) (zs : List Bytes)
    → lex_le x y ≡ true
    → All (λ z. lex_le y z ≡ true) zs
    → All (λ z. lex_le x z ≡ true) zs
All-le_trans x y [] h k = tt
All-le_trans x y (z ∷ zs) h (p, k) = (lex_le_trans x y z h p, All-le_trans x y zs h k)

insert_sorted-IsSorted : (x : Bytes) (ys : List Bytes) → IsSorted ys → IsSorted (insert_sorted x ys)
unfolding insert_sorted
insert_sorted-IsSorted x [] h = (tt, tt)
insert_sorted-IsSorted x (y ∷ ys) (h, s) = elim (Bool-cases (lex_le x y)) [
  | inl le ↦ rw le ((le, All-le_trans x y ys le h), (h, s))
  | inr gt ↦ rw gt (
    All-insert_sorted (λ z. lex_le y z ≡ true) x ys (lex_le_total x y gt) h,
    insert_sorted-IsSorted x ys s,
  )
]

pub sort-IsSorted : (xs : List Bytes) → IsSorted (sort xs)
unfolding sort
sort-IsSorted [] = tt
sort-IsSorted (x ∷ xs) = insert_sorted-IsSorted x (sort xs) (sort-IsSorted xs)

-- What is below every element is below an element that is counted.
le_of_count :
    (x y : Bytes) (zs : List Bytes)
    → All (λ z. lex_le x z ≡ true) zs
    → 0 < count y zs
    → lex_le x y ≡ true
le_of_count x y [] h k = absurd (omega arith)
le_of_count x y (z ∷ zs) (p, h) k = elim (Bool-cases (z == y)) [
  | inl same ↦ subst (λ w. lex_le x w ≡ true) ((==_iff z y).0 same) p
  | inr other ↦ le_of_count x y zs h (ground arith)
]

-- Two lists hold the same strings, as often.
abbrev pub SameItems : List Bytes → List Bytes → Type 0
SameItems xs ys = (z : Bytes) → count z xs ≡ count z ys

count_self_pos : (x : Bytes) (xs : List Bytes) → 0 < count x (x ∷ xs)
count_self_pos x xs = rw (==_refl x) (omega arith)

head_le :
    (x y : Bytes) (xs ys : List Bytes)
    → IsSorted (x ∷ xs)
    → SameItems (x ∷ xs) (y ∷ ys)
    → lex_le x y ≡ true
head_le x y xs ys (h, s) same =
    le_of_count x y (x ∷ xs) (lex_le_refl x, h) (rw (same y) (count_self_pos y ys))

-- Sorted lists with the same items are equal.
pub IsSorted-unique : (xs ys : List Bytes) → IsSorted xs → IsSorted ys → SameItems xs ys → xs ≡ ys
IsSorted-unique [] [] h k same = refl
IsSorted-unique [] (y ∷ ys) h k same = absurd (omega (arith, same y, count_self_pos y ys))
IsSorted-unique (x ∷ xs) [] h k same = absurd (omega (arith, same x, count_self_pos x xs))
IsSorted-unique (x ∷ xs) (y ∷ ys) h k same =
    let heads =
      lex_le_antisymm x y (head_le x y xs ys h same) (head_le y x ys xs k (λ z. sym (same z))) in
    let counts =
      λ (z : Bytes). subst (λ w. count z (x ∷ xs) ≡ count z (w ∷ ys)) (sym heads) (same z) in
    ap₂ (λ z zs. z ∷ zs) heads (IsSorted-unique xs ys h.1 k.1 (λ z. omega (arith, counts z)))

-- The sorted list does not depend on the order of its input.
pub sort_unique : (xs ys : List Bytes) → SameItems xs ys → sort xs ≡ sort ys
sort_unique xs ys same =
    IsSorted-unique (sort xs) (sort ys) (sort-IsSorted xs) (sort-IsSorted ys)
      (λ z. count-sort z xs ∙ same z ∙ sym (count-sort z ys))

pub contains-sort : (x : Bytes) (xs : List Bytes) → contains x (sort xs) ≡ contains x xs
contains-sort x xs =
    ground (arith, contains-count x xs, contains-count x (sort xs), count-sort x xs)

-- The keys of a set, once each (the keys of the Go map that the list stands for).
unfoldable pub dedup : List Bytes → List Bytes
unfolding contains
dedup [] = []
dedup (x ∷ xs) = if contains x xs then dedup xs else x ∷ dedup xs

pub contains-dedup : (x : Bytes) (xs : List Bytes) → contains x (dedup xs) ≡ contains x xs
unfolding dedup contains
contains-dedup x [] = refl
contains-dedup x (y ∷ ys) = elim (Bool-cases (y == x)) [
  | inl same ↦ ground (arith, ==_iff y x, contains-dedup x ys)
  | inr other ↦ ground (arith, contains-dedup x ys)
]

unfoldable pub sorted_keys : List Bytes → List Bytes
unfolding dedup sort
sorted_keys xs = sort (dedup xs)

pub contains-sorted_keys :
    (x : Bytes) (xs : List Bytes) → contains x (sorted_keys xs) ≡ contains x xs
unfolding sorted_keys
contains-sorted_keys x xs = contains-sort x (dedup xs) ∙ contains-dedup x xs
