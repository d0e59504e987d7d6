-- ===== src/Base/Lists.antt =====
-- Lists over the native numbers, predicates on lists, and Go maps as association lists.
use Prim.Native.Nat.{ℕ, suc, ◌+◌}
use mathlib.Core.Path.{◌≡◌, refl, ◌∙◌, ap}
use mathlib.Core.Logic.{inl, inr}
use mathlib.Core.Bool.{Bool, true, false, false≢true, ◌&&◌, ◌||◌}
use mathlib.Core.Option.{Option, none, some}
use mathlib.Core.List.{List, [], ◌∷◌, ◌++◌}
use native.Mathlib.Omega.{arith}
use nvoi.Base.Tests.{if◌then◌else◌, Bool-cases}
use nvoi.Base.Strings.{Bytes, ◌==◌, ==_iff}

module _ {ℓ} {A : Type ℓ} where
  abbrev pub length : List A → ℕ
  length [] = 0
  length (x ∷ xs) = suc (length xs)

  pub length-append : (xs ys : List A) → length (xs ++ ys) ≡ length xs + length ys
  length-append [] ys = omega arith
  length-append (x ∷ xs) ys = omega (arith, length-append xs ys)

  abbrev pub all : (A → Bool) → List A → Bool
  all p [] = true
  all p (x ∷ xs) = p x && all p xs

  abbrev pub any : (A → Bool) → List A → Bool
  any p [] = false
  any p (x ∷ xs) = p x || any p xs

  -- The elements that pass a Boolean test (`continue` on the others).
  abbrev pub select : (A → Bool) → List A → List A
  select p [] = []
  select p (x ∷ xs) = if p x then x ∷ select p xs else select p xs

  abbrev pub append_all : List (List A) → List A
  append_all [] = []
  append_all (xs ∷ xss) = xs ++ append_all xss

  abbrev pub All {κ} : (A → Type κ) → List A → Type κ
  All P [] = Unit
  All P (x ∷ xs) = P x × All P xs

  pub All-append {κ} : (P : A → Type κ) (xs ys : List A) → All P xs → All P ys → All P (xs ++ ys)
  All-append P [] ys h k = k
  All-append P (x ∷ xs) ys (p, h) k = (p, All-append P xs ys h k)

-- A `map[string]bool` used as a set: membership in the list of its keys.
unfoldable pub contains : Bytes → List Bytes → Bool
contains x [] = false
contains x (y ∷ ys) = y == x || contains x ys

pub contains-append :
    (x : Bytes) (ys zs : List Bytes) → contains x (ys ++ zs) ≡ (contains x ys || contains x zs)
unfolding contains
contains-append x [] zs = refl
contains-append x (y ∷ ys) zs = ground (arith, contains-append x ys zs)

-- A `map[string]V`: its entries in the order in which a `range` visits them. Theorems hold for
-- every list, so for every iteration order.
abbrev pub Dict {ℓ} : Type ℓ → Type ℓ
Dict V = List (Bytes × V)

module _ {ℓ} {V : Type ℓ} where
  unfoldable pub lookup : Bytes → Dict V → Option V
  lookup k [] = none
  lookup k ((j, v) ∷ m) = if j == k then some v else lookup k m

  unfoldable pub has_key : Bytes → Dict V → Bool
  has_key k [] = false
  has_key k ((j, v) ∷ m) = j == k || has_key k m

  abbrev pub keys : Dict V → List Bytes
  keys [] = []
  keys ((k, v) ∷ m) = k ∷ keys m

  -- `m[k] = v`
  unfoldable pub insert : Bytes → V → Dict V → Dict V
  insert k new [] = (k, new) ∷ []
  insert k new ((j, old) ∷ m) = if j == k then (j, new) ∷ m else (j, old) ∷ insert k new m

  pub lookup-insert :
      (p q : Bytes) (new : V) (m : Dict V)
      → lookup q (insert p new m) ≡ (if p == q then some new else lookup q m)
  unfolding insert lookup
  lookup-insert p q new [] = refl
  lookup-insert p q new ((r, old) ∷ m) =
      ground (arith, ==_iff r p, ==_iff r q, ==_iff p q, lookup-insert p q new m)

  pub contains-keys : (k : Bytes) (m : Dict V) → contains k (keys m) ≡ has_key k m
  unfolding contains has_key
  contains-keys k [] = refl
  contains-keys k ((j, v) ∷ m) = ground (arith, contains-keys k m)

  -- What every Go map has.
  abbrev pub HasDistinctKeys : Dict V → Type 0
  HasDistinctKeys [] = Unit
  HasDistinctKeys ((k, v) ∷ m) = (has_key k m ≡ false) × HasDistinctKeys m

  pub lookup-no_key : (k : Bytes) (m : Dict V) → has_key k m ≡ false → lookup k m ≡ none
  unfolding lookup has_key
  lookup-no_key k [] h = refl
  lookup-no_key k ((j, v) ∷ m) h = ground (arith, lookup-no_key k m)

  pub has_key-lookup :
      (k : Bytes) (m : Dict V) → has_key k m ≡ true → (v : V) × (lookup k m ≡ some v)
  unfolding lookup has_key
  has_key-lookup k [] h = absurd (false≢true h)
  has_key-lookup k ((j, v) ∷ m) h = elim (Bool-cases (j == k)) [
    | inl same ↦ (v, ground arith)
    | inr other ↦ let (w, found) = has_key-lookup k m (ground arith) in (w, ground arith)
  ]

  -- `for k, v := range m { target[k] = v }`
  unfoldable pub copy_over : (target m : Dict V) → Dict V
  copy_over target [] = target
  copy_over target ((k, v) ∷ m) = copy_over (insert k v target) m

  -- `delete(m, key)`
  unfoldable pub remove_key : Bytes → Dict V → Dict V
  remove_key key [] = []
  remove_key key ((k, v) ∷ m) = if k == key then remove_key key m else (k, v) ∷ remove_key key m

  -- The copied values win.
  pub lookup-copy_over :
      (k : Bytes) (target m : Dict V)
      → HasDistinctKeys m
      → lookup k (copy_over target m) ≡ (if has_key k m then lookup k m else lookup k target)
  unfolding copy_over lookup has_key
  lookup-copy_over k target [] h = refl
  lookup-copy_over k target ((j, v) ∷ m) (fresh, h) =
      lookup-copy_over k (insert j v target) m h ∙ elim (Bool-cases (j == k)) [
        | inl same ↦
            ground (
              arith,
              lookup-insert j k v target,
              fresh,
              ap (λ x. has_key x m) ((==_iff j k).0 same),
            )
        | inr other ↦ ground (arith, lookup-insert j k v target)
      ]

  pub lookup-remove_key :
      (k key : Bytes) (m : Dict V)
      → lookup k (remove_key key m) ≡ (if key == k then none else lookup k m)
  unfolding remove_key lookup
  lookup-remove_key k key [] = ground arith
  lookup-remove_key k key ((j, v) ∷ m) =
      ground (arith, lookup-remove_key k key m, ==_iff j key, ==_iff j k, ==_iff key k)
