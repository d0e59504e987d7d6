-- ===== src/Topsort/Cycle/Search.antt =====
-- What one walk of the search guarantees.
use nvoi.Base.{ℕ, ◌≤◌, ◌<◌, Bytes, Dict, Bool, true, false, List, [], ◌∷◌, ◌++◌, some}
use nvoi.Base.{◌≡◌, arith, if◌then◌else◌, ◌==◌, ==_iff, Bool-cases, inl, inr}
use nvoi.Base.{has_key, keys, contains, select, length, insert, lookup-insert}
use nvoi.Config.{ServiceDef}
use nvoi.Topsort.Laws.{DependsOn, IsGrounded}
use nvoi.Topsort.Cycle.{Color, white, gray, black, color_of, Walk, acyclic, cycle, out_of_fuel}
use nvoi.Topsort.Cycle.{from_first, close_cycle}

pub color_of-insert :
    (m n : Bytes) (c : Color) (colors : Dict Color)
    → color_of m (insert n c colors) ≡ (if n == m then c else color_of m colors)
unfolding color_of
color_of-insert m n c colors = ground (arith, lookup-insert n m c colors)

abbrev pub is_white : Color → Bool
is_white white = true
is_white gray = false
is_white black = false

-- The names that are still white, which bound how deep the search can go.
abbrev pub whites : Dict Color → List Bytes → List Bytes
whites colors ks = select (λ k. is_white (color_of k colors)) ks

pub length-whites_le :
    (n : Bytes) (c : Color) (colors : Dict Color) (ks : List Bytes)
    → is_white c ≡ false
    → length (whites (insert n c colors) ks) ≤ length (whites colors ks)
length-whites_le n c colors [] h = omega arith
length-whites_le n c colors (k ∷ ks) h =
    ground (arith, length-whites_le n c colors ks h, color_of-insert k n c colors)

pub length-whites_lt :
    (n : Bytes) (c : Color) (colors : Dict Color) (ks : List Bytes)
    → is_white c ≡ false
    → color_of n colors ≡ white
    → contains n ks ≡ true
    → length (whites (insert n c colors) ks) < length (whites colors ks)
unfolding contains
length-whites_lt n c colors [] h w k = cc
length-whites_lt n c colors (k ∷ ks) h w e = ground (
  arith,
  length-whites_lt n c colors ks h w,
  length-whites_le n c colors ks h,
  color_of-insert k n c colors,
  ==_iff k n,
  ==_iff n k,
)

from_first-contains :
    (d : Bytes) (path : List Bytes)
    → contains d path ≡ true
    → (cyc : List Bytes) × (from_first d path ≡ some cyc)
unfolding from_first contains
from_first-contains d [] h = cc
from_first-contains d (x ∷ path) h = elim (Bool-cases (x == d)) [
  | inl same ↦ (x ∷ path, ground arith)
  | inr other ↦ let (cyc, found) = from_first-contains d path (ground arith) in (cyc, ground arith)
]

close_cycle-here :
    (d x : Bytes) (path : List Bytes)
    → (x == d) ≡ true
    → close_cycle d (x ∷ path) ≡ x ∷ (path ++ d ∷ [])
unfolding close_cycle from_first
close_cycle-here d x path same = ground arith

close_cycle-later :
    (d x : Bytes) (path : List Bytes)
    → (x == d) ≡ false
    → contains d path ≡ true
    → close_cycle d (x ∷ path) ≡ close_cycle d path
unfolding close_cycle from_first
close_cycle-later d x path other h = ground (arith, from_first-contains d path h)

module _ (services : Dict ServiceDef) where
  -- Each name depends on the next one.
  abbrev pub IsChain : List Bytes → Type 0
  IsChain [] = Unit
  IsChain (n ∷ []) = Unit
  IsChain (n ∷ m ∷ path) = DependsOn services n m × IsChain (m ∷ path)

  -- A chain of dependencies that ends where it begins.
  pub record IsCycle (p : List Bytes) : Type 0 where
    pub start : Bytes
    pub inner : List Bytes
    pub shape : p ≡ start ∷ (inner ++ start ∷ [])
    pub chain : IsChain p

  pub IsChain-append :
      (path : List Bytes) (n d : Bytes)
      → IsChain (path ++ n ∷ [])
      → DependsOn services n d
      → IsChain ((path ++ n ∷ []) ++ d ∷ [])
  IsChain-append [] n d h e = (e, tt)
  IsChain-append (x ∷ []) n d (h, k) e = (h, (e, tt))
  IsChain-append (x ∷ y ∷ path) n d (h, k) e = (h, IsChain-append (y ∷ path) n d k e)

  IsChain-tail : (x : Bytes) (path : List Bytes) → IsChain (x ∷ path) → IsChain path
  IsChain-tail x [] h = tt
  IsChain-tail x (y ∷ path) (h, k) = k

  -- A name on the path closes a cycle.
  pub close_cycle-IsCycle :
      (d : Bytes) (path : List Bytes)
      → contains d path ≡ true
      → IsChain (path ++ d ∷ [])
      → IsCycle (close_cycle d path)
  unfolding contains
  close_cycle-IsCycle d [] h k = cc
  close_cycle-IsCycle d (x ∷ path) h k = elim (Bool-cases (x == d)) [
    | inl same ↦
        rw (close_cycle-here d x path same)
          (record { start = d; inner = path; shape = ground (arith, ==_iff x d); chain = k })
    | inr other ↦
        rw (close_cycle-later d x path other (ground arith))
          (close_cycle-IsCycle d path (ground arith) (IsChain-tail x (path ++ d ∷ []) k))
  ]

  -- What a search that found nothing says of the colours before and after it.
  pub record Clean (before after : Dict Color) : Type 0 where
    pub gray_back : (m : Bytes) → color_of m after ≡ gray → color_of m before ≡ gray
    pub fewer : length (whites after (keys services)) ≤ length (whites before (keys services))
    pub sound : (m : Bytes) → color_of m after ≡ black → IsGrounded services m

  abbrev pub Verdict : Dict Color → Type 0 → Walk → Type 0
  Verdict before done (acyclic after) = Clean before after × done
  Verdict before done (cycle p) = IsCycle p
  Verdict before done out_of_fuel = ⊥

  -- What holds whenever the search looks at a dependency.
  pub record Looks (path : List Bytes) (colors : Dict Color) : Type 0 where
    pub on_path : (m : Bytes) → color_of m colors ≡ gray → contains m path ≡ true
    pub sound : (m : Bytes) → color_of m colors ≡ black → IsGrounded services m

  -- The promise of a walk with fuel for all white names.
  abbrev pub WalkOk : (List Bytes → Bytes → Dict Color → Walk) → ℕ → Type 0
  WalkOk w f =
      (path : List Bytes) (n : Bytes) (colors : Dict Color)
      → has_key n services ≡ true
      → color_of n colors ≡ white
      → IsChain (path ++ n ∷ [])
      → Looks path colors
      → length (whites colors (keys services)) ≤ f
      → Verdict colors (IsGrounded services n) (w path n colors)
