-- ===== src/Topsort/Unlock.antt =====
-- What one round of the main loop does to the degrees.
use nvoi.Base.{ℕ, ◌-◌, ◌≤◌, Bytes, Dict, List, [], ◌∷◌}
use nvoi.Base.{◌≡◌, refl, arith, if◌then◌else◌, nat_eq, insert, lookup-insert, ◌==◌, ==_iff}
use nvoi.Base.{Bool-cases, inl, inr, leb, ◌&&◌}
use nvoi.Base.Sort.{count}
use nvoi.Topsort.{degree, unlock}

pub degree-insert :
    (m d : Bytes) (v : ℕ) (deg : Dict ℕ)
    → degree m (insert d v deg) ≡ (if d == m then v else degree m deg)
unfolding degree
degree-insert m d v deg = ground (arith, lookup-insert d m v deg)

pub degree-unlock :
    (m : Bytes) (deg : Dict ℕ) (ds : List Bytes)
    → degree m (unlock deg ds).0 ≡ degree m deg - count m ds
unfolding unlock
degree-unlock m deg [] = omega arith
degree-unlock m deg (d ∷ ds) = ground (
  arith,
  degree-unlock m (insert d (degree d deg - 1) deg) ds,
  degree-insert m d (degree d deg - 1) deg,
  ==_iff d m,
)

-- A name is unlocked, once, if all that it still waits for is in the list.
abbrev pub unlocks : (waits given : ℕ) → ℕ
unlocks waits given = if leb 1 given && nat_eq waits given then 1 else 0

pub count-unlock :
    (m : Bytes) (deg : Dict ℕ) (ds : List Bytes)
    → count m ds ≤ degree m deg
    → count m (unlock deg ds).1 ≡ unlocks (degree m deg) (count m ds)
unfolding unlock
count-unlock m deg [] h = refl
count-unlock m deg (d ∷ ds) h = elim (Bool-cases (d == m)) [
  | inl same ↦ ground (
    arith,
    count-unlock m (insert d (degree d deg - 1) deg) ds,
    degree-insert m d (degree d deg - 1) deg,
    ==_iff d m,
  )
  | inr other ↦ ground (
    arith,
    count-unlock m (insert d (degree d deg - 1) deg) ds,
    degree-insert m d (degree d deg - 1) deg,
  )
]
