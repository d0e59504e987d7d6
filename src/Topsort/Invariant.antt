-- ===== src/Topsort/Invariant.antt =====
-- The invariant of the main loop of `topoSortServices`.
use nvoi.Base.{ℕ, ◌+◌, ◌-◌, ◌≤◌, ◌<◌, Bytes, Dict, Bool, true, false, List, [], ◌∷◌, ◌++◌}
use nvoi.Base.{◌≡◌, refl, arith, if◌then◌else◌, ◌==◌, ==_iff, Bool-cases, inl, inr}
use nvoi.Base.{has_key, keys, contains, select, is_empty, HasDistinctKeys}
use nvoi.Base.Sort.{count, sort, count-sort, contains-count}
use nvoi.Config.{ServiceDef}
use nvoi.Topsort.{degree, dependents_of, unlock, build_graph}
use nvoi.Topsort.Unlock.{degree-unlock, count-unlock, unlocks}
use nvoi.Topsort.Build.{open_count, deps_of, deps_of-no_key, count-append, count-build_graph}

abbrev pub next_ready : (ready unlocked : List Bytes) → List Bytes
next_ready ready unlocked = if is_empty unlocked then ready else sort (ready ++ unlocked)

pub count-next_ready :
    (m : Bytes) (ready u : List Bytes) → count m (next_ready ready u) ≡ count m ready + count m u
count-next_ready m ready [] = omega arith
count-next_ready m ready (x ∷ u) =
    omega (arith, count-sort m (ready ++ x ∷ u), count-append m ready (x ∷ u))

pub count-select :
    (p : Bytes → Bool) (m : Bytes) (xs : List Bytes)
    → count m (select p xs) ≡ (if p m then count m xs else 0)
count-select p m [] = ground arith
count-select p m (x ∷ xs) = elim (Bool-cases (x == m)) [
  | inl same ↦ ground (arith, count-select p m xs, ==_iff x m)
  | inr other ↦ ground (arith, count-select p m xs)
]

count-keys-no_key : (m : Bytes) (d : Dict ServiceDef) → has_key m d ≡ false → count m (keys d) ≡ 0
unfolding has_key
count-keys-no_key m [] h = refl
count-keys-no_key m ((k, v) ∷ d) h = ground (arith, count-keys-no_key m d)

pub count-keys :
    (m : Bytes) (d : Dict ServiceDef)
    → HasDistinctKeys d
    → count m (keys d) ≡ (if has_key m d then 1 else 0)
unfolding has_key
count-keys m [] h = refl
count-keys m ((k, v) ∷ d) (fresh, h) =
    ground (arith, count-keys m d h, count-keys-no_key m d, ==_iff k m)

-- Placing a service closes every dependency on it.
open_count-place :
    (services : Dict ServiceDef) (n : Bytes) (placed deps : List Bytes)
    → has_key n services ≡ true
    → contains n placed ≡ false
    → open_count services placed deps ≡ open_count services (n ∷ placed) deps + count n deps
unfolding open_count contains
open_count-place services n placed [] known fresh = omega arith
open_count-place services n placed (d ∷ deps) known fresh =
    ground (arith, open_count-place services n placed deps known fresh, ==_iff d n, ==_iff n d)

module _ (services : Dict ServiceDef) where
  -- `placed` is what the loop has appended to `out`.
  pub record Inv (placed ready : List Bytes) (deg : Dict ℕ) : Type 0 where
    pub degrees : (m : Bytes) → degree m deg ≡ open_count services placed (deps_of services m)
    pub once : (m : Bytes) → count m placed + count m ready ≤ 1
    pub known : (m : Bytes) → 0 < count m placed + count m ready → has_key m services ≡ true
    pub free :
        (m : Bytes)
        → 0 < count m placed + count m ready
        → open_count services placed (deps_of services m) ≡ 0
    pub found :
        (m : Bytes)
        → has_key m services ≡ true
        → open_count services placed (deps_of services m) ≡ 0
        → 0 < count m placed + count m ready

  module _ (distinct : HasDistinctKeys services) where
    abbrev pub graph_deps : Dict (List Bytes)
    graph_deps = (build_graph services).dependents

    module _ {n : Bytes} {placed ready : List Bytes} {deg : Dict ℕ}
        (inv : Inv placed (n ∷ ready) deg) where
      pub head_known : has_key n services ≡ true
      head_known = ground (arith, inv.known n, ==_iff n n)

      pub head_fresh : contains n placed ≡ false
      head_fresh = ground (arith, inv.once n, ==_iff n n, contains-count n placed)

      -- What the round takes from the degree of `m`.
      taken : Bytes → ℕ
      taken m = count n (deps_of services m)

      abbrev pub after : Dict ℕ × List Bytes
      after = unlock deg (dependents_of n graph_deps)

      round_facts :
          (m : Bytes)
          → (open_count services placed (deps_of services m)
              ≡ open_count services (n ∷ placed) (deps_of services m) + taken m)
            × (degree m after.0 ≡ degree m deg - taken m)
            × (count m after.1 ≡ unlocks (degree m deg) (taken m))
      unfolding taken
      round_facts m =
          let placing =
            open_count-place services n placed (deps_of services m) head_known head_fresh in
          let size = count-build_graph services distinct m n head_known in
          (
            placing,
            ground (arith, size, degree-unlock m deg (dependents_of n graph_deps)),
            ground (arith, size, count-unlock m deg (dependents_of n graph_deps), inv.degrees m),
          )

      taken-no_key : (m : Bytes) → has_key m services ≡ false → taken m ≡ 0
      unfolding taken
      taken-no_key m h = rw (deps_of-no_key m services h) refl

      pub round-Inv : Inv (n ∷ placed) (next_ready ready after.1) after.0
      round-Inv = record {
        degrees = λ m. omega (arith, round_facts m, inv.degrees m);
        once = λ m. ground (
          arith,
          round_facts m,
          inv.degrees m,
          inv.once m,
          inv.free m,
          count-next_ready m ready after.1,
        );
        known = λ m h. ground (
          arith,
          round_facts m,
          inv.degrees m,
          inv.known m,
          taken-no_key m,
          count-next_ready m ready after.1,
        );
        free = λ m h.
            ground
              (arith, round_facts m, inv.degrees m, inv.free m, count-next_ready m ready after.1);
        found = λ m k h.
            ground (
              arith,
              round_facts m,
              inv.degrees m,
              inv.found m k,
              count-next_ready m ready after.1,
            );
      }
