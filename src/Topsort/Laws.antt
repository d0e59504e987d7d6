-- ===== src/Topsort/Laws.antt =====
-- The order that `topoSortServices` returns.
use nvoi.Base.{ℕ, zero, suc, ◌+◌, ◌≤◌, ◌<◌, Bytes, Dict, true, false, List, [], ◌∷◌}
use nvoi.Base.{◌≡◌, refl, ◌∙◌, arith, if◌then◌else◌, nat_eq, ==_iff, ◌&&◌, not}
use nvoi.Base.{has_key, keys, contains, contains-keys, select, length, HasDistinctKeys}
use nvoi.Base.Sort.{count, sort, count-sort, contains-count}
use nvoi.Config.{ServiceDef}
use nvoi.Topsort.{degree, build_graph, kahn, topo_sort_services}
use nvoi.Topsort.Build.{open_count, deps_of, degree-build_graph}
use nvoi.Topsort.Invariant.{Inv, round-Inv, head_known, head_fresh, count-keys, count-select}

module _ (services : Dict ServiceDef) where
  -- `d` is a dependency of `n` that is itself a service.
  abbrev pub DependsOn : (n d : Bytes) → Type 0
  DependsOn n d = (contains d (deps_of services n) ≡ true) × (has_key d services ≡ true)

  -- Every name of the list comes behind the services that it depends on; those of `placed` are in
  -- front of the list.
  abbrev pub IsOrdered : (placed names : List Bytes) → Type 0
  IsOrdered placed [] = Unit
  IsOrdered placed (n ∷ ns) =
      ((d : Bytes) → DependsOn n d → contains d placed ≡ true) × IsOrdered (n ∷ placed) ns

  -- There is no endless chain of dependencies from `n`: no cycle can be reached.
  pub data IsGrounded : Bytes → Type 0 where
    grounded : (n : Bytes) → ((d : Bytes) → DependsOn n d → IsGrounded d) → IsGrounded n

  open_count-zero :
      (placed deps : List Bytes) (d : Bytes)
      → open_count services placed deps ≡ 0
      → contains d deps ≡ true
      → has_key d services ≡ true
      → contains d placed ≡ true
  unfolding open_count contains
  open_count-zero placed [] d h k e = cc
  open_count-zero placed (x ∷ deps) d h k e =
      ground (arith, open_count-zero placed deps d, ==_iff x d)

  open_count-closed :
      (placed deps : List Bytes)
      → ((d : Bytes)
          → contains d deps ≡ true
          → has_key d services ≡ true
          → contains d placed ≡ true)
      → open_count services placed deps ≡ 0
  unfolding open_count contains
  open_count-closed placed [] h = refl
  open_count-closed placed (x ∷ deps) h =
      ground (arith, open_count-closed placed deps (λ d k. h d (ground arith)), h x, ==_iff x x)

  -- The services that are not placed yet, which bound the rounds that are left.
  abbrev unplaced : List Bytes → List Bytes → List Bytes
  unplaced placed ks = select (λ k. not (contains k placed)) ks

  length-unplaced-le :
      (n : Bytes) (placed ks : List Bytes)
      → length (unplaced (n ∷ placed) ks) ≤ length (unplaced placed ks)
  unfolding contains
  length-unplaced-le n placed [] = omega arith
  length-unplaced-le n placed (k ∷ ks) = ground (arith, length-unplaced-le n placed ks)

  length-unplaced-lt :
      (n : Bytes) (placed ks : List Bytes)
      → contains n placed ≡ false
      → contains n ks ≡ true
      → length (unplaced (n ∷ placed) ks) < length (unplaced placed ks)
  unfolding contains
  length-unplaced-lt n placed [] f h = cc
  length-unplaced-lt n placed (k ∷ ks) f h = ground (
    arith,
    length-unplaced-lt n placed ks,
    length-unplaced-le n placed ks,
    ==_iff k n,
    ==_iff n k,
  )

  length-unplaced_all : (ks : List Bytes) → length (unplaced [] ks) ≡ length ks
  unfolding contains
  length-unplaced_all [] = refl
  length-unplaced_all (k ∷ ks) = ground (arith, length-unplaced_all ks)

  module _ (distinct : HasDistinctKeys services) where
    abbrev deps : Dict (List Bytes)
    deps = (build_graph services).dependents

    kahn-IsOrdered :
        (f : ℕ) (placed ready : List Bytes) (deg : Dict ℕ)
        → Inv services placed ready deg
        → IsOrdered placed (kahn f deps deg ready)
    unfolding kahn
    kahn-IsOrdered zero placed ready deg inv = tt
    kahn-IsOrdered (suc f) placed [] deg inv = tt
    kahn-IsOrdered (suc f) placed (n ∷ ready) deg inv = (
      λ d (listed, known).
          open_count-zero placed (deps_of services n) d (inv.free n (ground (arith, ==_iff n n)))
            listed known,
      kahn-IsOrdered f (n ∷ placed) _ _ (round-Inv services distinct inv),
    )

    -- How the loop ends: nothing is ready, and the invariant holds of all that is placed.
    record Ends (placed out : List Bytes) : Type 0 where
      last : List Bytes
      degrees : Dict ℕ
      inv : Inv services last [] degrees
      counts : (m : Bytes) → count m last ≡ count m placed + count m out

    kahn-Ends :
        (f : ℕ) (placed ready : List Bytes) (deg : Dict ℕ)
        → Inv services placed ready deg
        → length (unplaced placed (keys services)) ≤ f
        → Ends placed (kahn f deps deg ready)
    unfolding kahn
    kahn-Ends zero placed [] deg inv h = record {
      last = placed;
      degrees = deg;
      inv = inv;
      counts = λ m. omega arith;
    }
    kahn-Ends (suc f) placed [] deg inv h = record {
      last = placed;
      degrees = deg;
      inv = inv;
      counts = λ m. omega arith;
    }
    kahn-Ends zero placed (n ∷ ready) deg inv h = absurd (
        omega (
          arith,
          length-unplaced-lt n placed (keys services) (head_fresh services distinct inv)
              (contains-keys n services ∙ head_known services distinct inv),
        ))
    kahn-Ends (suc f) placed (n ∷ ready) deg inv h =
        let ends = kahn-Ends f (n ∷ placed) _ _ (round-Inv services distinct inv) (
          omega (
            arith,
            length-unplaced-lt n placed (keys services) (head_fresh services distinct inv)
                (contains-keys n services ∙ head_known services distinct inv),
          )) in
        record {
          last = ends.last;
          degrees = ends.degrees;
          inv = ends.inv;
          counts = λ m. omega (arith, ends.counts m);
        }

    start : List Bytes
    start =
        sort (select (λ n. nat_eq (degree n (build_graph services).in_degree) 0) (keys services))

    count-start :
        (m : Bytes)
        → count m start ≡ (
            if nat_eq (open_count services [] (deps_of services m)) 0 && has_key m services
            then 1
            else 0)
    unfolding start
    count-start m = ground (
      arith,
      degree-build_graph services distinct m,
      count-keys m services distinct,
      count-sort m
          (select (λ n. nat_eq (degree n (build_graph services).in_degree) 0) (keys services)),
      count-select (λ n. nat_eq (degree n (build_graph services).in_degree) 0) m (keys services),
    )

    start-Inv : Inv services [] start (build_graph services).in_degree
    start-Inv = record {
      degrees = degree-build_graph services distinct;
      once = λ m. ground (arith, count-start m);
      known = λ m h. ground (arith, count-start m);
      free = λ m h. ground (arith, count-start m);
      found = λ m k h. ground (arith, count-start m);
    }

    topo_sort-Ends : Ends [] (topo_sort_services services)
    unfolding topo_sort_services start
    topo_sort-Ends =
        kahn-Ends (length (keys services)) [] start _ start-Inv
          (omega (arith, length-unplaced_all (keys services)))

    -- Where the keys of the map are distinct, every service of the returned order comes behind all
    -- the services that it depends on.
    pub topo_sort-IsOrdered : IsOrdered [] (topo_sort_services services)
    unfolding topo_sort_services start
    topo_sort-IsOrdered = kahn-IsOrdered (length (keys services)) [] start _ start-Inv

    -- Where the keys of the map are distinct, no name is returned twice, and every returned name is
    -- a service, cyclic dependencies or not.
    topo_sort-once :
        (m : Bytes)
        → (count m (topo_sort_services services) ≤ 1)
          × (0 < count m (topo_sort_services services) → has_key m services ≡ true)
    topo_sort-once m =
        let ends = topo_sort-Ends in
        (
          omega (arith, ends.counts m, ends.inv.once m),
          λ h. ends.inv.known m (omega (arith, ends.counts m)),
        )

    module _ (ends : Ends [] (topo_sort_services services)) where
      placed_last : (n : Bytes) → IsGrounded n → has_key n services ≡ true → 0 < count n ends.last
      placed_last n (grounded _ below) known = omega (
        arith,
        ends.inv.found n known (
            open_count-closed ends.last (deps_of services n) (λ d listed k.
              (contains-count d ends.last).1 (placed_last d (below d (listed, k)) k))),
      )

    -- Where the keys of the map are distinct, every service from which no dependency cycle can be
    -- reached is returned, exactly once.
    pub topo_sort_complete :
        (n : Bytes)
        → has_key n services ≡ true
        → IsGrounded n
        → count n (topo_sort_services services) ≡ 1
    topo_sort_complete n known g =
        let ends = topo_sort-Ends in
        omega (arith, placed_last ends n g known, ends.counts n, (topo_sort-once n).0)
