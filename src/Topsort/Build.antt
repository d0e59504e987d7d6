-- ===== src/Topsort/Build.antt =====
-- What `build_graph` puts into the degrees and the dependents.
use nvoi.Base.{ℕ, ◌+◌, Bytes, Dict, none, some, true, false, List, [], ◌∷◌}
use nvoi.Base.{◌++◌, ◌≡◌, refl, arith, if◌then◌else◌, lookup, insert, lookup-insert, ◌==◌, ==_iff}
use nvoi.Base.{lookup-no_key, HasDistinctKeys, Bool-cases, inl, inr, ◌&&◌, not, has_key, contains}
use nvoi.Base.Sort.{count}
use nvoi.Config.{ServiceDef}
use nvoi.Topsort.{degree, dependents_of, Graph, add_deps, add_services, zero_degrees, build_graph}
use nvoi.Topsort.Unlock.{degree-insert}

-- The dependencies that are services and not yet placed, as often as they are listed.
unfoldable pub open_count : Dict ServiceDef → (placed deps : List Bytes) → ℕ
open_count services placed [] = 0
open_count services placed (d ∷ deps) =
    (if has_key d services && not (contains d placed) then 1 else 0)
    + open_count services placed deps

-- The dependencies that a service lists.
unfoldable pub deps_of : Dict ServiceDef → Bytes → List Bytes
deps_of services n = elim (lookup n services) [ none ↦ [] | some svc ↦ svc.depends_on ]

dependents_of-insert :
    (m d : Bytes) (v : List Bytes) (deps : Dict (List Bytes))
    → dependents_of m (insert d v deps) ≡ (if d == m then v else dependents_of m deps)
unfolding dependents_of
dependents_of-insert m d v deps = ground (arith, lookup-insert d m v deps)

pub count-append : (x : Bytes) (xs ys : List Bytes) → count x (xs ++ ys) ≡ count x xs + count x ys
count-append x [] ys = omega arith
count-append x (y ∷ xs) ys = omega (arith, count-append x xs ys)

module _ (services : Dict ServiceDef) (m : Bytes) where
  degree-add_deps :
      (name : Bytes) (deps : List Bytes) (g : Graph)
      → degree m (add_deps services name deps g).in_degree
        ≡ degree m g.in_degree + (if name == m then open_count services [] deps else 0)
  unfolding add_deps open_count contains
  degree-add_deps name [] g = ground arith
  degree-add_deps name (d ∷ deps) g = elim (Bool-cases (has_key d services)) [
    | inl known ↦ ground (
      arith,
      degree-add_deps name deps (record {
        in_degree = insert name (degree name g.in_degree + 1) g.in_degree;
        dependents = insert d (dependents_of d g.dependents ++ name ∷ []) g.dependents;
      }),
      degree-insert m name (degree name g.in_degree + 1) g.in_degree,
      ==_iff name m,
    )
    | inr other ↦ ground (arith, degree-add_deps name deps g)
  ]

  -- `m` is among the dependents of `n` as often as it lists `n`.
  count-add_deps :
      (n name : Bytes) (deps : List Bytes) (g : Graph)
      → count m (dependents_of n (add_deps services name deps g).dependents)
        ≡ count m (dependents_of n g.dependents)
          + (if name == m && has_key n services then count n deps else 0)
  unfolding add_deps
  count-add_deps n name [] g = ground arith
  count-add_deps n name (d ∷ deps) g = elim (Bool-cases (has_key d services)) [
    | inl known ↦ ground (
      arith,
      count-add_deps n name deps (record {
        in_degree = insert name (degree name g.in_degree + 1) g.in_degree;
        dependents = insert d (dependents_of d g.dependents ++ name ∷ []) g.dependents;
      }),
      dependents_of-insert n d (dependents_of d g.dependents ++ name ∷ []) g.dependents,
      count-append m (dependents_of d g.dependents) (name ∷ []),
      ==_iff d n,
    )
    | inr other ↦ ground (arith, count-add_deps n name deps g, ==_iff d n)
  ]

pub deps_of-no_key :
    (m : Bytes) (rest : Dict ServiceDef) → has_key m rest ≡ false → deps_of rest m ≡ []
unfolding deps_of
deps_of-no_key m rest h = ground (arith, lookup-no_key m rest h)

module _ (services : Dict ServiceDef) (m : Bytes) where
  degree-add_services :
      (rest : Dict ServiceDef) (g : Graph)
      → HasDistinctKeys rest
      → degree m (add_services services rest g).in_degree
        ≡ degree m g.in_degree + open_count services [] (deps_of rest m)
  unfolding add_services open_count deps_of lookup
  degree-add_services [] g h = omega arith
  degree-add_services ((name, svc) ∷ rest) g (fresh, h) = ground (
    arith,
    degree-add_services rest (add_deps services name svc.depends_on g) h,
    degree-add_deps services m name svc.depends_on g,
    deps_of-no_key m rest,
    ==_iff name m,
  )

  count-add_services :
      (n : Bytes) (rest : Dict ServiceDef) (g : Graph)
      → HasDistinctKeys rest
      → count m (dependents_of n (add_services services rest g).dependents)
        ≡ count m (dependents_of n g.dependents)
          + (if has_key n services then count n (deps_of rest m) else 0)
  unfolding add_services deps_of lookup
  count-add_services n [] g h = ground arith
  count-add_services n ((name, svc) ∷ rest) g (fresh, h) = ground (
    arith,
    count-add_services n rest (add_deps services name svc.depends_on g) h,
    count-add_deps services m n name svc.depends_on g,
    deps_of-no_key m rest,
    ==_iff name m,
  )

degree-zero_degrees : (m : Bytes) (rest : Dict ServiceDef) → degree m (zero_degrees rest) ≡ 0
unfolding zero_degrees degree lookup
degree-zero_degrees m [] = refl
degree-zero_degrees m ((name, svc) ∷ rest) =
    ground (arith, degree-zero_degrees m rest, degree-insert m name 0 (zero_degrees rest))

module _ (services : Dict ServiceDef) (distinct : HasDistinctKeys services) (m : Bytes) where
  -- The degree of a service is the number of its dependencies.
  pub degree-build_graph :
      degree m (build_graph services).in_degree ≡ open_count services [] (deps_of services m)
  unfolding build_graph
  degree-build_graph = omega (
    arith,
    degree-add_services services m services
        (record { in_degree = zero_degrees services; dependents = [] }) distinct,
    degree-zero_degrees m services,
  )

  pub count-build_graph :
      (n : Bytes)
      → has_key n services ≡ true
      → count m (dependents_of n (build_graph services).dependents) ≡ count n (deps_of services m)
  unfolding build_graph dependents_of lookup
  count-build_graph n known = ground (
    arith,
    count-add_services services m n services
        (record { in_degree = zero_degrees services; dependents = [] }) distinct,
  )
