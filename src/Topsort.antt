-- ===== src/Topsort.antt =====
-- internal/reconcile/topsort.go: the order in which services are applied.
pub mod Unlock
pub mod Build
pub mod Invariant
pub mod Laws
pub mod Cycle
use nvoi.Base.{
  ℕ, zero, suc, ◌+◌, ◌-◌, Bytes, Dict, Option, none, some, Bool, true, false, List, [], ◌∷◌,
}
use nvoi.Base.{◌++◌, if◌then◌else◌, nat_eq, lookup, has_key, keys, insert, select, length, is_empty}
use nvoi.Base.Sort.{sort}
use nvoi.Config.{ServiceDef}

-- `inDegree[n]`; a missing key reads 0
abbrev pub or_zero : Option ℕ → ℕ
or_zero none = 0
or_zero (some d) = d

unfoldable pub degree : Bytes → Dict ℕ → ℕ
degree n in_degree = or_zero (lookup n in_degree)

abbrev pub or_nil : Option (List Bytes) → List Bytes
or_nil none = []
or_nil (some l) = l

unfoldable pub dependents_of : Bytes → Dict (List Bytes) → List Bytes
dependents_of n dependents = or_nil (lookup n dependents)

pub record Graph : Type 0 where
  pub in_degree : Dict ℕ
  pub dependents : Dict (List Bytes)

-- The loop over `svc.DependsOn`; a dependency that is no service is skipped.
pub add_deps : Dict ServiceDef → Bytes → List Bytes → Graph → Graph
unfolding degree dependents_of
add_deps services name [] g = g
add_deps services name (dep ∷ deps) g = add_deps services name deps (
    if has_key dep services
    then record {
      in_degree = insert name (degree name g.in_degree + 1) g.in_degree;
      dependents = insert dep (dependents_of dep g.dependents ++ name ∷ []) g.dependents;
    }
    else g)

-- The loop over the services.
pub add_services : Dict ServiceDef → Dict ServiceDef → Graph → Graph
unfolding add_deps
add_services services [] g = g
add_services services ((name, svc) ∷ rest) g =
    add_services services rest (add_deps services name svc.depends_on g)

-- `inDegree[name] = 0` for each service
pub zero_degrees : Dict ServiceDef → Dict ℕ
zero_degrees [] = []
zero_degrees ((name, svc) ∷ rest) = insert name 0 (zero_degrees rest)

pub build_graph : Dict ServiceDef → Graph
unfolding add_services zero_degrees
build_graph services =
    add_services services services (record { in_degree = zero_degrees services; dependents = [] })

-- The loop over `dependents[n]`: the new degrees and the names that reach 0. A degree reaches 0
-- by a decrement if it was 1; one that is 0 would turn negative in Go, and never reach 0 again.
pub unlock : Dict ℕ → List Bytes → Dict ℕ × List Bytes
unfolding degree
unlock in_degree [] = (in_degree, [])
unlock in_degree (d ∷ ds) =
    let rest = unlock (insert d (degree d in_degree - 1) in_degree) ds in
    (rest.0, if nat_eq (degree d in_degree) 1 then d ∷ rest.1 else rest.1)

-- The main loop. It takes a service off `ready` in each round, so the number of services is
-- enough fuel.
pub kahn : ℕ → Dict (List Bytes) → Dict ℕ → List Bytes → List Bytes
unfolding unlock dependents_of
kahn zero dependents in_degree ready = []
kahn (suc f) dependents in_degree [] = []
kahn (suc f) dependents in_degree (n ∷ ready) =
    let r = unlock in_degree (dependents_of n dependents) in
    n ∷ kahn f dependents r.0 (if is_empty r.1 then ready else sort (ready ++ r.1))

-- `inDegree` has the services as its keys.
unfoldable pub topo_sort_services : Dict ServiceDef → List Bytes
unfolding build_graph kahn degree
topo_sort_services services =
    let g = build_graph services in
    kahn (length (keys services)) g.dependents g.in_degree
      (sort (select (λ n. nat_eq (degree n g.in_degree) 0) (keys services)))
