-- ===== src/Tests/Order.antt =====
-- The order of services.
use nvoi.Base.{
  Bytes, bytes, List, [], ◌∷◌, ◌≡◌, ◌≢◌, ◌↔◌, refl, true, Dict, ◌≤◌, ◌<◌, has_key, contains,
  HasDistinctKeys, ◌==◌,
}
use nvoi.Base.Sort.{count}
use nvoi.Topsort.{topo_sort_services}
use nvoi.Topsort.Laws.{topo_sort_complete}
use nvoi.Topsort.Cycle.{find_dependency_cycle, join_arrow}
use nvoi.Topsort.Cycle.Search.{IsCycle}
use nvoi.Topsort.Cycle.Walks.{
  AllServicesGrounded, find_dependency_cycle-nil_iff, find_dependency_cycle-IsCycle,
}
use nvoi.Tests.Samples.{services, cyclic_services}

distinct : HasDistinctKeys services
unfolding has_key ◌==◌
distinct = (refl, (refl, tt))

distinct_cyclic : HasDistinctKeys cyclic_services
unfolding has_key ◌==◌
distinct_cyclic = (refl, (refl, tt))

order : topo_sort_services services ≡ bytes "api" ∷ bytes "web" ∷ []
unfolding topo_sort_services nvoi.Base.Sort.sort nvoi.Base.lookup has_key ◌==◌ nvoi.Base.insert
order = refl

silent : find_dependency_cycle services ≡ []
unfolding find_dependency_cycle nvoi.Base.Sort.sort nvoi.Base.lookup nvoi.Topsort.Build.deps_of ◌==◌
    nvoi.Base.insert has_key
silent = refl

web_known : has_key (bytes "web") services ≡ true
unfolding has_key ◌==◌
web_known = refl

reported : find_dependency_cycle cyclic_services ≡ bytes "api -> web -> api"
unfolding find_dependency_cycle nvoi.Base.Sort.sort nvoi.Base.lookup nvoi.Topsort.Build.deps_of ◌==◌
    has_key nvoi.Base.insert
reported = refl

some_cycle : find_dependency_cycle cyclic_services ≢ []
some_cycle e = let r = reported in cc

grounded_services : AllServicesGrounded services
grounded_services = (find_dependency_cycle-nil_iff services).0 silent

topo_sort_complete_example : count (bytes "web") (topo_sort_services services) ≡ 1
unfolding AllServicesGrounded
topo_sort_complete_example =
    topo_sort_complete services distinct (bytes "web") web_known
      (grounded_services (bytes "web") web_known)

find_dependency_cycle-nil_iff_example :
    (find_dependency_cycle services ≡ []) ↔ AllServicesGrounded services
find_dependency_cycle-nil_iff_example = find_dependency_cycle-nil_iff services

find_dependency_cycle-IsCycle_example :
    (p : List Bytes) × IsCycle cyclic_services p
    × (find_dependency_cycle cyclic_services ≡ join_arrow p)
find_dependency_cycle-IsCycle_example = find_dependency_cycle-IsCycle cyclic_services some_cycle
