-- ===== src/Tests/Sweeps.antt =====
-- Sweeps of a small cluster.
use nvoi.Base.{
  Bytes, bytes, List, [], ◌∷◌, some, false, if◌then◌else◌, not, ◌==◌, contains, select, All, ◌≡◌,
  refl, arith,
}
use nvoi.Kube.Sweep.{
  Kind, deployment, Reply, deleted, not_found, swept, Api, sweep_owned, list_owned, owner_selector,
}
use nvoi.Kube.Converges.{RemovesNames, sweep_owned-keeps_desired, sweep_owned-other_owners}

-- A cluster whose state is the list of its resources: the name, and the label that finds it.
abbrev Resources : Type 0
Resources = List (Bytes × Bytes)

abbrev find_label : Bytes → Resources → List Bytes
find_label selector [] = []
find_label selector ((n, label) ∷ rs) =
    if label == selector then n ∷ find_label selector rs else find_label selector rs

abbrev remove_name : Bytes → Resources → Resources
remove_name n [] = []
remove_name n ((m, label) ∷ rs) = if m == n then remove_name n rs else (m, label) ∷ remove_name n rs

abbrev cluster : Api
cluster = record {
  State = Resources;
  list = λ s kind selector. some (find_label selector s);
  delete = λ s kind n. (deleted, remove_name n s);
}

find_label-remove_name :
    (n selector : Bytes) (rs : Resources)
    → find_label selector (remove_name n rs) ≡ select (λ m. not (m == n)) (find_label selector rs)
find_label-remove_name n selector [] = refl
find_label-remove_name n selector ((m, label) ∷ rs) =
    ground (arith, find_label-remove_name n selector rs)

cluster-RemovesNames : RemovesNames cluster
cluster-RemovesNames s kind n selector names done listed =
    ground (arith, find_label-remove_name n selector s, listed)

abbrev workloads : Resources
workloads =
    (bytes "web", owner_selector (bytes "services"))
    ∷ (bytes "old", owner_selector (bytes "services"))
    ∷ (bytes "caddy", owner_selector (bytes "caddy"))
    ∷ []

abbrev listed_names : List Bytes
listed_names = bytes "web" ∷ bytes "old" ∷ []

listed : list_owned cluster workloads (bytes "services") deployment ≡ some listed_names
unfolding list_owned ◌==◌
listed = refl

listed_caddy : list_owned cluster workloads (bytes "caddy") deployment ≡ some (bytes "caddy" ∷ [])
unfolding list_owned ◌==◌
listed_caddy = refl

swept_workloads :
    (sweep_owned cluster workloads (bytes "services") deployment (bytes "web" ∷ [])).0 ≡ swept
unfolding sweep_owned nvoi.Kube.Sweep.sweep_items ◌==◌ contains
swept_workloads = refl

apart : All (λ m. contains m listed_names ≡ false) (bytes "caddy" ∷ [])
unfolding contains ◌==◌
apart = (refl, tt)

sweep_owned-keeps_desired_example :
    list_owned cluster
      (sweep_owned cluster workloads (bytes "services") deployment (bytes "web" ∷ [])).1
      (bytes "services")
      deployment
    ≡ some (select (λ m. contains m (bytes "web" ∷ [])) listed_names)
sweep_owned-keeps_desired_example =
    sweep_owned-keeps_desired cluster cluster-RemovesNames workloads (bytes "services") deployment
      (bytes "web" ∷ []) listed_names listed swept_workloads

sweep_owned-other_owners_example :
    list_owned cluster
      (sweep_owned cluster workloads (bytes "services") deployment (bytes "web" ∷ [])).1
      (bytes "caddy")
      deployment
    ≡ some (bytes "caddy" ∷ [])
sweep_owned-other_owners_example =
    sweep_owned-other_owners cluster cluster-RemovesNames workloads (bytes "services") deployment
      (bytes "web" ∷ []) listed_names listed (bytes "caddy") (bytes "caddy" ∷ []) listed_caddy apart
      swept_workloads
