-- ===== src/Plan/Infra.antt =====
-- ComputeInfraPlan of pkg/provider/plan.go.
use nvoi.Base.{
  ℕ, Bytes, bytes, Dict, Option, none, some, Bool, true, false, List, [], ◌∷◌, ◌++◌, if◌then◌else◌,
  ◌==◌, ◌&&◌, ◌||◌, not, nat_eq, leb, contains, length, lookup, keys, has_key,
}
use nvoi.Base.Sort.{sort, sorted_keys}
use nvoi.Naming.{
  Names, role_worker, role_builder, master_firewall, worker_firewall, builder_firewall,
  builder_cache_volume_short,
}
use nvoi.Config.View.{ServerSpec, VolumeSpec}
use nvoi.Firewall.{PortAllowList, atoi, or_nil}
use nvoi.Plan.Entry.{PlanKind, add, delete, update, no_change, PlanEntry, entry, Resource}
use nvoi.Plan.Entry.{
  server, firewall, firewall_rule, volume, no_detail, type_region, size_on, cache_on, cidrs,
  changed, removed,
}

-- What the infra provider reports; a missing snapshot (first deploy) is the absent one.
pub record LiveSnapshot : Type 0 where
  pub servers : List Bytes
  pub volumes : List Bytes
  pub firewalls : List Bytes
  pub firewall_rules : Dict PortAllowList

-- A desired resource: `add` if it is not live, else `no_change`.
abbrev pub kind_of : Bool → PlanKind
kind_of true = no_change
kind_of false = add

unfoldable pub plan_server_adds : (live : List Bytes) → List ServerSpec → List PlanEntry
plan_server_adds live [] = []
plan_server_adds live (s ∷ specs) =
    entry (kind_of (contains s.name live)) server s.name (type_region s.type s.region)
    ∷ plan_server_adds live specs

-- The loop over the sorted live names that skips the desired ones.
unfoldable pub plan_deletes : Resource → (desired live : List Bytes) → List PlanEntry
plan_deletes resource desired [] = []
plan_deletes resource desired (n ∷ live) =
    if contains n desired
    then plan_deletes resource desired live
    else entry delete resource n no_detail ∷ plan_deletes resource desired live

unfoldable pub server_names : List ServerSpec → List Bytes
server_names [] = []
server_names (s ∷ specs) = s.name ∷ server_names specs

unfoldable pub plan_servers : List ServerSpec → (live : List Bytes) → List PlanEntry
plan_servers specs live =
    plan_server_adds live specs ++ plan_deletes server (server_names specs) (sort live)

unfoldable pub volume_names : List VolumeSpec → List Bytes
volume_names [] = []
volume_names (v ∷ specs) = v.name ∷ volume_names specs

unfoldable pub cache_names : List ServerSpec → List Bytes
cache_names [] = []
cache_names (s ∷ specs) =
    if s.role == role_builder
    then builder_cache_volume_short s.name ∷ cache_names specs
    else cache_names specs

unfoldable pub plan_volume_adds : (live : List Bytes) → List VolumeSpec → List PlanEntry
plan_volume_adds live [] = []
plan_volume_adds live (v ∷ specs) =
    entry (kind_of (contains v.name live)) volume v.name (size_on v.size v.server)
    ∷ plan_volume_adds live specs

unfoldable pub plan_cache_adds : (live : List Bytes) → List ServerSpec → List PlanEntry
plan_cache_adds live [] = []
plan_cache_adds live (s ∷ specs) =
    if s.role == role_builder
    then entry (kind_of (contains (builder_cache_volume_short s.name) live)) volume
        (builder_cache_volume_short s.name) (cache_on s.name)
      ∷ plan_cache_adds live specs
    else plan_cache_adds live specs

unfoldable pub plan_volumes :
    List VolumeSpec → List ServerSpec → (live : List Bytes) → List PlanEntry
plan_volumes vols specs live =
    plan_volume_adds live vols
    ++ (plan_cache_adds live specs
        ++ plan_deletes volume (volume_names vols ++ cache_names specs) (sort live))

-- splitByRole, as far as the plan uses it: whether there is a server of the role.
unfoldable pub some_master : List ServerSpec → Bool
some_master [] = false
some_master (s ∷ specs) = not (s.role == role_worker || s.role == role_builder) || some_master specs

unfoldable pub some_role : Bytes → List ServerSpec → Bool
some_role role [] = false
some_role role (s ∷ specs) = s.role == role || some_role role specs

unfoldable pub desired_firewalls : Names → List ServerSpec → List Bytes
desired_firewalls names specs =
    (if some_master specs then master_firewall names ∷ [] else [])
    ++ ((if some_role role_worker specs then worker_firewall names ∷ [] else [])
        ++ (if some_role role_builder specs then builder_firewall names ∷ [] else []))

unfoldable pub plan_firewall_adds : (live desired : List Bytes) → List PlanEntry
plan_firewall_adds live [] = []
plan_firewall_adds live (fw ∷ desired) =
    entry (kind_of (contains fw live)) firewall fw no_detail ∷ plan_firewall_adds live desired

unfoldable pub plan_firewalls : (desired live : List Bytes) → List PlanEntry
plan_firewalls desired live =
    plan_firewall_adds live (sorted_keys desired)
    ++ plan_deletes firewall desired (sorted_keys live)

-- SortedPorts: the ports in the order of their numbers.
abbrev pub port_number : Bytes → ℕ
port_number p = elim (atoi p) [ none ↦ 0 | some n ↦ n ]

unfoldable pub insert_port : Bytes → List Bytes → List Bytes
insert_port p [] = p ∷ []
insert_port p (q ∷ ports) =
    if leb (port_number p) (port_number q) then p ∷ q ∷ ports else q ∷ insert_port p ports

unfoldable pub sort_ports : List Bytes → List Bytes
sort_ports [] = []
sort_ports (p ∷ ports) = insert_port p (sort_ports ports)

unfoldable pub sorted_ports : PortAllowList → List Bytes
sorted_ports m = sort_ports (keys m)

unfoldable pub same_list : List Bytes → List Bytes → Bool
same_list [] [] = true
same_list [] (y ∷ ys) = false
same_list (x ∷ xs) [] = false
same_list (x ∷ xs) (y ∷ ys) = x == y && same_list xs ys

unfoldable pub cidr_equal : List Bytes → List Bytes → Bool
cidr_equal a b = if nat_eq (length a) (length b) then same_list (sort a) (sort b) else false

abbrev pub rule_name : (fw port : Bytes) → Bytes
rule_name fw port = fw ++ bytes ":" ++ port

-- One desired port: `want` is `desired[port]`.
abbrev pub rule_entry : (fw port : Bytes) → (want : List Bytes) → Option (List Bytes) → PlanEntry
rule_entry fw port want none = entry add firewall_rule (rule_name fw port) (cidrs want)
rule_entry fw port want (some live) =
    if cidr_equal live want
    then entry no_change firewall_rule (rule_name fw port) (cidrs live)
    else entry update firewall_rule (rule_name fw port) (changed live want)

unfoldable pub rule_adds :
    (fw : Bytes) → (desired live : PortAllowList) → List Bytes → List PlanEntry
rule_adds fw desired live [] = []
rule_adds fw desired live (p ∷ ports) =
    rule_entry fw p (or_nil (lookup p desired)) (lookup p live) ∷ rule_adds fw desired live ports

-- Port 22 is managed by the program, and is never deleted.
unfoldable pub rule_deletes :
    (fw : Bytes) → (desired live : PortAllowList) → List Bytes → List PlanEntry
rule_deletes fw desired live [] = []
rule_deletes fw desired live (p ∷ ports) =
    if has_key p desired || p == bytes "22"
    then rule_deletes fw desired live ports
    else entry delete firewall_rule (rule_name fw p) (removed (or_nil (lookup p live)))
      ∷ rule_deletes fw desired live ports

unfoldable pub diff_rules : (fw : Bytes) → (desired live : PortAllowList) → List PlanEntry
diff_rules fw desired live =
    rule_adds fw desired live (sorted_ports desired)
    ++ rule_deletes fw desired live (sorted_ports live)

abbrev pub rules_at : Bytes → Dict PortAllowList → PortAllowList
rules_at fw rules = elim (lookup fw rules) [ none ↦ [] | some m ↦ m ]

-- The desired rules of a firewall: the allow-list for the master's, none for the others.
unfoldable pub desired_rules : Names → (master_rules : PortAllowList) → (fw : Bytes) → PortAllowList
desired_rules names master_rules fw = if master_firewall names == fw then master_rules else []

unfoldable pub plan_rules :
    Names → (master_rules : PortAllowList) → LiveSnapshot → (desired : List Bytes) → List PlanEntry
plan_rules names master_rules snap [] = []
plan_rules names master_rules snap (fw ∷ desired) =
    if contains fw snap.firewalls
    then diff_rules fw (desired_rules names master_rules fw) (rules_at fw snap.firewall_rules)
      ++ plan_rules names master_rules snap desired
    else plan_rules names master_rules snap desired

-- The whole plan: `master_rules` is the result of FirewallAllowList, `none` its error. Without a
-- snapshot nothing is live.
unfoldable pub compute_infra_plan :
    Names
    → List ServerSpec
    → List VolumeSpec
    → (master_rules : Option PortAllowList) → Option LiveSnapshot
    → Option (List PlanEntry)
compute_infra_plan names specs vols master_rules none = some (
    plan_servers specs []
    ++ (plan_volumes vols specs [] ++ plan_firewalls (desired_firewalls names specs) []))
compute_infra_plan names specs vols master_rules (some snap) =
    let existing =
      plan_servers specs snap.servers
      ++ (plan_volumes vols specs snap.volumes
          ++ plan_firewalls (desired_firewalls names specs) snap.firewalls) in
    let rules = λ (m : PortAllowList).
      plan_rules names m snap (sorted_keys (desired_firewalls names specs)) in
    if some_master specs
    then elim master_rules [ none ↦ none | some m ↦ some (existing ++ rules m) ]
    else some (existing ++ rules [])
