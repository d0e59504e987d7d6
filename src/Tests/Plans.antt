-- ===== src/Tests/Plans.antt =====
-- Plans, firewalls and sweeps.
use nvoi.Base.{
  ℕ, Bytes, bytes, Dict, List, [], ◌∷◌, ◌++◌, some, none, Option, Bool, true, false, if◌then◌else◌,
  not, ◌&&◌, ◌||◌, ◌==◌, ==_iff, contains, select, lookup, has_key, HasDistinctKeys, is_empty, All,
  ◌≡◌, ◌↔◌, refl, arith, Bool-cases, inl, inr,
}
use nvoi.Base.Sort.{SameItems}
use nvoi.Naming.{role_master, role_builder}
use nvoi.Config.{pos}
use nvoi.Config.View.{ServerSpec, VolumeSpec}
use nvoi.Firewall.{
  PortAllowList, parse_raw_rules, any_malformed, merge_allow_lists, firewall_allow_list, anywhere,
  add_group,
}
use nvoi.Firewall.Laws.{IsPortList, or_else, parse_raw_rules-IsPortList, firewall_allow_list_lem}
use nvoi.Plan.Infra.{
  server_names, volume_names, cache_names, plan_servers, plan_volumes, plan_firewalls, cidr_equal,
  diff_rules, plan_server_adds, plan_deletes, insert_port,
}
use nvoi.Plan.Diff.{IsDiff, names_where, is_add, is_delete}
use nvoi.Plan.Rules.{IsRuleDiff, diff_rules-IsRuleDiff}
use nvoi.Plan.Infra.{kind_of, rule_name}
use nvoi.Plan.Diff.{is_no_change}
use nvoi.Plan.Keys.{desired_secret_keys, secret_key_diff, key_adds}
use nvoi.Plan.KeyDiff.{secret_key_diff_lem}
use nvoi.Naming.{Names}
use nvoi.Plan.Parts.{plan_servers-IsDiff}

abbrev spec : Bytes → Bytes → ServerSpec
spec name role = record {
  name = name;
  type = bytes "cx22";
  region = bytes "fsn1";
  role = role;
  disk = pos 0;
}

abbrev specs : List ServerSpec
specs = spec (bytes "main") role_master ∷ spec (bytes "b1") role_builder ∷ []

abbrev live_servers : List Bytes
live_servers = bytes "old" ∷ bytes "main" ∷ []

added : names_where is_add (plan_servers specs live_servers) ≡ bytes "b1" ∷ []
unfolding names_where plan_servers plan_server_adds contains ◌==◌ plan_deletes nvoi.Base.Sort.sort
    server_names
added = refl

removed : names_where is_delete (plan_servers specs live_servers) ≡ bytes "old" ∷ []
unfolding names_where plan_servers plan_server_adds contains ◌==◌ plan_deletes nvoi.Base.Sort.sort
    server_names
removed = refl

plan_servers-IsDiff_example :
    IsDiff (server_names specs) live_servers (plan_servers specs live_servers)
plan_servers-IsDiff_example = plan_servers-IsDiff specs live_servers

abbrev vols : List VolumeSpec
vols = record { name = bytes "data"; size = pos 20; server = bytes "main"; mount_path = [] } ∷ []

abbrev live_volumes : List Bytes
live_volumes = bytes "b1-builder-cache" ∷ bytes "logs" ∷ []

abbrev firewalls : List Bytes
firewalls = bytes "nvoi-shop-prod-master-fw" ∷ []

abbrev wanted_rules : PortAllowList
wanted_rules = (bytes "443", anywhere) ∷ (bytes "80", anywhere) ∷ []

abbrev live_rules : PortAllowList
live_rules =
    (bytes "22", anywhere) ∷ (bytes "8080", anywhere) ∷ (bytes "80", bytes "::/0" ∷ []) ∷ []

closed :
    names_where is_delete (diff_rules (bytes "fw") wanted_rules live_rules) ≡ bytes "fw:8080" ∷ []
unfolding names_where diff_rules nvoi.Plan.Infra.rule_adds nvoi.Plan.Infra.sorted_ports
    nvoi.Plan.Infra.sort_ports insert_port nvoi.Firewall.atoi lookup ◌==◌ cidr_equal
    nvoi.Plan.Infra.rule_deletes has_key
closed = refl

diff_rules-IsRuleDiff_example :
    IsRuleDiff
      (bytes "fw")
      wanted_rules
      live_rules
      (diff_rules (bytes "fw") wanted_rules live_rules)
diff_rules-IsRuleDiff_example = diff_rules-IsRuleDiff (bytes "fw") wanted_rules live_rules

abbrev user_rules : List Bytes
user_rules = bytes "80:10.0.0.0/8;8080:1.2.3.4" ∷ []

well_formed : any_malformed user_rules ≡ false
unfolding any_malformed nvoi.Base.has_byte
well_formed = refl

parse_raw_rules-IsPortList_example : IsPortList (parse_raw_rules user_rules)
parse_raw_rules-IsPortList_example = parse_raw_rules-IsPortList user_rules

firewall_allow_list_lem_example :
    (m : PortAllowList) × (firewall_allow_list true [] user_rules ≡ some m)
    × ((p : Bytes)
        → lookup p m
          ≡ or_else (lookup p (parse_raw_rules user_rules)) (
              if true && is_empty {A = ℕ} [] && (bytes "80" == p || bytes "443" == p)
              then some anywhere
              else none))
firewall_allow_list_lem_example = firewall_allow_list_lem true [] user_rules well_formed

keys_of_refs :
    desired_secret_keys (bytes "A=$X" ∷ bytes "B" ∷ []) [] (bytes "main-db" ∷ [])
    ≡ bytes "A" ∷ bytes "B" ∷ bytes "DATABASE_URL_MAIN_DB" ∷ []
unfolding desired_secret_keys nvoi.Plan.Keys.secret_names nvoi.Base.cut nvoi.Plan.Keys.storage_names
    nvoi.Plan.Keys.database_names nvoi.Validate.Text.parse_database_ref
    nvoi.Naming.database_env_name
keys_of_refs = refl

abbrev wanted_keys : List Bytes
wanted_keys = bytes "A" ∷ bytes "B" ∷ []

abbrev live_keys : List Bytes
live_keys = bytes "B" ∷ bytes "C" ∷ []

secret_key_diff_lem_example :
    (contains
        (rule_name (bytes "web") (bytes "C"))
        (names_where is_add (secret_key_diff (bytes "web") wanted_keys live_keys))
      ≡ (contains (bytes "C") wanted_keys && not (contains (bytes "C") live_keys)))
    × (contains
          (rule_name (bytes "web") (bytes "C"))
          (names_where is_delete (secret_key_diff (bytes "web") wanted_keys live_keys))
        ≡ (contains (bytes "C") live_keys && not (contains (bytes "C") wanted_keys)))
    × (contains
          (rule_name (bytes "web") (bytes "C"))
          (names_where is_no_change (secret_key_diff (bytes "web") wanted_keys live_keys))
        ≡ (contains (bytes "C") wanted_keys && contains (bytes "C") live_keys))
secret_key_diff_lem_example = secret_key_diff_lem (bytes "web") wanted_keys live_keys (bytes "C")

abbrev shop_names : Names
shop_names = record { app = bytes "shop"; env = bytes "prod" }

abbrev live_buckets : List Bytes
live_buckets = bytes "nvoi-shop-prod-assets" ∷ bytes "other" ∷ []
