-- ===== src/Naming.antt =====
-- pkg/utils/naming.go: the names of all resources, the label keys, and name validation.
pub mod Dns
pub mod Distinct
use nvoi.Base.{ℕ, Bytes, bytes, Dict, Option, none, some, Bool, true, false, List, [], ◌∷◌, ◌++◌}
use nvoi.Base.{if◌then◌else◌, ◌==◌, cut, first_part, map, is_lower, nat_eq, ◌||◌, not, is_empty}
use nvoi.Base.{◌-◌, ◌≡◌, refl}

pub record Names : Type 0 where
  pub app : Bytes
  pub env : Bytes

abbrev pub role_master : Bytes
role_master = bytes "master"

abbrev pub role_worker : Bytes
role_worker = bytes "worker"

abbrev pub role_builder : Bytes
role_builder = bytes "builder"

unfoldable pub base : Names → Bytes
base n = bytes "nvoi-" ++ n.app ++ bytes "-" ++ n.env

unfoldable pub master_firewall : Names → Bytes
master_firewall n = base n ++ bytes "-master-fw"

unfoldable pub worker_firewall : Names → Bytes
worker_firewall n = base n ++ bytes "-worker-fw"

unfoldable pub builder_firewall : Names → Bytes
builder_firewall n = base n ++ bytes "-builder-fw"

-- Unknown roles fall back to the worker firewall.
unfoldable pub firewall_for_role : Names → Bytes → Bytes
firewall_for_role n role =
    if role == role_master
    then master_firewall n
    else if role == role_builder
    then builder_firewall n
    else worker_firewall n

unfoldable pub builder_cache_volume : Names → Bytes → Bytes
builder_cache_volume n server_key = base n ++ bytes "-" ++ server_key ++ bytes "-builder-cache"

unfoldable pub builder_cache_volume_short : Bytes → Bytes
builder_cache_volume_short server_key = server_key ++ bytes "-builder-cache"

unfoldable pub network : Names → Bytes
network n = base n ++ bytes "-net"

unfoldable pub server : Names → Bytes → Bytes
server n key = base n ++ bytes "-" ++ key

unfoldable pub volume : Names → Bytes → Bytes
volume n name = base n ++ bytes "-" ++ name

unfoldable pub bucket : Names → Bytes → Bytes
bucket n name = base n ++ bytes "-" ++ name

unfoldable pub kube_namespace : Names → Bytes
kube_namespace n = base n

unfoldable pub kube_service_secrets : Bytes → Bytes
kube_service_secrets svc = svc ++ bytes "-secrets"

unfoldable pub database : Names → Bytes → Bytes
database n name = base n ++ bytes "-db-" ++ name

unfoldable pub kube_database_credentials : Names → Bytes → Bytes
kube_database_credentials n name = database n name ++ bytes "-credentials"

unfoldable pub kube_database_pvc : Names → Bytes → Bytes
kube_database_pvc n name = database n name ++ bytes "-data"

unfoldable pub kube_database_backup_cron : Names → Bytes → Bytes
kube_database_backup_cron n name = database n name ++ bytes "-backup"

unfoldable pub kube_database_pod : Names → Bytes → Bytes
kube_database_pod n name = database n name ++ bytes "-0"

unfoldable pub kube_database_backup_bucket : Names → Bytes → Bytes
kube_database_backup_bucket n name = database n name ++ bytes "-backups"

unfoldable pub kube_database_backup_creds : Names → Bytes → Bytes
kube_database_backup_creds n name = database n name ++ bytes "-backup-creds"

unfoldable pub kube_database_snapshot : Names → (db_name label : Bytes) → Bytes
kube_database_snapshot n db_name label = kube_database_pvc n db_name ++ bytes "-snap-" ++ label

unfoldable pub kube_database_branch : Names → (db_name branch : Bytes) → Bytes
kube_database_branch n db_name branch = kube_database_pvc n db_name ++ bytes "-br-" ++ branch

unfoldable pub kube_database_branch_snapshot : Names → (db_name branch : Bytes) → Bytes
kube_database_branch_snapshot n db_name branch =
    kube_database_branch n db_name branch ++ bytes "-snap"

abbrev pub label_app_managed_by : Bytes
label_app_managed_by = bytes "app.kubernetes.io/managed-by"

abbrev pub label_managed_by_key : Bytes
label_managed_by_key = bytes "managed-by"

abbrev pub label_managed_by : Bytes
label_managed_by = bytes "nvoi"

abbrev pub label_nvoi_owner : Bytes
label_nvoi_owner = bytes "nvoi/owner"

-- The label set of resources at the cloud provider.
unfoldable pub labels : Names → Dict Bytes
labels n =
    (label_managed_by_key, label_managed_by) ∷ (bytes "app", base n) ∷ (bytes "env", n.env) ∷ []

-- The label set of resources in the cluster.
unfoldable pub kube_labels : Names → Dict Bytes
kube_labels n =
    (label_app_managed_by, label_managed_by) ∷ (bytes "app", base n) ∷ (bytes "env", n.env) ∷ []

unfoldable pub volume_mount_path : Names → Bytes → Bytes
volume_mount_path n name = bytes "/mnt/data/" ++ base n ++ bytes "-" ++ name

unfoldable pub named_volume_host_path : Names → Bytes → Bytes
named_volume_host_path n volume = bytes "/var/lib/nvoi/volumes/" ++ base n ++ bytes "/" ++ volume

-- strings.ToUpper and strings.ReplaceAll(…, "-", "_") on one ASCII character
abbrev pub env_char : ℕ → ℕ
env_char c = if is_lower c then c - 32 else if nat_eq c b'-' then b'_' else c

unfoldable pub storage_env_prefix : Bytes → Bytes
storage_env_prefix name = bytes "STORAGE_" ++ map env_char name

unfoldable pub database_env_name : Bytes → Bytes
database_env_name name = bytes "DATABASE_URL_" ++ map env_char name

pub record VolumeMount : Type 0 where
  pub source : Bytes
  pub target : Bytes
  pub named : Bool

-- `source[0] != '/' && source[0] != '.'`
abbrev is_named : Bytes → Bool
is_named [] = false
is_named (c ∷ s) = not (nat_eq c b'/' || nat_eq c b'.')

-- The target ends at a second colon.
pub target_of : Bytes → Bytes
target_of rest = elim (cut b':' rest) [ none ↦ rest | some r ↦ r.0 ]

-- `none` stands for the result with `ok` false.
unfoldable pub parse_volume_mount : Bytes → Option VolumeMount
unfolding target_of
parse_volume_mount s = elim (cut b':' s) [
  | none ↦ none
  | some r ↦
      if is_empty r.0
      then none
      else some (record { source = r.0; target = target_of r.1; named = is_named r.0 })
]
