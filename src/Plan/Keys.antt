-- ===== src/Plan/Keys.antt =====
-- desiredSecretKeys and secretKeyDiff of internal/reconcile/plan.go, and StorageSecretKeys of
-- pkg/core/storage.go.
use nvoi.Base.{
  Bytes, bytes, List, [], ◌∷◌, ◌++◌, if◌then◌else◌, cut, is_empty, contains, Option, none, some,
}
use nvoi.Naming.{storage_env_prefix, database_env_name}
use nvoi.Validate.Text.{parse_database_ref}
use nvoi.Plan.Entry.{delete, PlanEntry, entry, secret_key, no_detail}
use nvoi.Plan.Infra.{kind_of, rule_name}

unfoldable pub storage_secret_keys : Bytes → List Bytes
storage_secret_keys name =
    (storage_env_prefix name ++ bytes "_ENDPOINT")
    ∷ (storage_env_prefix name ++ bytes "_BUCKET")
    ∷ (storage_env_prefix name ++ bytes "_ACCESS_KEY_ID")
    ∷ (storage_env_prefix name ++ bytes "_SECRET_ACCESS_KEY")
    ∷ []

-- The part before `=`, if that is not empty, else the whole entry.
abbrev pub key_part : Bytes → Option (Bytes × Bytes) → Bytes
key_part e none = e
key_part e (some ([], value)) = e
key_part e (some (c ∷ key, value)) = c ∷ key

unfoldable pub secret_names : List Bytes → List Bytes
secret_names [] = []
secret_names (e ∷ secrets) = key_part e (cut b'=' e) ∷ secret_names secrets

unfoldable pub storage_names : List Bytes → List Bytes
storage_names [] = []
storage_names (s ∷ storages) = storage_secret_keys s ++ storage_names storages

unfoldable pub database_names : List Bytes → List Bytes
database_names [] = []
database_names (d ∷ databases) =
    (if is_empty (parse_database_ref d).0
      then database_env_name (parse_database_ref d).1
      else (parse_database_ref d).0)
    ∷ database_names databases

unfoldable pub desired_secret_keys : (secrets storages databases : List Bytes) → List Bytes
desired_secret_keys secrets storages databases =
    secret_names secrets ++ (storage_names storages ++ database_names databases)

-- The entries' names are `workload:key`, as those of firewall rules are `firewall:port`.
unfoldable pub key_adds : (workload : Bytes) → (live desired : List Bytes) → List PlanEntry
key_adds workload live [] = []
key_adds workload live (k ∷ desired) =
    entry (kind_of (contains k live)) secret_key (rule_name workload k) no_detail
    ∷ key_adds workload live desired

unfoldable pub key_deletes : (workload : Bytes) → (desired live : List Bytes) → List PlanEntry
key_deletes workload desired [] = []
key_deletes workload desired (k ∷ live) =
    if contains k desired
    then key_deletes workload desired live
    else entry delete secret_key (rule_name workload k) no_detail
      ∷ key_deletes workload desired live

unfoldable pub secret_key_diff : (workload : Bytes) → (desired live : List Bytes) → List PlanEntry
secret_key_diff workload desired live =
    key_adds workload live desired ++ key_deletes workload desired live
