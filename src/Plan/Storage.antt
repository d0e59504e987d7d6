-- ===== src/Plan/Storage.antt =====
-- planStorage and planRegistries of internal/reconcile/plan.go, on the buckets and the secrets that
-- are live.
use nvoi.Base.{
  Bytes, bytes, Dict, List, [], ◌∷◌, ◌++◌, if◌then◌else◌, is_empty, is_some, has_prefix, select,
  contains, not, length, refl,
}
use nvoi.Base.Sort.{sorted_keys, contains-sorted_keys}
use nvoi.Naming.{Names, base, bucket, kube_database_backup_bucket}
use nvoi.Config.{AppConfig, StorageDef, DatabaseDef, RegistryDef}
use nvoi.Plan.Entry.{delete, PlanEntry, entry, Resource, registry_secret, no_detail, hosts}
use nvoi.Plan.Infra.{kind_of}
use nvoi.Plan.Diff.{IsDesiredPart, IsDesiredPart-nil, IsDesiredPart-cons, IsDesiredPart-same}

unfoldable pub storage_buckets : Names → Dict StorageDef → List Bytes
storage_buckets names [] = []
storage_buckets names ((n, def) ∷ rest) =
    (if is_empty def.bucket then bucket names n else def.bucket) ∷ storage_buckets names rest

unfoldable pub backup_buckets : Names → Dict DatabaseDef → List Bytes
backup_buckets names [] = []
backup_buckets names ((n, db) ∷ rest) =
    if is_some db.backup
    then kube_database_backup_bucket names n ∷ backup_buckets names rest
    else backup_buckets names rest

unfoldable pub desired_buckets : Names → AppConfig → List Bytes
desired_buckets names cfg = storage_buckets names cfg.storage ++ backup_buckets names cfg.databases

-- The live buckets whose name begins with the cluster's prefix.
unfoldable pub own_buckets : Names → List Bytes → List Bytes
own_buckets names live = select (has_prefix (base names ++ bytes "-")) live

unfoldable pub bucket_entries : (live desired : List Bytes) → List PlanEntry
bucket_entries live [] = []
bucket_entries live (n ∷ desired) =
    entry (kind_of (contains n live)) Resource.bucket n no_detail ∷ bucket_entries live desired

-- There is no deletion: buckets hold the user's data.
unfoldable pub plan_storage : Names → AppConfig → (live : List Bytes) → List PlanEntry
plan_storage names cfg live =
    bucket_entries (own_buckets names live) (sorted_keys (desired_buckets names cfg))

abbrev pub pull_secret_name : Bytes
pull_secret_name = bytes "registry-auth"

-- `existing` are the secrets that the registries step owns.
unfoldable pub plan_registries : Dict RegistryDef → (existing : List Bytes) → List PlanEntry
plan_registries registry existing =
    if not (is_empty registry)
    then entry (kind_of (contains pull_secret_name existing)) registry_secret pull_secret_name
        (hosts (length registry))
      ∷ []
    else if contains pull_secret_name existing
    then entry delete registry_secret pull_secret_name no_detail ∷ []
    else []

bucket_entries-IsDesiredPart :
    (live desired : List Bytes) → IsDesiredPart desired live (bucket_entries live desired)
unfolding bucket_entries
bucket_entries-IsDesiredPart live [] = IsDesiredPart-nil live
bucket_entries-IsDesiredPart live (n ∷ desired) =
    IsDesiredPart-cons n desired live _ (bucket_entries live desired) refl refl
      (bucket_entries-IsDesiredPart live desired)

-- The bucket part of the plan adds exactly the desired buckets that are not live under the
-- cluster's prefix, lists as unchanged exactly those that are, and neither deletes nor changes a
-- bucket, whatever is live.
pub plan_storage-IsDesiredPart :
    (names : Names) (cfg : AppConfig) (live : List Bytes)
    → IsDesiredPart
        (desired_buckets names cfg)
        (own_buckets names live)
        (plan_storage names cfg live)
unfolding plan_storage
plan_storage-IsDesiredPart names cfg live =
    let desired = desired_buckets names cfg in
    IsDesiredPart-same (sorted_keys desired) desired (own_buckets names live)
      (bucket_entries (own_buckets names live) (sorted_keys desired))
      (λ n. contains-sorted_keys n desired)
      (bucket_entries-IsDesiredPart (own_buckets names live) (sorted_keys desired))
