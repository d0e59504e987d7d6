-- ===== src/Tests/Workloads.antt =====
-- The secrets of workloads in a small cluster.
use nvoi.Base.{
  Bytes, bytes, Dict, Option, none, some, Bool, true, false, List, [], ◌∷◌, ◌==◌, ==_refl, lookup,
  insert, lookup-insert, has_key, contains, if◌then◌else◌, ◌≡◌, ◌≢◌, refl, ap, ◌∙◌, HasDistinctKeys,
  is_empty, remove_key, copy_over, Bool-cases, inl, inr, has_key-lookup, lookup-no_key, sym,
}
use nvoi.Kube.Sweep.{deleted}
use nvoi.Kube.Secrets.{Secret, Read, missing, broken, found, SecretApi, done}
use nvoi.Naming.{kube_service_secrets}
use nvoi.Workload.Credentials.{workload_credentials}
use nvoi.Workload.Agree.{kvs_of, workload_credentials-agrees}
use nvoi.Workload.Upsert.{upsert_service_secrets}
use nvoi.Workload.Exact.{Answers, Holds, upsert_service_secrets-Holds}
use nvoi.Plan.Keys.{desired_secret_keys}
use nvoi.Workload.Apply.{Cluster, apply_all_services, apply_all_crons, finished}
use nvoi.Workload.Staged.{IsStaged, apply_all_services-IsStaged}
use nvoi.Base.{◌↔◌}
use nvoi.Servers.{resolve_servers}
use nvoi.Validate.Text.{database_engine_is_self_hosted}
use nvoi.Validate.Mounted.{FirstMountOn, accepted-runs_by_mount}
use nvoi.Tests.Samples.{main_database, cfg, services, regs, disk_service}
use nvoi.Config.{AppConfig, ServiceDef, CronDef}
use nvoi.Naming.{Names}
use nvoi.Validate.Infra.{count_role}
use nvoi.Validate.Databases.{validate_database_server}
use nvoi.Validate.Text.{services_sharing_server}
use nvoi.Validate.Workloads.{validate_volume_server}
use nvoi.Validate.{validate_config}
use nvoi.Validate.Checks.{pass}
use nvoi.Validate.Text.{has_named_volume, named_volume}
use nvoi.Kube.Sweep.{deployment, stateful_set}
use nvoi.Workload.Apply.{service_request, cron_request, plain_env, env}
use nvoi.Workload.Objects.{Workload, Service, CronJob, built}
use nvoi.Workload.Set.{service_set_objects, cron_set_object}
use nvoi.Workload.Builds.{AreAbsolute}
use nvoi.Workload.Accepted.{service_set-built, service_set-AreAbsolute, cron_set-built}

abbrev found_or_missing : Option Secret → Read
found_or_missing none = missing
found_or_missing (some x) = found x

abbrev remove_secret : Bytes → Dict Secret → Dict Secret
remove_secret n s = remove_key n s

-- A cluster that keeps its secrets in a map: it creates what is not there, and updates what is.
abbrev store : SecretApi
store = record {
  State = Dict Secret;
  get = λ s n. found_or_missing (lookup n s);
  create = λ s n x. if has_key n s then (false, s) else (true, insert n x s);
  update = λ s n x. if has_key n s then (true, insert n x s) else (false, s);
  delete = λ s n. (deleted, remove_secret n s);
}

not_broken : (o : Option Secret) → found_or_missing o ≢ broken
not_broken none h = cc
not_broken (some x) h = cc

read_back :
    (s : Dict Secret) (n : Bytes) (x : Secret)
    → found_or_missing (lookup n (insert n x s)) ≡ found x
read_back s n x = ap found_or_missing (lookup-insert n n x s) ∙ rw (==_refl n) refl

missing_key :
    (s : Dict Secret) (n : Bytes) → found_or_missing (lookup n s) ≡ missing → has_key n s ≡ false
missing_key s n h = elim (Bool-cases (has_key n s)) [
  | inl there ↦
      let (x, e) = has_key-lookup n s there in
      let bad : found x ≡ missing = ap found_or_missing (sym e) ∙ h in cc
  | inr gone ↦ gone
]

found_key :
    (s : Dict Secret) (n : Bytes) (x : Secret)
    → found_or_missing (lookup n s) ≡ found x
    → has_key n s ≡ true
found_key s n x h = elim (Bool-cases (has_key n s)) [
  | inl there ↦ there
  | inr gone ↦
      let bad : missing ≡ found x = ap found_or_missing (sym (lookup-no_key n s gone)) ∙ h in cc
]

store-Answers : Answers store
store-Answers = record {
  reads = λ s n. not_broken (lookup n s);
  creates = λ s n x h. rw (missing_key s n h) (refl, read_back s n x);
  updates = λ s n old x h. rw (found_key s n old h) (refl, read_back s n x);
}

abbrev old_secret : Secret
old_secret = record { labels = []; values = (bytes "OLD", bytes "1") ∷ [] }

abbrev before : Dict Secret
before = (bytes "nightly-secrets", old_secret) ∷ []

abbrev wanted : Dict Bytes
wanted = (bytes "TOKEN", bytes "t") ∷ (bytes "KEY", bytes "k") ∷ []

wanted_distinct : HasDistinctKeys wanted
unfolding has_key ◌==◌
wanted_distinct = (refl, (refl, tt))

upsert_service_secrets-Holds_example :
    (t : Dict Secret) × (upsert_service_secrets store before (bytes "nightly") wanted ≡ (done, t))
    × Holds store t (kube_service_secrets (bytes "nightly")) wanted
upsert_service_secrets-Holds_example =
    upsert_service_secrets-Holds store store-Answers before (bytes "nightly") wanted wanted_distinct
      refl

abbrev sources : Dict Bytes
sources =
    (bytes "TOKEN", bytes "t")
    ∷ (bytes "STORAGE_FILES_ENDPOINT", bytes "e")
    ∷ (bytes "STORAGE_FILES_BUCKET", bytes "b")
    ∷ (bytes "STORAGE_FILES_ACCESS_KEY_ID", bytes "a")
    ∷ (bytes "STORAGE_FILES_SECRET_ACCESS_KEY", bytes "s")
    ∷ (bytes "DATABASE_URL_MAIN", bytes "u")
    ∷ []

abbrev secrets : List Bytes
secrets = bytes "TOKEN" ∷ bytes "AUTH=$TOKEN" ∷ []

workload_credentials-agrees_example :
    has_key
      (bytes "AUTH")
      (kvs_of (workload_credentials sources secrets (bytes "files" ∷ []) (bytes "main" ∷ [])))
    ≡ contains (bytes "AUTH") (desired_secret_keys secrets (bytes "files" ∷ []) (bytes "main" ∷ []))
unfolding has_key ◌==◌ nvoi.Base.has_prefix nvoi.Plan.Keys.storage_names
    nvoi.Plan.Keys.storage_secret_keys nvoi.Naming.storage_env_prefix nvoi.Naming.database_env_name
    nvoi.Validate.Text.parse_database_ref nvoi.Base.cut workload_credentials
    nvoi.Workload.Credentials.resolve_secret_entries nvoi.Vars.resolve_ref
    nvoi.Validate.Text.parse_secret_ref lookup
workload_credentials-agrees_example =
    workload_credentials-agrees sources (bytes "AUTH") secrets (bytes "files" ∷ [])
      (bytes "main" ∷ []) (refl, (refl, tt)) (refl, (refl, (refl, (refl, tt)))) (refl, tt) refl

-- The cluster of `store`, where every service starts and nothing is listed.
abbrev live_cluster : Cluster
live_cluster = record {
  State = Dict Secret;
  get = store.get;
  create = store.create;
  update = store.update;
  list = λ s k owner. some [];
  delete = λ s k n. (deleted, remove_secret n s);
  service_set = λ req s. (true, s);
  wait_rollout = λ n k checked s. (true, s);
  cron_set = λ req s. (true, s);
}

abbrev deploy_hash : Bytes
deploy_hash = bytes "20240101-120000"

services_distinct : HasDistinctKeys cfg.services
unfolding has_key ◌==◌
services_distinct = (refl, (refl, tt))

apply_all_services-IsStaged_example :
    IsStaged cfg.services [] (apply_all_services live_cluster cfg sources deploy_hash before).1.1
apply_all_services-IsStaged_example =
    apply_all_services-IsStaged live_cluster cfg sources deploy_hash services_distinct before

all_finish : (apply_all_services live_cluster cfg sources deploy_hash before).0 ≡ finished
unfolding apply_all_services nvoi.Workload.Apply.apply_services nvoi.Workload.Apply.apply_service
    nvoi.Workload.Apply.plain_env workload_credentials
    nvoi.Workload.Credentials.resolve_secret_entries nvoi.Image.resolve_image upsert_service_secrets
    nvoi.Topsort.topo_sort_services nvoi.Base.Sort.sort lookup has_key ◌==◌ insert
    nvoi.Workload.Credentials.expand_database_creds nvoi.Workload.Credentials.expand_storage_creds
    nvoi.Kube.Secrets.delete_secret nvoi.Image.resolve_service_image
all_finish = refl

-- A service with a volume, a plain mount and an env entry, and a cron with a plain mount.
abbrev cache_service : ServiceDef
cache_service = record disk_service {
  env = bytes "MODE=live" ∷ [];
  volumes = bytes "data:/data" ∷ bytes "/srv/files:/files:ro" ∷ [];
}

abbrev nightly : CronDef
nightly = record {
  image = bytes "busybox";
  schedule = bytes "0 3 * * *";
  command = bytes "true";
  server = [];
  servers = [];
  env = bytes "MODE=live" ∷ [];
  secrets = [];
  storage = [];
  volumes = bytes "/srv/files:/files" ∷ [];
}

abbrev mounted_cfg : AppConfig
mounted_cfg = record cfg {
  services = (bytes "cache", cache_service) ∷ services;
  crons = (bytes "nightly", nightly) ∷ [];
}

mounted_accepted : validate_config regs mounted_cfg ≡ pass
unfolding validate_config nvoi.Validate.Infra.validate_identity nvoi.Validate.Infra.validate_name
    nvoi.Naming.Dns.dns1123 nvoi.Validate.Infra.validate_providers
    nvoi.Validate.Infra.validate_secrets_block nvoi.Validate.Infra.validate_build lookup ◌==◌
    nvoi.Validate.Infra.validate_builders count_role nvoi.Validate.Infra.validate_ci
    nvoi.Validate.Infra.validate_tunnel contains nvoi.Validate.Infra.validate_tunnel_firewall
    nvoi.Validate.Infra.validate_tunnel_rule nvoi.Base.cut has_key nvoi.Base.cut_last
    nvoi.Base.has_byte nvoi.Base.split nvoi.Base.trim_left nvoi.Base.trim_space
    nvoi.Config.resolved_servers nvoi.Naming.Dns.env_var_name nvoi.Naming.Dns.match_rest
    nvoi.Naming.Dns.valid_domain nvoi.Topsort.Cycle.find_dependency_cycle
    nvoi.Topsort.Cycle.join_arrow nvoi.Validate.Databases.validate_backup
    nvoi.Validate.Databases.validate_credentials nvoi.Validate.Databases.validate_database
    validate_database_server nvoi.Validate.Databases.validate_databases
    nvoi.Validate.Databases.validate_saas nvoi.Validate.Databases.validate_self_hosted
    nvoi.Validate.Infra.validate_server nvoi.Validate.Infra.validate_servers
    nvoi.Validate.Infra.validate_storage nvoi.Validate.Infra.validate_volume
    nvoi.Validate.Infra.validate_volumes nvoi.Validate.Routes.validate_domain_entry
    nvoi.Validate.Routes.validate_domains nvoi.Validate.Routes.validate_registries
    nvoi.Validate.Routes.validate_registry nvoi.Validate.Routes.validate_secrets
    nvoi.Validate.Routes.validate_service_domains nvoi.Validate.Text.count_fields
    nvoi.Validate.Text.crons_sharing_server nvoi.Validate.Text.has_named_volume
    nvoi.Validate.Text.host_label_rest nvoi.Validate.Text.host_of_first
    nvoi.Validate.Text.image_registry_host named_volume nvoi.Validate.Text.parse_database_ref
    nvoi.Validate.Text.parse_secret_ref services_sharing_server nvoi.Validate.Text.valid_cron_expr
    nvoi.Validate.Text.valid_host_label nvoi.Validate.Text.valid_host_name
    nvoi.Validate.Text.valid_registry_host nvoi.Validate.Workloads.validate_build_image
    nvoi.Validate.Workloads.validate_cron nvoi.Validate.Workloads.validate_crons
    nvoi.Validate.Workloads.validate_database_ref nvoi.Validate.Workloads.validate_dependency
    nvoi.Validate.Workloads.validate_env_var_name nvoi.Validate.Workloads.validate_mount
    nvoi.Validate.Workloads.validate_mounts nvoi.Validate.Workloads.validate_placement
    nvoi.Validate.Workloads.validate_secret_ref nvoi.Validate.Workloads.validate_service
    nvoi.Validate.Workloads.validate_services nvoi.Validate.Workloads.validate_storage_refs
    validate_volume_server nvoi.Validate.validate_cycles nvoi.Vars.has_var_ref
    nvoi.Vars.is_var_start nvoi.Base.Sort.sort nvoi.Topsort.Build.deps_of nvoi.Base.insert
mounted_accepted = refl

abbrev names : Names
names = record { app = bytes "shop"; env = bytes "prod" }

abbrev live : List Bytes
live = bytes "MODE=live" ∷ []

cache_found : lookup (bytes "cache") mounted_cfg.services ≡ some cache_service
unfolding lookup ◌==◌
cache_found = refl

nightly_found : lookup (bytes "nightly") mounted_cfg.crons ≡ some nightly
unfolding lookup ◌==◌
nightly_found = refl

live_resolved : plain_env sources live ≡ env live
unfolding plain_env nvoi.Secrets.resolve_entry nvoi.Vars.resolve_ref nvoi.Base.cut
    nvoi.Validate.Text.parse_secret_ref
live_resolved = refl

service_set-built_example :
    (o : Workload × Service) × ((service_set_objects names deploy_hash
          (service_request mounted_cfg (bytes "cache") cache_service (bytes "redis") live [])
        ≡ built o)
      × (o.0.kind ≡ (
          if has_named_volume mounted_cfg.volumes cache_service.volumes
          then stateful_set
          else deployment)))
unfolding nvoi.Base.has_prefix
service_set-built_example =
    service_set-built regs mounted_cfg mounted_accepted names deploy_hash sources (bytes "cache")
      cache_service (bytes "redis") live [] cache_found refl live_resolved (refl, (refl, tt))

abbrev cache_objects : Workload × Service
unfolding nvoi.Base.has_prefix
cache_objects =
    (service_set-built regs mounted_cfg mounted_accepted names deploy_hash sources (bytes "cache")
      cache_service (bytes "redis") live [] cache_found refl live_resolved (refl, (refl, tt))).0

service_set-AreAbsolute_example : AreAbsolute cache_service.volumes
unfolding nvoi.Base.has_prefix cache_objects
service_set-AreAbsolute_example =
    service_set-AreAbsolute regs mounted_cfg mounted_accepted names deploy_hash sources
      (bytes "cache") cache_service (bytes "redis") live [] cache_objects cache_found refl
      (service_set-built regs mounted_cfg mounted_accepted names deploy_hash sources (bytes "cache")
        cache_service (bytes "redis") live [] cache_found refl live_resolved (refl, (refl, tt))).1.0

cron_set-built_example :
    (o : CronJob) × ((cron_set_object names deploy_hash
          (cron_request mounted_cfg (bytes "nightly") nightly live [])
        ≡ built o)
      × (o.schedule ≡ nightly.schedule))
unfolding nvoi.Base.has_prefix
cron_set-built_example =
    cron_set-built regs mounted_cfg mounted_accepted names deploy_hash sources (bytes "nightly")
      nightly live [] nightly_found live_resolved (refl, tt)

main_found : lookup (bytes "main") mounted_cfg.databases ≡ some main_database
unfolding lookup ◌==◌
main_found = refl

main_hosted : database_engine_is_self_hosted main_database.engine ≡ true
unfolding ◌==◌
main_hosted = refl

accepted-runs_by_mount_example :
    (contains main_database.server (
        resolve_servers mounted_cfg cache_service.servers cache_service.server
          cache_service.volumes)
      ≡ true)
    ↔ ((cache_service.server ≡ [])
        × (cache_service.servers ≡ [])
        × FirstMountOn mounted_cfg.volumes main_database.server cache_service.volumes)
accepted-runs_by_mount_example =
    accepted-runs_by_mount regs mounted_cfg mounted_accepted (bytes "main") main_database
      (bytes "cache") cache_service main_found main_hosted cache_found
