-- ===== src/Validate/Workloads.antt =====
-- The checks of ValidateConfig on services and crons.
use nvoi.Base.{Bytes, Option, none, some, List, length}
use nvoi.Base.{if◌then◌else◌, ◌==◌, ltb, ◌&&◌, not, is_empty, has_key, has_byte, cut}
use nvoi.Config.{
  AppConfig, ServiceDef, CronDef, VolumeDef, is_negative, resolved_servers, build_context,
}
use nvoi.Vars.{has_var_ref}
use nvoi.Naming.Dns.{env_var_name}
use nvoi.Validate.Checks.{Check, pass, fail, ◌>>◌, reject_if, for_each, for_each_entry}
use nvoi.Validate.Checks.{invalid_env_var, image_required, registry_missing, registry_undefined}
use nvoi.Validate.Checks.{image_no_namespace, image_ambiguous, server_and_servers, server_undefined}
use nvoi.Validate.Checks.{replicas_negative, storage_undefined, database_undefined, mount_malformed}
use nvoi.Validate.Checks.{
  volume_undefined, many_servers_with_volume, volume_elsewhere, secret_not_ref,
}
use nvoi.Validate.Checks.{depends_on_self, dependency_undefined, schedule_required}
use nvoi.Validate.Text.{image_registry_host, parse_secret_ref, parse_database_ref, is_volume_name}
use nvoi.Validate.Text.{named_volume, has_named_volume}
use nvoi.Validate.Infra.{validate_name}

-- utils.ValidateEnvVarName
unfoldable pub validate_env_var_name : (field value : Bytes) → Check
validate_env_var_name field value = reject_if (not (env_var_name value)) field invalid_env_var

-- The image of a service that is built. The case of an empty image is handled before.
unfoldable pub validate_build_image : AppConfig → (name image : Bytes) → Check
validate_build_image cfg name image = do
  reject_if (is_empty cfg.registry) name registry_missing
  (if is_empty (image_registry_host image)
      then (do
        reject_if (is_empty image) name image_required
        reject_if (not (has_byte b'/' image)) name image_no_namespace
        reject_if (ltb 1 (length cfg.registry)) name image_ambiguous)
      else reject_if (not (has_key (image_registry_host image) cfg.registry)) name
          registry_undefined)

unfoldable pub validate_placement : AppConfig → (name server : Bytes) → List Bytes → Check
validate_placement cfg name server servers = do
  reject_if (not (is_empty server) && not (is_empty servers)) name server_and_servers
  for_each (λ s. reject_if (not (has_key s cfg.servers)) name server_undefined)
      (resolved_servers servers server)

unfoldable pub validate_storage_refs : AppConfig → Bytes → List Bytes → Check
validate_storage_refs cfg name refs =
    for_each (λ ref. reject_if (not (has_key ref cfg.storage)) name storage_undefined) refs

unfoldable pub validate_database_ref : AppConfig → (name ref : Bytes) → Check
validate_database_ref cfg name ref = do
  (if is_empty (parse_database_ref ref).0
      then pass
      else validate_env_var_name name (parse_database_ref ref).0)
  reject_if (not (has_key (parse_database_ref ref).1 cfg.databases)) name database_undefined

unfoldable pub validate_mount : AppConfig → (name mount : Bytes) → Check
validate_mount cfg name mount = elim (cut b':' mount) [
  | none ↦ fail name mount_malformed
  | some r ↦ reject_if (is_volume_name r.0 && not (has_key r.0 cfg.volumes)) name volume_undefined
]

abbrev pub volume_at : (name server : Bytes) → Option VolumeDef → Check
volume_at name server none = pass
volume_at name server (some vol) =
    reject_if (not (is_empty server) && not (server == vol.server)) name volume_elsewhere

unfoldable pub validate_volume_server : AppConfig → (name server : Bytes) → List Bytes → Check
validate_volume_server cfg name server mounts =
    for_each (λ mount. volume_at name server (named_volume cfg.volumes mount)) mounts

unfoldable pub validate_mounts :
    AppConfig → (name server : Bytes) → (servers mounts : List Bytes) → Check
validate_mounts cfg name server servers mounts = do
  for_each (validate_mount cfg name) mounts
  reject_if (ltb 1 (length servers) && has_named_volume cfg.volumes mounts) name
      many_servers_with_volume
  validate_volume_server cfg name server mounts

-- A reference with `=` must have a `$` reference on its right side.
unfoldable pub validate_secret_ref : (name ref : Bytes) → Check
validate_secret_ref name ref = do
  validate_env_var_name name (parse_secret_ref ref).0
  reject_if (has_byte b'=' ref && not (has_var_ref (parse_secret_ref ref).1)) name secret_not_ref

unfoldable pub validate_dependency : AppConfig → (name dep : Bytes) → Check
validate_dependency cfg name dep = do
  reject_if (dep == name) name depends_on_self
  reject_if (not (has_key dep cfg.services)) name dependency_undefined

unfoldable pub validate_service : AppConfig → Bytes → ServiceDef → Check
validate_service cfg name svc = do
  validate_name name name
  reject_if (is_empty svc.image) name image_required
  (if is_empty (build_context svc.build) then pass else validate_build_image cfg name svc.image)
  validate_placement cfg name svc.server svc.servers
  reject_if (is_negative svc.replicas) name replicas_negative
  validate_storage_refs cfg name svc.storage
  for_each (validate_database_ref cfg name) svc.databases
  validate_mounts cfg name svc.server svc.servers svc.volumes
  for_each (validate_secret_ref name) svc.secrets
  for_each (validate_dependency cfg name) svc.depends_on

unfoldable pub validate_services : AppConfig → Check
validate_services cfg = for_each_entry (validate_service cfg) cfg.services

unfoldable pub validate_cron : AppConfig → Bytes → CronDef → Check
validate_cron cfg name cron = do
  validate_name name name
  reject_if (is_empty cron.image) name image_required
  reject_if (is_empty cron.schedule) name schedule_required
  validate_placement cfg name cron.server cron.servers
  validate_storage_refs cfg name cron.storage
  validate_mounts cfg name cron.server cron.servers cron.volumes
  for_each (validate_secret_ref name) cron.secrets

unfoldable pub validate_crons : AppConfig → Check
validate_crons cfg = for_each_entry (validate_cron cfg) cfg.crons
