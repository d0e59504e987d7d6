-- ===== src/Validate/Databases.antt =====
-- The checks of ValidateConfig on databases.
use nvoi.Base.{Bytes, Option, none, some}
use nvoi.Base.{if◌then◌else◌, ◌==◌, ◌&&◌, not, is_empty, has_key, contains, is_some, trim_space}
use nvoi.Naming.{role_master}
use nvoi.Config.{
  AppConfig, DatabaseDef, DatabaseCredentialsDef, DatabaseBackupDef, is_positive, is_zero,
}
use nvoi.Vars.{has_var_ref}
use nvoi.Validate.Checks.{Check, pass, fail, ◌>>◌, reject_if, for_each_entry}
use nvoi.Validate.Checks.{engine_required, engine_unsupported, credentials_required, user_required}
use nvoi.Validate.Checks.{password_required, database_required, user_not_ref, password_not_ref}
use nvoi.Validate.Checks.{server_required, server_undefined, server_is_master, size_not_positive}
use nvoi.Validate.Checks.{server_shared_with_services, server_shared_with_crons, schedule_invalid}
use nvoi.Validate.Checks.{
  credentials_not_valid, server_not_valid, size_not_valid, backup_without_storage,
}
use nvoi.Validate.Text.{valid_cron_expr, database_engine_is_self_hosted, database_engine_is_saas}
use nvoi.Validate.Text.{services_sharing_server, crons_sharing_server}
use nvoi.Validate.Infra.{Registries, validate_name}

unfoldable pub validate_credentials : (name : Bytes) → DatabaseDef → DatabaseCredentialsDef → Check
validate_credentials name db c = do
  reject_if (is_empty c.user) name user_required
  reject_if (is_empty c.password) name password_required
  reject_if (is_empty c.database) name database_required
  reject_if (is_empty db.server) name server_required
  reject_if (not (is_positive db.size)) name size_not_positive
  reject_if (not (has_var_ref c.user)) name user_not_ref
  reject_if (not (has_var_ref c.password)) name password_not_ref

-- Where a self-hosted database may run.
unfoldable pub validate_database_server : AppConfig → (name server : Bytes) → Check
validate_database_server cfg name server = do
  reject_if (not (has_key server cfg.servers)) name server_undefined
  reject_if (server == role_master) name server_is_master
  reject_if (not (is_empty (services_sharing_server cfg.services server))) name
      server_shared_with_services
  reject_if (not (is_empty (crons_sharing_server cfg.crons server))) name server_shared_with_crons

unfoldable pub validate_self_hosted : AppConfig → Bytes → DatabaseDef → Check
validate_self_hosted cfg name db = elim db.credentials [
  | none ↦ fail name credentials_required
  | some c ↦ validate_credentials name db c >> validate_database_server cfg name db.server
]

unfoldable pub validate_saas : Bytes → DatabaseDef → Check
validate_saas name db = do
  reject_if (is_some db.credentials) name credentials_not_valid
  reject_if (not (is_empty db.server)) name server_not_valid
  reject_if (not (is_zero db.size)) name size_not_valid

unfoldable pub validate_backup : AppConfig → Bytes → Option DatabaseBackupDef → Check
validate_backup cfg name none = pass
validate_backup cfg name (some b) = do
  reject_if (is_empty cfg.providers.storage) name backup_without_storage
  reject_if (not (is_empty b.schedule) && not (valid_cron_expr b.schedule)) name schedule_invalid

unfoldable pub validate_database : Registries → AppConfig → Bytes → DatabaseDef → Check
validate_database regs cfg name db = do
  validate_name name name
  reject_if (is_empty (trim_space db.engine)) name engine_required
  reject_if (not (contains db.engine regs.database)) name engine_unsupported
  (if database_engine_is_self_hosted db.engine then validate_self_hosted cfg name db else pass)
  (if database_engine_is_saas db.engine then validate_saas name db else pass)
  validate_backup cfg name db.backup

unfoldable pub validate_databases : Registries → AppConfig → Check
validate_databases regs cfg = for_each_entry (validate_database regs cfg) cfg.databases
