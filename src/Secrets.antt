-- ===== src/Secrets.antt =====
-- internal/reconcile/secrets.go: collectSecretKeys; and resolveEntry of
-- internal/reconcile/envvars.go, which reads what was collected.
pub mod Collected
use nvoi.Base.{
  ℕ, Bytes, Dict, Option, none, some, Bool, true, false, List, [], ◌∷◌, ◌++◌, if◌then◌else◌,
  has_byte,
}
use nvoi.Base.Sort.{sorted_keys}
use nvoi.Config.{AppConfig, ServiceDef, CronDef, DatabaseDef, DatabaseCredentialsDef}
use nvoi.Vars.{extract_var_refs, Resolved, resolve_ref}
use nvoi.Validate.Text.{parse_secret_ref}

-- collectRefs: a bare name is a key itself.
unfoldable pub collect_refs : List Bytes → List Bytes
unfolding extract_var_refs has_byte
collect_refs [] = []
collect_refs (ref ∷ refs) =
    (if has_byte b'=' ref then extract_var_refs ref else ref ∷ []) ++ collect_refs refs

-- collectVars of each entry.
unfoldable pub collect_vars : List Bytes → List Bytes
collect_vars [] = []
collect_vars (raw ∷ raws) = extract_var_refs raw ++ collect_vars raws

unfoldable pub service_keys : Dict ServiceDef → List Bytes
service_keys [] = []
service_keys ((name, svc) ∷ rest) =
    (collect_refs svc.secrets ++ collect_vars svc.env) ++ service_keys rest

unfoldable pub cron_keys : Dict CronDef → List Bytes
cron_keys [] = []
cron_keys ((name, cron) ∷ rest) =
    (collect_refs cron.secrets ++ collect_vars cron.env) ++ cron_keys rest

-- The fields of a credentials block that are collected, and later resolved.
abbrev pub credential_fields : Option DatabaseCredentialsDef → List Bytes
credential_fields none = []
credential_fields (some c) = c.user ∷ c.password ∷ c.database ∷ []

unfoldable pub database_keys : Dict DatabaseDef → List Bytes
database_keys [] = []
database_keys ((name, db) ∷ rest) =
    collect_vars (credential_fields db.credentials) ++ database_keys rest

unfoldable pub collect_secret_keys : AppConfig → List Bytes
collect_secret_keys cfg = sorted_keys (
    cfg.secrets
    ++ (service_keys cfg.services ++ (cron_keys cfg.crons ++ database_keys cfg.databases)))

unfoldable pub resolve_entry : (sources : Dict Bytes) (entry : Bytes) → Bytes × Resolved
resolve_entry sources entry =
    ((parse_secret_ref entry).0, resolve_ref sources (parse_secret_ref entry).1)
