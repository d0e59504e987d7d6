-- ===== src/Validate/Routes.antt =====
-- The checks of ValidateConfig on domains, secrets and registries.
use nvoi.Base.{Bytes, none, some, List}
use nvoi.Base.{not, is_empty, lookup, trim_space}
use nvoi.Config.{AppConfig, ServiceDef, RegistryDef, is_zero, is_one}
use nvoi.Naming.Dns.{valid_domain}
use nvoi.Validate.Checks.{Check, fail, ◌>>◌, reject_if, for_each, for_each_entry}
use nvoi.Validate.Checks.{invalid_domain, service_undefined, no_port, no_domain, single_replica}
use nvoi.Validate.Checks.{empty_host, invalid_host, username_required, password_required}
use nvoi.Validate.Text.{valid_registry_host}
use nvoi.Validate.Workloads.{validate_env_var_name}

unfoldable pub validate_service_domains : (name : Bytes) → ServiceDef → List Bytes → Check
validate_service_domains name svc domains = do
  reject_if (is_zero svc.port) name no_port
  reject_if (is_empty domains) name no_domain
  for_each (λ d. reject_if (not (valid_domain d)) name invalid_domain) domains
  reject_if (is_one svc.replicas) name single_replica

unfoldable pub validate_domain_entry : AppConfig → Bytes → List Bytes → Check
validate_domain_entry cfg name domains = elim (lookup name cfg.services) [
  | none ↦ fail name service_undefined
  | some svc ↦ validate_service_domains name svc domains
]

unfoldable pub validate_domains : AppConfig → Check
validate_domains cfg = for_each_entry (validate_domain_entry cfg) cfg.domains

unfoldable pub validate_secrets : AppConfig → Check
validate_secrets cfg = for_each (λ name. validate_env_var_name name name) cfg.secrets

unfoldable pub validate_registry : Bytes → RegistryDef → Check
validate_registry host def = do
  reject_if (is_empty host) host empty_host
  reject_if (not (valid_registry_host host)) host invalid_host
  reject_if (is_empty (trim_space def.username)) host username_required
  reject_if (is_empty (trim_space def.password)) host password_required

unfoldable pub validate_registries : AppConfig → Check
validate_registries cfg = for_each_entry validate_registry cfg.registry
