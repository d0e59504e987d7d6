-- ===== src/Validate/Infra.antt =====
-- The checks of ValidateConfig on identity, providers, firewall rules, servers, volumes and
-- storage.
use nvoi.Base.{ℕ, ◌+◌, Bytes, bytes, Dict, Option, none, some, Bool, List, [], ◌∷◌}
use nvoi.Base.{
  if◌then◌else◌, ◌==◌, nat_eq, ltb, ◌&&◌, ◌||◌, not, cut, is_empty, has_key, contains, lookup,
}
use nvoi.Naming.{role_master, role_worker, role_builder}
use nvoi.Naming.Dns.{dns1123}
use nvoi.Config.{AppConfig, ProvidersDef, ServerDef, VolumeDef, is_negative, is_positive}
use nvoi.Validate.Checks.{Check, pass, fail, ◌>>◌, reject_if, for_each, for_each_entry}
use nvoi.Validate.Checks.{required, invalid_name, kind_required, kind_unsupported}
use nvoi.Validate.Checks.{build_unsupported, builder_missing, builder_idle, ci_unsupported}
use nvoi.Validate.Checks.{tunnel_unsupported, tunnel_needs_dns, tunnel_needs_domain, tunnel_port}
use nvoi.Validate.Checks.{
  no_server, type_required, region_required, role_required, role_unsupported,
}
use nvoi.Validate.Checks.{disk_negative, disk_fixed, no_master, many_masters, size_not_positive}
use nvoi.Validate.Checks.{server_required, server_undefined}

-- What the provider packages have registered: for each build provider whether it requires
-- builders, and the names of the CI and database providers.
pub record Registries : Type 0 where
  pub build_caps : Dict Bool
  pub ci : List Bytes
  pub database : List Bytes

-- utils.ValidateName
unfoldable pub validate_name : (field value : Bytes) → Check
validate_name field value = reject_if (not (dns1123 value)) field invalid_name

unfoldable pub validate_identity : AppConfig → Check
validate_identity cfg = do
  reject_if (is_empty cfg.app) (bytes "app") required
  validate_name (bytes "app") cfg.app
  reject_if (is_empty cfg.env) (bytes "env") required
  validate_name (bytes "env") cfg.env

unfoldable pub validate_secrets_block : Option Bytes → Check
validate_secrets_block none = pass
validate_secrets_block (some kind) = do
  reject_if (is_empty kind) (bytes "providers.secrets") kind_required
  reject_if (not (contains kind (bytes "doppler" ∷ bytes "awssm" ∷ bytes "infisical" ∷ []))) kind
      kind_unsupported

-- How many servers have a role.
unfoldable pub count_role : Bytes → Dict ServerDef → ℕ
count_role role [] = 0
count_role role ((name, srv) ∷ rest) = (if srv.role == role then 1 else 0) + count_role role rest

-- The rule R1: builders are declared exactly if the build provider requires them.
unfoldable pub validate_builders :
    (name : Bytes) (requires_builders : Bool) (builder_count : ℕ) → Check
validate_builders name requires_builders builder_count = do
  reject_if (requires_builders && nat_eq builder_count 0) name builder_missing
  reject_if (not requires_builders && ltb 0 builder_count) name builder_idle

-- An unset build provider is `local`.
abbrev pub build_name : ProvidersDef → Bytes
build_name p = if is_empty p.build then bytes "local" else p.build

unfoldable pub validate_build : Registries → AppConfig → Check
validate_build regs cfg = elim (lookup (build_name cfg.providers) regs.build_caps) [
  | none ↦ fail (build_name cfg.providers) build_unsupported
  | some requires ↦
      validate_builders (build_name cfg.providers) requires (count_role role_builder cfg.servers)
]

unfoldable pub validate_ci : Registries → AppConfig → Check
validate_ci regs cfg =
    if is_empty cfg.providers.ci
    then pass
    else reject_if (not (contains cfg.providers.ci regs.ci)) cfg.providers.ci ci_unsupported

unfoldable pub validate_tunnel : AppConfig → Check
validate_tunnel cfg = if is_empty cfg.providers.tunnel then pass else do
  reject_if (not (contains cfg.providers.tunnel (bytes "cloudflare" ∷ bytes "ngrok" ∷ [])))
      cfg.providers.tunnel tunnel_unsupported
  reject_if (is_empty cfg.providers.dns) cfg.providers.tunnel tunnel_needs_dns
  reject_if (is_empty cfg.domains) cfg.providers.tunnel tunnel_needs_domain

-- One firewall rule in tunnel mode: its text before the first colon must not be 80 or 443.
unfoldable pub validate_tunnel_rule : Bytes → Check
validate_tunnel_rule rule = elim (cut b':' rule) [
  | none ↦ pass
  | some r ↦ reject_if (r.0 == bytes "80" || r.0 == bytes "443") r.0 tunnel_port
]

unfoldable pub validate_tunnel_firewall : AppConfig → Check
validate_tunnel_firewall cfg =
    if is_empty cfg.providers.tunnel then pass else for_each validate_tunnel_rule cfg.firewall

unfoldable pub validate_providers : Registries → AppConfig → Check
validate_providers regs cfg = do
  reject_if (is_empty cfg.providers.infra) (bytes "providers.infra") required
  validate_secrets_block cfg.providers.secrets
  validate_build regs cfg
  validate_ci regs cfg
  validate_tunnel cfg
  validate_tunnel_firewall cfg

unfoldable pub validate_server : (infra name : Bytes) → ServerDef → Check
validate_server infra name srv = do
  validate_name name name
  reject_if (is_empty srv.type) name type_required
  reject_if (is_empty srv.region) name region_required
  reject_if (is_empty srv.role) name role_required
  reject_if (not (contains srv.role (role_master ∷ role_worker ∷ role_builder ∷ []))) name
      role_unsupported
  reject_if (is_negative srv.disk) name disk_negative
  reject_if (is_positive srv.disk && infra == bytes "hetzner") name disk_fixed

unfoldable pub validate_servers : AppConfig → Check
validate_servers cfg = do
  reject_if (is_empty cfg.servers) (bytes "servers") no_server
  for_each_entry (validate_server cfg.providers.infra) cfg.servers
  reject_if (nat_eq (count_role role_master cfg.servers) 0) (bytes "servers") no_master
  reject_if (ltb 1 (count_role role_master cfg.servers)) (bytes "servers") many_masters

unfoldable pub validate_volume : AppConfig → Bytes → VolumeDef → Check
validate_volume cfg name vol = do
  validate_name name name
  reject_if (not (is_positive vol.size)) name size_not_positive
  reject_if (is_empty vol.server) name server_required
  reject_if (not (has_key vol.server cfg.servers)) name server_undefined

unfoldable pub validate_volumes : AppConfig → Check
validate_volumes cfg = for_each_entry (validate_volume cfg) cfg.volumes

unfoldable pub validate_storage : AppConfig → Check
validate_storage cfg = for_each_entry (λ name def. validate_name name name) cfg.storage
