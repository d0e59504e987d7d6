-- ===== src/Validate.antt =====
-- ValidateConfig of internal/reconcile/validate.go: the first error found, in the source's order.
-- A map is visited in the order of its list, so the theorems hold for every iteration order.
pub mod Checks
pub mod Text
pub mod Infra
pub mod Databases
pub mod Workloads
pub mod Routes
pub mod Accepted
pub mod Placement
pub mod Mounted
use nvoi.Base.{Bytes, bytes, not, is_empty}
use nvoi.Config.{AppConfig}
use nvoi.Topsort.Cycle.{find_dependency_cycle}
use Checks.{Check, ◌>>◌, reject_if, dependency_cycle}
use Infra.{Registries, validate_identity, validate_providers, validate_servers, validate_volumes}
use Infra.{validate_storage}
use Databases.{validate_databases}
use Workloads.{validate_services, validate_crons}
use Routes.{validate_domains, validate_secrets, validate_registries}

unfoldable pub validate_cycles : AppConfig → Check
validate_cycles cfg =
    reject_if (not (is_empty (find_dependency_cycle cfg.services))) (bytes "services")
      dependency_cycle

unfoldable pub validate_config : Registries → AppConfig → Check
validate_config regs cfg = do
  validate_identity cfg
  validate_providers regs cfg
  validate_servers cfg
  validate_volumes cfg
  validate_storage cfg
  validate_databases regs cfg
  validate_services cfg
  validate_cycles cfg
  validate_crons cfg
  validate_domains cfg
  validate_secrets cfg
  validate_registries cfg
