-- ===== src/Deploy/Engine.antt =====
-- What Deploy of internal/reconcile/reconcile.go calls: the providers, the cluster and the steps
-- of the other files, which it composes whatever they do.
use nvoi.Base.{Bytes, Option, Bool, List, Dict}
use nvoi.Config.{AppConfig}
use nvoi.Validate.Infra.{Registries}
use nvoi.Plan.Entry.{PlanEntry}
use nvoi.Deploy.Action.{Result}

pub record PendingMigration : Type 0 where
  pub database : Bytes
  pub from : Bytes
  pub to : Bytes

-- The fields of the deploy context that a deployment reads or sets. `master_kube` and
-- `node_shell` say whether there is such a client.
pub record Session : Type 0 where
  pub app : Bytes
  pub env : Bytes
  pub provider : Bytes
  pub deploy_hash : Bytes
  pub master_kube : Bool
  pub node_shell : Bool

-- A step takes the configuration and the context. The infra provider's take the context as it was
-- when the provider was resolved (BootstrapContext).
pub record Engine : Type 1 where
  pub World : Type 0
  pub Infra : Type 0
  pub Builders : Type 0
  pub validators : Registries
  pub now : World → Bytes
  pub arch_for_type : Infra → Bytes → Bytes
  pub has_public_ingress : Infra → Bool
  pub build_capability : Bytes → Result Bool
  pub on_plan : Option (List PlanEntry → World → Result Bool × World)
  pub resolve_infra : Session → World → Result Infra × World
  pub provision_builders : Infra → AppConfig → Session → World → Result Unit × World
  pub builder_targets : Infra → AppConfig → Session → World → Result Builders × World
  pub no_builders : Builders
  pub build_images : AppConfig → Bytes → Builders → Session → World → Result Unit × World
  pub compute_plan : AppConfig → Session → World → Result (List PlanEntry) × World
  pub bootstrap : Infra → AppConfig → Session → World → Result Unit × World
  pub connect : Infra → AppConfig → Session → World → Result Unit × World
  pub node_shell : Infra → AppConfig → Session → World → Result Bool × World
  pub ensure_namespace : Bytes → World → Result Unit × World
  pub registries : AppConfig → Session → World → Result Unit × World
  pub secrets : AppConfig → Session → World → Result (Dict Bytes) × World
  pub storage : AppConfig → Session → World → Result (Dict Bytes) × World
  pub databases :
      AppConfig → Dict Bytes → Session → World → Result (Dict Bytes × List PendingMigration) × World
  pub read_storage_creds : AppConfig → Session → World → Result (Dict Bytes) × World
  pub read_database_urls : AppConfig → Session → World → Result (Dict Bytes) × World
  pub services : AppConfig → Dict Bytes → Session → World → Result Unit × World
  pub crons : AppConfig → Dict Bytes → Session → World → Result Unit × World
  pub teardown_orphans : Infra → AppConfig → Session → World → Result Unit × World
  pub tunnel_ingress : AppConfig → Session → World → Result Unit × World
  pub route_domains : Infra → AppConfig → Session → World → Result Unit × World
  pub verify_dns : AppConfig → Session → World → World
  pub ingress : AppConfig → Session → World → Result Unit × World
