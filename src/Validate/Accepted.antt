-- ===== src/Validate/Accepted.antt =====
-- What an accepted configuration satisfies.
use nvoi.Base.{Bytes, some, true, List, [], ◌∷◌}
use nvoi.Base.{◌≡◌, ◌≢◌, arith, if◌then◌else◌, ==_iff, not, is_empty, has_key, lookup, All}
use nvoi.Base.{HasDistinctKeys}
use nvoi.Base.Sort.{count}
use nvoi.Naming.{role_master}
use nvoi.Config.{AppConfig, ServiceDef, CronDef, VolumeDef, resolved_servers, is_positive}
use nvoi.Topsort.{topo_sort_services}
use nvoi.Topsort.Cycle.{find_dependency_cycle}
use nvoi.Topsort.Cycle.Walks.{topo_sort-of_no_cycle}
use nvoi.Topsort.Laws.{IsOrdered, topo_sort-IsOrdered}
use nvoi.Validate.{validate_cycles, validate_config}
use nvoi.Validate.Checks.{pass, for_each, for_each_entry, for_each-pass, >>-pass}
use nvoi.Validate.Checks.{for_each_entry-pass, lookup-All}
use nvoi.Validate.Infra.{
  Registries, validate_identity, validate_providers, validate_servers, validate_volumes,
}
use nvoi.Validate.Infra.{
  validate_storage, validate_server, count_role, validate_volume, validate_name,
}
use nvoi.Validate.Infra.{validate_secrets_block, validate_build, validate_ci, validate_tunnel}
use nvoi.Validate.Databases.{validate_databases}
use nvoi.Validate.Workloads.{
  validate_dependency, validate_placement, validate_storage_refs, validate_build_image,
}
use nvoi.Validate.Workloads.{
  validate_database_ref, validate_mount, validate_mounts, validate_secret_ref,
}
use nvoi.Validate.Checks.{not_rejected, for_each-reject, server_undefined, storage_undefined}
use nvoi.Config.{build_context, is_negative}
use nvoi.Base.{◌&&◌}
use nvoi.Validate.Workloads.{validate_services, validate_service, validate_cron, validate_crons}
use nvoi.Validate.Routes.{validate_domains, validate_secrets, validate_registries}

pub record Sections (regs : Registries) (cfg : AppConfig) : Type 0 where
  pub identity : validate_identity cfg ≡ pass
  pub providers : validate_providers regs cfg ≡ pass
  pub servers : validate_servers cfg ≡ pass
  pub volumes : validate_volumes cfg ≡ pass
  pub storage : validate_storage cfg ≡ pass
  pub databases : validate_databases regs cfg ≡ pass
  pub services : validate_services cfg ≡ pass
  pub cycles : validate_cycles cfg ≡ pass
  pub crons : validate_crons cfg ≡ pass
  pub domains : validate_domains cfg ≡ pass
  pub secrets : validate_secrets cfg ≡ pass
  pub registries : validate_registries cfg ≡ pass

pub validate_config-Sections :
    (regs : Registries) (cfg : AppConfig) → validate_config regs cfg ≡ pass → Sections regs cfg
unfolding validate_config
validate_config-Sections regs cfg h =
    let (identity, h1) = >>-pass (validate_identity cfg) _ h in
    let (providers, h2) = >>-pass (validate_providers regs cfg) _ h1 in
    let (servers, h3) = >>-pass (validate_servers cfg) _ h2 in
    let (volumes, h4) = >>-pass (validate_volumes cfg) _ h3 in
    let (storage, h5) = >>-pass (validate_storage cfg) _ h4 in
    let (databases, h6) = >>-pass (validate_databases regs cfg) _ h5 in
    let (services, h7) = >>-pass (validate_services cfg) _ h6 in
    let (cycles, h8) = >>-pass (validate_cycles cfg) _ h7 in
    let (crons, h9) = >>-pass (validate_crons cfg) _ h8 in
    let (domains, h10) = >>-pass (validate_domains cfg) _ h9 in
    let (secrets, registries) = >>-pass (validate_secrets cfg) _ h10 in
    record {
      identity = identity;
      providers = providers;
      servers = servers;
      volumes = volumes;
      storage = storage;
      databases = databases;
      services = services;
      cycles = cycles;
      crons = crons;
      domains = domains;
      secrets = secrets;
      registries = registries;
    }

abbrev pub Depends : AppConfig → (name dep : Bytes) → Type 0
Depends cfg name dep = (dep ≢ name) × (has_key dep cfg.services ≡ true)

dependencies-pass :
    (cfg : AppConfig) (name : Bytes) (deps : List Bytes)
    → for_each (validate_dependency cfg name) deps ≡ pass
    → All (Depends cfg name) deps
unfolding validate_dependency
dependencies-pass cfg name [] h = tt
dependencies-pass cfg name (d ∷ deps) h =
    let (here, later) = >>-pass (validate_dependency cfg name d) _ h in
    ((λ e. ground (arith, ==_iff d name), ground arith), dependencies-pass cfg name deps later)

placement-pass :
    (cfg : AppConfig) (name server : Bytes) (servers : List Bytes)
    → validate_placement cfg name server servers ≡ pass
    → All (λ s. has_key s cfg.servers ≡ true) (resolved_servers servers server)
unfolding validate_placement
placement-pass cfg name server servers h =
    let (_, later) = not_rejected (not (is_empty server) && not (is_empty servers)) _ _ _ h in
    for_each-reject (λ s. has_key s cfg.servers) name server_undefined _ later

-- What holds of each service.
pub record ServiceResolves (cfg : AppConfig) (name : Bytes) (svc : ServiceDef) : Type 0 where
  pub servers : All (λ s. has_key s cfg.servers ≡ true) (resolved_servers svc.servers svc.server)
  pub storage : All (λ ref. has_key ref cfg.storage ≡ true) svc.storage
  pub depends_on : All (Depends cfg name) svc.depends_on

service-pass :
    (cfg : AppConfig) (name : Bytes) (svc : ServiceDef)
    → validate_service cfg name svc ≡ pass
    → ServiceResolves cfg name svc
unfolding validate_service validate_storage_refs
service-pass cfg name svc h =
    let (_, h1) = >>-pass (validate_name name name) _ h in
    let (_, h2) = not_rejected (is_empty svc.image) _ _ _ h1 in
    let (_, h3) =
      >>-pass
        (if is_empty (build_context svc.build)
          then pass
          else validate_build_image cfg name svc.image)
        _ h2 in
    let (placed, h4) = >>-pass (validate_placement cfg name svc.server svc.servers) _ h3 in
    let (_, h5) = not_rejected (is_negative svc.replicas) _ _ _ h4 in
    let (stored, h6) = >>-pass (validate_storage_refs cfg name svc.storage) _ h5 in
    let (_, h7) = >>-pass (for_each (validate_database_ref cfg name) svc.databases) _ h6 in
    let (_, h8) = >>-pass (validate_mounts cfg name svc.server svc.servers svc.volumes) _ h7 in
    let (_, depends) = >>-pass (for_each (validate_secret_ref name) svc.secrets) _ h8 in
    record {
      servers = placement-pass cfg name svc.server svc.servers placed;
      storage = for_each-reject (λ ref. has_key ref cfg.storage) name storage_undefined _ stored;
      depends_on = dependencies-pass cfg name svc.depends_on depends;
    }

service-mounts :
    (cfg : AppConfig) (name : Bytes) (svc : ServiceDef)
    → validate_service cfg name svc ≡ pass
    → All (λ m. validate_mount cfg name m ≡ pass) svc.volumes
unfolding validate_service validate_mounts
service-mounts cfg name svc h =
    let (_, h1) = >>-pass (validate_name name name) _ h in
    let (_, h2) = not_rejected (is_empty svc.image) _ _ _ h1 in
    let (_, h3) =
      >>-pass
        (if is_empty (build_context svc.build)
          then pass
          else validate_build_image cfg name svc.image)
        _ h2 in
    let (_, h4) = >>-pass (validate_placement cfg name svc.server svc.servers) _ h3 in
    let (_, h5) = not_rejected (is_negative svc.replicas) _ _ _ h4 in
    let (_, h6) = >>-pass (validate_storage_refs cfg name svc.storage) _ h5 in
    let (_, h7) = >>-pass (for_each (validate_database_ref cfg name) svc.databases) _ h6 in
    let (mounted, _) = >>-pass (validate_mounts cfg name svc.server svc.servers svc.volumes) _ h7 in
    let (read, _) = >>-pass (for_each (validate_mount cfg name) svc.volumes) _ mounted in
    for_each-pass (validate_mount cfg name) svc.volumes read

cron-mounts :
    (cfg : AppConfig) (name : Bytes) (cron : CronDef)
    → validate_cron cfg name cron ≡ pass
    → All (λ m. validate_mount cfg name m ≡ pass) cron.volumes
unfolding validate_cron validate_mounts
cron-mounts cfg name cron h =
    let (_, h1) = >>-pass (validate_name name name) _ h in
    let (_, h2) = not_rejected (is_empty cron.image) _ _ _ h1 in
    let (_, h3) = not_rejected (is_empty cron.schedule) _ _ _ h2 in
    let (_, h4) = >>-pass (validate_placement cfg name cron.server cron.servers) _ h3 in
    let (_, h5) = >>-pass (validate_storage_refs cfg name cron.storage) _ h4 in
    let (mounted, _) =
      >>-pass (validate_mounts cfg name cron.server cron.servers cron.volumes) _ h5 in
    let (read, _) = >>-pass (for_each (validate_mount cfg name) cron.volumes) _ mounted in
    for_each-pass (validate_mount cfg name) cron.volumes read

module _ (regs : Registries) (cfg : AppConfig) (ok : validate_config regs cfg ≡ pass) where
  sections : Sections regs cfg
  sections = validate_config-Sections regs cfg ok

  -- An accepted configuration has exactly one master.
  pub accepted-one_master : count_role role_master cfg.servers ≡ 1
  unfolding validate_servers
  accepted-one_master =
      let (_, h1) = not_rejected (is_empty cfg.servers) _ _ _ sections.servers in
      let (_, h2) =
        >>-pass (for_each_entry (validate_server cfg.providers.infra) cfg.servers) _ h1 in
      ground arith

  -- In an accepted configuration every service runs on defined servers, uses defined storage, and
  -- depends on defined services other than itself.
  pub accepted-ServiceResolves :
      (name : Bytes) (svc : ServiceDef)
      → lookup name cfg.services ≡ some svc
      → ServiceResolves cfg name svc
  unfolding validate_services
  accepted-ServiceResolves name svc found = service-pass cfg name svc (
      lookup-All (λ n s. validate_service cfg n s ≡ pass) name svc cfg.services
        (for_each_entry-pass (validate_service cfg) cfg.services sections.services) found)

  pub accepted-service_mounts :
      (name : Bytes) (svc : ServiceDef)
      → lookup name cfg.services ≡ some svc
      → All (λ m. validate_mount cfg name m ≡ pass) svc.volumes
  unfolding validate_services
  accepted-service_mounts name svc found = service-mounts cfg name svc (
      lookup-All (λ n s. validate_service cfg n s ≡ pass) name svc cfg.services
        (for_each_entry-pass (validate_service cfg) cfg.services sections.services) found)

  pub accepted-cron_mounts :
      (name : Bytes) (cron : CronDef)
      → lookup name cfg.crons ≡ some cron
      → All (λ m. validate_mount cfg name m ≡ pass) cron.volumes
  unfolding validate_crons
  accepted-cron_mounts name cron found = cron-mounts cfg name cron (
      lookup-All (λ n c. validate_cron cfg n c ≡ pass) name cron cfg.crons
        (for_each_entry-pass (validate_cron cfg) cfg.crons sections.crons) found)

  -- In an accepted configuration every volume has a positive size and stands on a defined server.
  accepted-volume :
      (name : Bytes) (vol : VolumeDef)
      → lookup name cfg.volumes ≡ some vol
      → (is_positive vol.size ≡ true) × (has_key vol.server cfg.servers ≡ true)
  unfolding validate_volumes validate_volume
  accepted-volume name vol found =
      let h =
        lookup-All (λ n v. validate_volume cfg n v ≡ pass) name vol cfg.volumes
          (for_each_entry-pass (validate_volume cfg) cfg.volumes sections.volumes) found in
      let (_, h1) = >>-pass (validate_name name name) _ h in (ground arith, ground arith)

  no_cycle : find_dependency_cycle cfg.services ≡ []
  unfolding validate_cycles
  no_cycle = ground (arith, sections.cycles)

  -- In an accepted configuration, whose map of services has distinct keys, the order in which the
  -- services are applied has every service exactly once, behind all services that it depends on.
  pub accepted-order :
      HasDistinctKeys cfg.services
      → ((name : Bytes)
          → has_key name cfg.services ≡ true
          → count name (topo_sort_services cfg.services) ≡ 1)
        × IsOrdered cfg.services [] (topo_sort_services cfg.services)
  accepted-order distinct = (
    topo_sort-of_no_cycle cfg.services distinct no_cycle,
    topo_sort-IsOrdered cfg.services distinct,
  )

  -- In an accepted configuration with a tunnel there are a DNS provider and a domain.
  accepted-tunnel : cfg.providers.tunnel ≢ [] → (cfg.providers.dns ≢ []) × (cfg.domains ≢ [])
  unfolding validate_providers validate_tunnel
  accepted-tunnel some_tunnel =
      let (_, h1) = not_rejected (is_empty cfg.providers.infra) _ _ _ sections.providers in
      let (_, h2) = >>-pass (validate_secrets_block cfg.providers.secrets) _ h1 in
      let (_, h3) = >>-pass (validate_build regs cfg) _ h2 in
      let (_, h4) = >>-pass (validate_ci regs cfg) _ h3 in
      let (tunnel, _) = >>-pass (validate_tunnel cfg) _ h4 in (λ e. ground arith, λ e. ground arith)
