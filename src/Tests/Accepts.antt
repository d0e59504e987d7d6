-- ===== src/Tests/Accepts.antt =====
-- The sample configuration is accepted, and what follows.
use nvoi.Base.{
  ℕ, Bytes, bytes, Dict, List, [], ◌∷◌, some, none, Option, Bool, true, false, ◌==◌, contains,
  lookup, has_key, HasDistinctKeys, All, ◌≡◌, ◌≢◌, refl,
}
use nvoi.Base.Sort.{count}
use nvoi.Naming.{role_master, role_worker}
use nvoi.Config.{AppConfig, is_positive}
use nvoi.Topsort.{topo_sort_services}
use nvoi.Topsort.Laws.{IsOrdered}
use nvoi.Validate.{validate_config}
use nvoi.Validate.Checks.{pass, fail, many_masters}
use nvoi.Validate.Infra.{count_role}
use nvoi.Validate.Text.{named_volume, services_sharing_server, database_engine_is_self_hosted}
use nvoi.Validate.Databases.{validate_database_server}
use nvoi.Validate.Workloads.{validate_volume_server}
use nvoi.Validate.Accepted.{
  ServiceResolves, accepted-one_master, accepted-ServiceResolves, accepted-order,
}
use nvoi.Validate.Placement.{
  IsDedicated, IsRouted, accepted-IsDedicated, accepted-IsRouted, database_server-pass_iff,
}
use nvoi.Base.{◌↔◌}
use nvoi.Tests.Samples.{regs, cfg, servers, server_of, web_service, data_volume, main_database}

accepted : validate_config regs cfg ≡ pass
unfolding validate_config nvoi.Validate.Infra.validate_identity nvoi.Validate.Infra.validate_name
    nvoi.Naming.Dns.dns1123 nvoi.Validate.Infra.validate_providers
    nvoi.Validate.Infra.validate_secrets_block nvoi.Validate.Infra.validate_build lookup ◌==◌
    nvoi.Validate.Infra.validate_builders count_role nvoi.Validate.Infra.validate_ci
    nvoi.Validate.Infra.validate_tunnel contains nvoi.Validate.Infra.validate_tunnel_firewall
    nvoi.Validate.Infra.validate_tunnel_rule nvoi.Base.cut has_key nvoi.Base.cut_last
    nvoi.Base.has_byte nvoi.Base.split nvoi.Base.trim_left nvoi.Base.trim_space
    nvoi.Config.resolved_servers nvoi.Naming.Dns.env_var_name nvoi.Naming.Dns.match_rest
    nvoi.Naming.Dns.valid_domain nvoi.Topsort.Cycle.find_dependency_cycle
    nvoi.Topsort.Cycle.join_arrow nvoi.Validate.Databases.validate_backup
    nvoi.Validate.Databases.validate_credentials nvoi.Validate.Databases.validate_database
    validate_database_server nvoi.Validate.Databases.validate_databases
    nvoi.Validate.Databases.validate_saas nvoi.Validate.Databases.validate_self_hosted
    nvoi.Validate.Infra.validate_server nvoi.Validate.Infra.validate_servers
    nvoi.Validate.Infra.validate_storage nvoi.Validate.Infra.validate_volume
    nvoi.Validate.Infra.validate_volumes nvoi.Validate.Routes.validate_domain_entry
    nvoi.Validate.Routes.validate_domains nvoi.Validate.Routes.validate_registries
    nvoi.Validate.Routes.validate_registry nvoi.Validate.Routes.validate_secrets
    nvoi.Validate.Routes.validate_service_domains nvoi.Validate.Text.count_fields
    nvoi.Validate.Text.crons_sharing_server nvoi.Validate.Text.has_named_volume
    nvoi.Validate.Text.host_label_rest nvoi.Validate.Text.host_of_first
    nvoi.Validate.Text.image_registry_host named_volume nvoi.Validate.Text.parse_database_ref
    nvoi.Validate.Text.parse_secret_ref services_sharing_server nvoi.Validate.Text.valid_cron_expr
    nvoi.Validate.Text.valid_host_label nvoi.Validate.Text.valid_host_name
    nvoi.Validate.Text.valid_registry_host nvoi.Validate.Workloads.validate_build_image
    nvoi.Validate.Workloads.validate_cron nvoi.Validate.Workloads.validate_crons
    nvoi.Validate.Workloads.validate_database_ref nvoi.Validate.Workloads.validate_dependency
    nvoi.Validate.Workloads.validate_env_var_name nvoi.Validate.Workloads.validate_mount
    nvoi.Validate.Workloads.validate_mounts nvoi.Validate.Workloads.validate_placement
    nvoi.Validate.Workloads.validate_secret_ref nvoi.Validate.Workloads.validate_service
    nvoi.Validate.Workloads.validate_services nvoi.Validate.Workloads.validate_storage_refs
    validate_volume_server nvoi.Validate.validate_cycles nvoi.Vars.has_var_ref
    nvoi.Vars.is_var_start nvoi.Base.Sort.sort nvoi.Topsort.Build.deps_of nvoi.Base.insert
accepted = refl

-- With two masters it is not.
two_masters :
    validate_config regs (record cfg { servers = (bytes "m2", server_of role_master) ∷ servers })
    ≡ fail (bytes "servers") many_masters
unfolding validate_config nvoi.Validate.Infra.validate_identity nvoi.Validate.Infra.validate_name
    nvoi.Naming.Dns.dns1123 nvoi.Validate.Infra.validate_providers
    nvoi.Validate.Infra.validate_secrets_block nvoi.Validate.Infra.validate_build lookup ◌==◌
    nvoi.Validate.Infra.validate_builders count_role nvoi.Validate.Infra.validate_ci
    nvoi.Validate.Infra.validate_tunnel contains nvoi.Validate.Infra.validate_tunnel_firewall
    nvoi.Validate.Infra.validate_tunnel_rule nvoi.Base.cut has_key nvoi.Base.cut_last
    nvoi.Base.has_byte nvoi.Base.split nvoi.Base.trim_left nvoi.Base.trim_space
    nvoi.Config.resolved_servers nvoi.Naming.Dns.env_var_name nvoi.Naming.Dns.match_rest
    nvoi.Naming.Dns.valid_domain nvoi.Topsort.Cycle.find_dependency_cycle
    nvoi.Topsort.Cycle.join_arrow nvoi.Validate.Databases.validate_backup
    nvoi.Validate.Databases.validate_credentials nvoi.Validate.Databases.validate_database
    validate_database_server nvoi.Validate.Databases.validate_databases
    nvoi.Validate.Databases.validate_saas nvoi.Validate.Databases.validate_self_hosted
    nvoi.Validate.Infra.validate_server nvoi.Validate.Infra.validate_servers
    nvoi.Validate.Infra.validate_storage nvoi.Validate.Infra.validate_volume
    nvoi.Validate.Infra.validate_volumes nvoi.Validate.Routes.validate_domain_entry
    nvoi.Validate.Routes.validate_domains nvoi.Validate.Routes.validate_registries
    nvoi.Validate.Routes.validate_registry nvoi.Validate.Routes.validate_secrets
    nvoi.Validate.Routes.validate_service_domains nvoi.Validate.Text.count_fields
    nvoi.Validate.Text.crons_sharing_server nvoi.Validate.Text.has_named_volume
    nvoi.Validate.Text.host_label_rest nvoi.Validate.Text.host_of_first
    nvoi.Validate.Text.image_registry_host named_volume nvoi.Validate.Text.parse_database_ref
    nvoi.Validate.Text.parse_secret_ref services_sharing_server nvoi.Validate.Text.valid_cron_expr
    nvoi.Validate.Text.valid_host_label nvoi.Validate.Text.valid_host_name
    nvoi.Validate.Text.valid_registry_host nvoi.Validate.Workloads.validate_build_image
    nvoi.Validate.Workloads.validate_cron nvoi.Validate.Workloads.validate_crons
    nvoi.Validate.Workloads.validate_database_ref nvoi.Validate.Workloads.validate_dependency
    nvoi.Validate.Workloads.validate_env_var_name nvoi.Validate.Workloads.validate_mount
    nvoi.Validate.Workloads.validate_mounts nvoi.Validate.Workloads.validate_placement
    nvoi.Validate.Workloads.validate_secret_ref nvoi.Validate.Workloads.validate_service
    nvoi.Validate.Workloads.validate_services nvoi.Validate.Workloads.validate_storage_refs
    validate_volume_server nvoi.Validate.validate_cycles nvoi.Vars.has_var_ref
    nvoi.Vars.is_var_start nvoi.Base.Sort.sort nvoi.Topsort.Build.deps_of nvoi.Base.insert
two_masters = refl

distinct : HasDistinctKeys cfg.services
unfolding has_key ◌==◌
distinct = (refl, (refl, tt))

accepted-one_master_example : count_role role_master cfg.servers ≡ 1
accepted-one_master_example = accepted-one_master regs cfg accepted

web_found : lookup (bytes "web") cfg.services ≡ some web_service
unfolding lookup ◌==◌
web_found = refl

accepted-ServiceResolves_example : ServiceResolves cfg (bytes "web") web_service
accepted-ServiceResolves_example =
    accepted-ServiceResolves regs cfg accepted (bytes "web") web_service web_found

data_found : lookup (bytes "data") cfg.volumes ≡ some data_volume
unfolding lookup ◌==◌
data_found = refl

accepted-order_example :
    ((name : Bytes)
      → has_key name cfg.services ≡ true
      → count name (topo_sort_services cfg.services) ≡ 1)
    × IsOrdered cfg.services [] (topo_sort_services cfg.services)
accepted-order_example = accepted-order regs cfg accepted distinct

some_tunnel : cfg.providers.tunnel ≢ []
some_tunnel e = cc

main_found : lookup (bytes "main") cfg.databases ≡ some main_database
unfolding lookup ◌==◌
main_found = refl

main_hosted : database_engine_is_self_hosted main_database.engine ≡ true
unfolding ◌==◌
main_hosted = refl

accepted-IsDedicated_example : IsDedicated cfg main_database.server
accepted-IsDedicated_example =
    accepted-IsDedicated regs cfg accepted (bytes "main") main_database main_found main_hosted

domains_found : lookup (bytes "web") cfg.domains ≡ some (bytes "shop.example.com" ∷ [])
unfolding lookup ◌==◌
domains_found = refl

accepted-IsRouted_example : IsRouted cfg (bytes "web") (bytes "shop.example.com" ∷ [])
accepted-IsRouted_example =
    accepted-IsRouted regs cfg accepted (bytes "web") (bytes "shop.example.com" ∷ []) domains_found

-- The server of the database is the master here, under another name.
database_server-pass_iff_example :
    (validate_database_server
        (record cfg { servers = (bytes "store", server_of role_master) ∷ [] })
        (bytes "main")
        (bytes "store")
      ≡ pass)
    ↔ IsDedicated
        (record cfg { servers = (bytes "store", server_of role_master) ∷ [] })
        (bytes "store")
database_server-pass_iff_example =
    database_server-pass_iff (record cfg { servers = (bytes "store", server_of role_master) ∷ [] })
      (bytes "main") (bytes "store")
