-- ===== src/Tests/Redeploys.antt =====
-- Plans of the sample services when they are live.
use nvoi.Base.{
  Bytes, bytes, Option, none, some, Bool, true, false, List, [], ◌∷◌, ◌==◌, ◌≡◌, refl, any, keys,
  if◌then◌else◌, lookup, contains, arith, ◌||◌,
}
use nvoi.Base.Sort.{sort, sorted_keys}
use nvoi.Naming.{Names}
use nvoi.Config.{AppConfig}
use nvoi.Image.{resolve_image, fits}
use nvoi.Plan.Entry
use nvoi.Plan.Entry.{PlanEntry, entry, has_infra_changes}
use nvoi.Plan.Live.{Live, entries}
use nvoi.Plan.Services.{service_workloads}
use nvoi.Plan.Redeploy.{prompts_nothing, changes_nothing, redeploy-prompts, replan-changes}
use nvoi.Plan.Compute.{compute_plan, storage_part, databases_part, dns_part, ingress_part}
use nvoi.Plan.Scope.{any_entry}
use nvoi.Plan.Whole.{infra_part, is_loud_entry, compute_plan-loud}
use nvoi.Plan.Gates.{is_route, compute_plan-forgets_routes}
use nvoi.Tests.Samples.{cfg}

abbrev new_server : List PlanEntry
new_server = entry Entry.add Entry.server (bytes "main") Entry.no_detail ∷ []

abbrev live : Live
live = record {
  kube = true;
  infra = some new_server;
  has_public_ingress = true;
  storage_name = [];
  buckets = none;
  dns_name = bytes "cloudflare";
  bindings = some (bytes "shop.example.com" ∷ []);
  owned = λ owner kind. some [];
  caddy_deployments = some (bytes "caddy" ∷ []);
  caddy_routes = some ((bytes "shop.example.com" ∷ []) ∷ []);
  deployment_images = λ name.
      if name == bytes "web"
      then some (bytes "nginx" ∷ [])
      else some (bytes "ghcr.io/org/api:v2-20260101-120000" ∷ []);
  stateful_set_images = λ name. none;
  cron_jobs = λ name. none;
  secret_keys = λ name. none;
}

abbrev existing : List Bytes
existing = bytes "api" ∷ bytes "web" ∷ []

redeploy-prompts_example :
    prompts_nothing (service_workloads live cfg (bytes "20260102-080000") existing) ≡ true
unfolding fits sort resolve_image nvoi.Plan.Live.live_image contains ◌==◌
    nvoi.Image.resolve_service_image nvoi.Base.has_byte sorted_keys
redeploy-prompts_example =
    redeploy-prompts live cfg (bytes "20260101-120000") existing refl (bytes "20260102-080000") refl
      ((refl, refl), ((refl, refl), tt)) (refl, (refl, tt))

replan-changes_example : changes_nothing (service_workloads live cfg [] existing) ≡ true
unfolding fits sort resolve_image nvoi.Plan.Live.live_image contains ◌==◌
    nvoi.Image.resolve_service_image nvoi.Base.has_byte sorted_keys
replan-changes_example =
    replan-changes live cfg (bytes "20260101-120000") existing refl
      ((refl, refl), ((refl, refl), tt)) (refl, (refl, tt))

abbrev names : Names
names = record { app = bytes "shop"; env = bytes "prod" }

-- The sample without its tunnel and its domain.
abbrev closed_cfg : AppConfig
closed_cfg = record cfg {
  providers = record cfg.providers { tunnel = [] };
  domains = [];
  services = [];
  databases = [];
  registry = [];
}

closed_plan : compute_plan names live closed_cfg [] ≡ entries new_server
unfolding compute_plan nvoi.Plan.Compute.run_planners storage_part databases_part
    nvoi.Plan.Databases.live_databases nvoi.Plan.Compute.registries_part
    nvoi.Plan.Services.plan_services nvoi.Plan.Live.combined_workload_names
    nvoi.Plan.Services.service_entries sort nvoi.Plan.Services.plan_crons dns_part ingress_part
    nvoi.Plan.Databases.database_entries nvoi.Plan.Databases.database_adds sorted_keys
    nvoi.Plan.Infra.plan_deletes nvoi.Plan.Storage.plan_registries nvoi.Plan.Services.cron_deletes
    nvoi.Plan.Services.cron_entries nvoi.Plan.Services.cron_key_entries
    nvoi.Plan.Services.workload_deletes nvoi.Plan.Services.service_key_entries nvoi.Base.Sort.dedup
    contains
closed_plan = refl

compute_plan-loud_example : has_infra_changes new_server ≡ (
    any_entry is_loud_entry (infra_part live)
    || (any_entry is_loud_entry (storage_part names live closed_cfg)
        || (any_entry is_loud_entry (databases_part live closed_cfg)
            || (any_entry is_loud_entry (dns_part live closed_cfg)
                || any_entry is_loud_entry (ingress_part live closed_cfg)))))
compute_plan-loud_example = compute_plan-loud names live closed_cfg [] new_server closed_plan

compute_plan-forgets_routes_example : any is_route new_server ≡ any_entry is_route (infra_part live)
compute_plan-forgets_routes_example =
    compute_plan-forgets_routes names live closed_cfg [] new_server closed_plan refl refl
