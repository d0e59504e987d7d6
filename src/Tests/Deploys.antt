-- ===== src/Tests/Deploys.antt =====
-- Deployments of the sample configuration.
use nvoi.Base.{bytes, some, true, false, List, [], ◌∷◌, any, ◌≡◌, refl, arith, ltb}
use nvoi.Plan.Entry
use nvoi.Plan.Entry.{PlanEntry, entry, has_infra_changes}
use nvoi.Deploy.Action.{ok, error, message, is_error}
use nvoi.Deploy.Engine.{Engine}
use nvoi.Deploy.Steps.{Machine, deploy}
use nvoi.Deploy.Phases
use nvoi.Deploy.Phases.{Trace}
use nvoi.Deploy.Follows.{is_failed}
use nvoi.Deploy.Order.{preceded, of_call, changes_provider, plans_infra}
use nvoi.Deploy.Turns.{applies_plan, is_agreement, place, did_place}
use nvoi.Deploy.Laws.{
  events, all_closed, stops_at_failure, deploy-Trace, deploy-quiet, deploy-asks, deploy-in_order,
  deploy-stops, deploy-closes,
}
use nvoi.Tests.Samples.{regs, cfg}

abbrev new_server : List PlanEntry
new_server = entry Entry.add Entry.server (bytes "main") Entry.no_detail ∷ []

-- Every step succeeds but the crons; the plan has a new server, and the operator agrees.
abbrev engine : Engine
engine = record {
  World = Unit;
  Infra = Unit;
  Builders = Unit;
  validators = regs;
  now = λ w. bytes "20260101-120000";
  arch_for_type = λ infra type. bytes "amd64";
  has_public_ingress = λ infra. true;
  build_capability = λ name. ok true;
  on_plan = some (λ entries w. (ok true, w));
  resolve_infra = λ s w. (ok tt, w);
  provision_builders = λ infra c s w. (ok tt, w);
  builder_targets = λ infra c s w. (ok tt, w);
  no_builders = tt;
  build_images = λ c platform builders s w. (ok tt, w);
  compute_plan = λ c s w. (ok new_server, w);
  bootstrap = λ infra c s w. (ok tt, w);
  connect = λ infra c s w. (ok tt, w);
  node_shell = λ infra c s w. (ok true, w);
  ensure_namespace = λ namespace w. (ok tt, w);
  registries = λ c s w. (ok tt, w);
  secrets = λ c s w. (ok [], w);
  storage = λ c s w. (ok [], w);
  databases = λ c secrets s w. (ok ([], []), w);
  read_storage_creds = λ c s w. (ok [], w);
  read_database_urls = λ c s w. (ok [], w);
  services = λ c sources s w. (ok tt, w);
  crons = λ c sources s w. (error (message (bytes "no such image")), w);
  teardown_orphans = λ infra c s w. (ok tt, w);
  tunnel_ingress = λ c s w. (ok tt, w);
  route_domains = λ infra c s w. (ok tt, w);
  verify_dns = λ c s w. w;
  ingress = λ c s w. (ok tt, w);
}

abbrev start : Machine engine
start = (
  record {
    app = bytes "shop";
    env = bytes "prod";
    provider = [];
    deploy_hash = [];
    master_kube = false;
    node_shell = false;
  },
  tt,
)

deploy-Trace_example : Trace true Phases.start (events engine cfg start) Phases.closed
deploy-Trace_example = deploy-Trace engine cfg start

deploy-quiet_example :
    preceded plans_infra (of_call changes_provider) false (events engine cfg start) ≡ true
deploy-quiet_example = deploy-quiet engine cfg start

deploy-asks_example :
    preceded is_agreement (of_call applies_plan) false (events engine cfg start) ≡ true
deploy-asks_example = deploy-asks engine cfg start refl

deploy-in_order_example :
    preceded (did_place 3) (of_call (λ c. ltb 3 (place c))) false (events engine cfg start) ≡ true
deploy-in_order_example = deploy-in_order engine cfg start 3 (omega arith) (omega arith)

deploy-stops_example :
    (is_error (deploy engine cfg start).0 ≡ any is_failed (events engine cfg start))
    × (stops_at_failure (events engine cfg start) ≡ true)
deploy-stops_example = deploy-stops engine cfg start

deploy-closes_example : all_closed false false (events engine cfg start) ≡ true
deploy-closes_example = deploy-closes engine cfg start
