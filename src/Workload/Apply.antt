-- ===== src/Workload/Apply.antt =====
-- Services of internal/reconcile/services.go and Crons of internal/reconcile/crons.go, over a
-- cluster that is a parameter; and knownVolumes of internal/reconcile/helpers.go.
use nvoi.Base.{
  Bytes, bytes, Dict, Option, none, some, Bool, true, false, List, [], ◌∷◌, ◌++◌, if◌then◌else◌,
  lookup, keys, has_key, is_empty, not, ◌&&◌,
}
use nvoi.Base.Sort.{sort}
use nvoi.Naming.{kube_service_secrets}
use nvoi.Config.{ℤ, pos, is_zero, AppConfig, ServiceDef, CronDef}
use nvoi.Servers.{resolve_servers}
use nvoi.Vars.{Resolved, ok, err, RefError}
use nvoi.Secrets.{resolve_entry}
use nvoi.Topsort.{topo_sort_services}
use nvoi.Image.{ImageResult, resolved, resolve_image}
use nvoi.Kube.Sweep.{
  Kind, deployment, stateful_set, service, secret, cron_job, Reply, Api, sweep_owned,
}
use nvoi.Kube.Secrets.{Secret, Read, SecretApi, Outcome, done}
use nvoi.Plan.Storage.{pull_secret_name}
use nvoi.Plan.Services.{owner_services, owner_crons}
use nvoi.Workload.Credentials.{Collected, collected, unresolved, workload_credentials}
use nvoi.Workload.Upsert.{upsert_service_secrets}

-- What a workload is set to.
pub record Request : Type 0 where
  pub name : Bytes
  pub image : Bytes
  pub port : ℤ
  pub command : Bytes
  pub replicas : ℤ
  pub schedule : Bytes
  pub env_vars : List Bytes
  pub svc_secrets : List Bytes
  pub volumes : List Bytes
  pub health_path : Bytes
  pub servers : List Bytes
  pub pull_secret : Bytes
  pub known_volumes : List Bytes

-- The API server, and the operations of pkg/core that set a workload and wait for its rollout.
pub record Cluster : Type 1 where
  pub State : Type 0
  pub get : State → Bytes → Read
  pub create : State → Bytes → Secret → Bool × State
  pub update : State → Bytes → Secret → Bool × State
  pub list : State → Kind → Bytes → Option (List Bytes)
  pub delete : State → Kind → Bytes → Reply × State
  pub service_set : Request → State → Bool × State
  pub wait_rollout : (name : Bytes) → Kind → (has_health_check : Bool) → State → Bool × State
  pub cron_set : Request → State → Bool × State

pub data Failure : Type 0 where
  env_unresolved secrets_unresolved : (workload : Bytes) → RefError → Failure
  secret_failed : (workload : Bytes) → Outcome → Failure
  image_failed : (workload : Bytes) → ImageResult → Failure
  set_failed rollout_failed : (workload : Bytes) → Failure

pub data Step : Type 0 where
  set : Request → Step
  waited : (name : Bytes) → Step

pub data Verdict : Type 0 where
  finished : Verdict
  failed : Failure → Verdict

-- The entries `KEY=VALUE`, or the first error.
pub data Env : Type 0 where
  env : List Bytes → Env
  bad_env : RefError → Env

abbrev pub with_env : Bytes → Env → Env
with_env e (env es) = env (e ∷ es)
with_env e (bad_env x) = bad_env x

abbrev pub on_env : Bytes × Resolved → Env → Env
on_env (key, ok value) rest = with_env (key ++ (bytes "=" ++ value)) rest
on_env (key, err x) rest = bad_env x

unfoldable pub plain_env : (sources : Dict Bytes) → List Bytes → Env
unfolding resolve_entry
plain_env sources [] = env []
plain_env sources (entry ∷ entries) =
    on_env (resolve_entry sources entry) (plain_env sources entries)

unfoldable pub known_volumes : AppConfig → List Bytes
known_volumes cfg = keys cfg.volumes

abbrev pub pull_secret : AppConfig → Bytes
pull_secret cfg = if is_empty cfg.registry then [] else pull_secret_name

-- A service with a domain runs twice, if nothing else is configured.
abbrev pub service_replicas : AppConfig → (name : Bytes) → ServiceDef → ℤ
service_replicas cfg name svc =
    if has_key name cfg.domains && is_zero svc.replicas then pos 2 else svc.replicas

abbrev pub service_request :
    AppConfig → (name : Bytes) → ServiceDef → (image : Bytes) (env_vars refs : List Bytes) → Request
service_request cfg name svc image env_vars refs = record {
  name = name;
  image = image;
  port = svc.port;
  command = svc.command;
  replicas = service_replicas cfg name svc;
  schedule = [];
  env_vars = env_vars;
  svc_secrets = refs;
  volumes = svc.volumes;
  health_path = svc.health;
  servers = resolve_servers cfg svc.servers svc.server svc.volumes;
  pull_secret = pull_secret cfg;
  known_volumes = known_volumes cfg;
}

abbrev pub cron_request :
    AppConfig → (name : Bytes) → CronDef → (env_vars refs : List Bytes) → Request
cron_request cfg name cron env_vars refs = record {
  name = name;
  image = cron.image;
  port = pos 0;
  command = cron.command;
  replicas = pos 0;
  schedule = cron.schedule;
  env_vars = env_vars;
  svc_secrets = refs;
  volumes = cron.volumes;
  health_path = [];
  servers = resolve_servers cfg cron.servers cron.server cron.volumes;
  pull_secret = pull_secret cfg;
  known_volumes = known_volumes cfg;
}

-- What a map gives for a missing key.
abbrev pub or_zero_service : Option ServiceDef → ServiceDef
or_zero_service (some svc) = svc
or_zero_service none = record {
  image = [];
  port = pos 0;
  replicas = pos 0;
  command = [];
  health = [];
  server = [];
  servers = [];
  env = [];
  secrets = [];
  storage = [];
  databases = [];
  volumes = [];
  depends_on = [];
  build = none;
}

abbrev pub or_zero_cron : Option CronDef → CronDef
or_zero_cron (some cron) = cron
or_zero_cron none = record {
  image = [];
  schedule = [];
  command = [];
  server = [];
  servers = [];
  env = [];
  secrets = [];
  storage = [];
  volumes = [];
}

abbrev pub workload_kind : (volumes : List Bytes) → Kind
workload_kind [] = deployment
workload_kind (v ∷ volumes) = stateful_set

module _ (cluster : Cluster) where
  abbrev pub secret_api : SecretApi
  secret_api = record {
    State = cluster.State;
    get = cluster.get;
    create = cluster.create;
    update = cluster.update;
    delete = λ s n. cluster.delete s secret n;
  }

  abbrev pub sweep_api : Api
  sweep_api = record { State = cluster.State; list = cluster.list; delete = cluster.delete }

  -- How a part ends, the cluster behind it, and its steps.
  abbrev pub Applied : Type 0
  Applied = Verdict × (cluster.State × List Step)

  abbrev pub continue : Applied → (cluster.State → Applied) → Applied
  continue (finished, (s, steps)) f = ((f s).0, ((f s).1.0, steps ++ (f s).1.1))
  continue (failed x, (s, steps)) f = (failed x, (s, steps))

  -- An operation that succeeds or ends the run.
  abbrev pub attempt : Step → Failure → Bool × cluster.State → Applied
  attempt step x (true, s) = (finished, (s, step ∷ []))
  attempt step x (false, s) = (failed x, (s, []))

  abbrev pub stop : Failure → cluster.State → Applied
  stop x s = (failed x, (s, []))

  abbrev pub set_service : Request → ServiceDef → cluster.State → Applied
  set_service req svc s =
      continue (attempt (set req) (set_failed req.name) (cluster.service_set req s)) (λ t.
        attempt (waited req.name) (rollout_failed req.name)
          (cluster.wait_rollout req.name (workload_kind svc.volumes) (not (is_empty svc.health)) t))

  module _ (cfg : AppConfig) (sources : Dict Bytes) (hash : Bytes) where
    abbrev pub on_image :
        (name : Bytes)
        → ServiceDef
        → (env_vars refs : List Bytes) → ImageResult
        → cluster.State
        → Applied
    on_image name svc env_vars refs (resolved image) s =
        set_service (service_request cfg name svc image env_vars refs) svc s
    on_image name svc env_vars refs r s = stop (image_failed name r) s

    -- Behind the secret of a workload.
    abbrev pub on_secret :
        (name : Bytes) → Outcome × cluster.State → (cluster.State → Applied) → Applied
    on_secret name (done, s) f = f s
    on_secret name (outcome, s) f = stop (secret_failed name outcome) s

    abbrev pub on_credentials :
        (name : Bytes)
        → Collected
        → cluster.State
        → (List Bytes → cluster.State → Applied)
        → Applied
    on_credentials name (unresolved x) s f = stop (secrets_unresolved name x) s
    on_credentials name (collected c) s f =
        on_secret name (upsert_service_secrets secret_api s name c.kvs) (f c.refs)

    abbrev pub on_plain_env :
        (name : Bytes) → Env → cluster.State → (List Bytes → Applied) → Applied
    on_plain_env name (bad_env x) s f = stop (env_unresolved name x) s
    on_plain_env name (env es) s f = f es

    -- One round of the loop of Services.
    unfoldable pub apply_service : (name : Bytes) → ServiceDef → cluster.State → Applied
    unfolding plain_env workload_credentials resolve_image upsert_service_secrets
    apply_service name svc s = on_plain_env name (plain_env sources svc.env) s (λ env_vars.
        on_credentials name (workload_credentials sources svc.secrets svc.storage svc.databases) s
          (λ refs. on_image name svc env_vars refs (resolve_image cfg name hash)))

    unfoldable pub apply_services : (names : List Bytes) → cluster.State → Applied
    unfolding lookup
    apply_services [] s = (finished, (s, []))
    apply_services (name ∷ names) s =
        continue (apply_service name (or_zero_service (lookup name cfg.services)) s)
          (apply_services names)

    -- A sweep that fails is a warning.
    unfoldable pub sweep_all :
        (owner : Bytes) → List (Kind × List Bytes) → cluster.State → cluster.State
    unfolding sweep_owned
    sweep_all owner [] s = s
    sweep_all owner ((kind, desired) ∷ sweeps) s =
        sweep_all owner sweeps (sweep_owned sweep_api s owner kind desired).1

    abbrev pub secret_of_each : List Bytes → List Bytes
    secret_of_each [] = []
    secret_of_each (n ∷ names) = kube_service_secrets n ∷ secret_of_each names

    abbrev pub service_sweeps : (names : List Bytes) → List (Kind × List Bytes)
    service_sweeps names =
        (deployment, names)
        ∷ (stateful_set, names)
        ∷ (service, names)
        ∷ (secret, secret_of_each names)
        ∷ []

    unfoldable pub apply_all_services : cluster.State → Applied
    unfolding topo_sort_services
    apply_all_services s = continue (apply_services (topo_sort_services cfg.services) s) (λ t. (
      finished,
      (sweep_all owner_services (service_sweeps (topo_sort_services cfg.services)) t, []),
    ))

    unfoldable pub apply_cron : (name : Bytes) → CronDef → cluster.State → Applied
    unfolding plain_env workload_credentials upsert_service_secrets
    apply_cron name cron s = on_plain_env name (plain_env sources cron.env) s (λ env_vars.
        on_credentials name (workload_credentials sources cron.secrets cron.storage []) s (λ refs t.
          attempt (set (cron_request cfg name cron env_vars refs)) (set_failed name)
            (cluster.cron_set (cron_request cfg name cron env_vars refs) t)))

    unfoldable pub apply_crons : (names : List Bytes) → cluster.State → Applied
    unfolding lookup
    apply_crons [] s = (finished, (s, []))
    apply_crons (name ∷ names) s =
        continue (apply_cron name (or_zero_cron (lookup name cfg.crons)) s) (apply_crons names)

    unfoldable pub apply_all_crons : cluster.State → Applied
    unfolding sort
    apply_all_crons s = continue (apply_crons (sort (keys cfg.crons)) s) (λ t. (
      finished,
      (
        sweep_all owner_crons
            ((cron_job, sort (keys cfg.crons))
              ∷ (secret, secret_of_each (sort (keys cfg.crons)))
              ∷ [])
            t,
        [],
      ),
    ))
