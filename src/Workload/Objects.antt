-- ===== src/Workload/Objects.antt =====
-- The objects of pkg/kube/generate.go and pkg/kube/cron.go: BuildService, BuildCronJob and their parts.
use nvoi.Base.{
  Bytes, bytes, Dict, Option, none, some, Bool, true, false, List, [], ◌∷◌, ◌++◌, if◌then◌else◌,
  lookup, is_empty, has_prefix, ltb, ℕ, suc, ◌-◌,
}
use Prim.Native.Nat.{◌%◌}
use nvoi.Naming.{
  Names, VolumeMount, parse_volume_mount, named_volume_host_path, kube_namespace, role_master,
  label_app_managed_by, label_managed_by,
}
use nvoi.Validate.Text.{parse_secret_ref}
use nvoi.Config.{ℤ, pos, negsuc, is_positive}
use nvoi.Kube.Sweep.{Kind, deployment, stateful_set}

pub data Reject : Type 0 where
  image_missing : Reject
  bad_mount relative_mount volume_missing bad_env_var : Bytes → Reject

pub data Built (A : Type 0) : Type 0 where
  built : A → Built A
  rejected : Reject → Built A

abbrev pub and_build : {A B : Type 0} → Built A → (A → Built B) → Built B
and_build (built a) f = f a
and_build (rejected r) f = rejected r

-- Where a variable of a container has its value from.
pub data EnvVar : Type 0 where
  plain : (name value : Bytes) → EnvVar
  from_secret : (name secret_name key : Bytes) → EnvVar

pub data Handler : Type 0 where
  http_get : (path : Bytes) (port : ℤ) → Handler
  tcp_socket : (port : ℤ) → Handler

pub record Probe : Type 0 where
  pub handler : Handler
  pub initial_delay : ℕ
  pub period : ℕ
  pub timeout : ℕ

-- The entry `vol-<index>` of a pod's volumes and the mount of that name.
pub record HostMount : Type 0 where
  pub index : ℕ
  pub path : Bytes
  pub target : Bytes

-- Where the pods may run.
pub data Placement : Type 0 where
  on_server : Bytes → Placement
  spread_over : (servers : List Bytes) (app_name : Bytes) → Placement

pub record PodSpec : Type 0 where
  pub name : Bytes
  pub image : Bytes
  pub env : List EnvVar
  pub args : Option Bytes
  pub port : Option ℤ
  pub readiness : Option Probe
  pub mounts : List HostMount
  pub pull_secrets : List Bytes
  pub placement : Placement
  pub restarts_on_failure : Bool

pub record ServiceSpec : Type 0 where
  pub name : Bytes
  pub image : Bytes
  pub port : ℤ
  pub command : Bytes
  pub replicas : ℤ
  pub env : List EnvVar
  pub svc_secrets : List Bytes
  pub svc_secret_name : Bytes
  pub volumes : List Bytes
  pub health_path : Bytes
  pub servers : List Bytes
  pub managed : Bool
  pub pull_secret_name : Bytes
  pub deploy_hash : Bytes

-- A Deployment, where `surge` is there, or a StatefulSet.
pub record Workload : Type 0 where
  pub kind : Kind
  pub name : Bytes
  pub namespace : Bytes
  pub labels : Dict Bytes
  pub replicas : ℤ
  pub surge : Option (ℕ × ℕ)
  pub pod_labels : Dict Bytes
  pub pod : PodSpec

pub record Service : Type 0 where
  pub name : Bytes
  pub namespace : Bytes
  pub labels : Dict Bytes
  pub selector : Bytes
  pub ports : List ℤ
  pub headless : Bool

pub record CronJob : Type 0 where
  pub name : Bytes
  pub namespace : Bytes
  pub labels : Dict Bytes
  pub schedule : Bytes
  pub pod_labels : Dict Bytes
  pub pod : PodSpec

abbrev label_app_name : Bytes
label_app_name = bytes "app.kubernetes.io/name"

abbrev label_nvoi_service : Bytes
label_nvoi_service = bytes "nvoi/service"

abbrev label_nvoi_deploy_hash : Bytes
label_nvoi_deploy_hash = bytes "nvoi/deploy-hash"

-- The conversion to 32 bits.
abbrev signed : ℕ → ℤ
signed m = if ltb m 2147483648 then pos m else negsuc (4294967295 - m)

abbrev pub int32 : ℤ → ℤ
int32 (pos n) = signed (n % 4294967296)
int32 (negsuc n) = signed (4294967295 - (n % 4294967296))

unfoldable pub apply_node_placement : (name : Bytes) → (servers : List Bytes) → Placement
apply_node_placement name [] = on_server role_master
apply_node_placement name (s ∷ []) = on_server s
apply_node_placement name (s ∷ t ∷ servers) = spread_over (s ∷ t ∷ servers) name

unfoldable pub secret_env : (secret_name : Bytes) → List Bytes → List EnvVar
unfolding parse_secret_ref
secret_env secret_name [] = []
secret_env secret_name (ref ∷ refs) =
    from_secret (parse_secret_ref ref).0 secret_name (parse_secret_ref ref).1
    ∷ secret_env secret_name refs

abbrev pub or_default : Bytes → Option Bytes → Bytes
or_default s none = s
or_default s (some t) = t

-- One round of buildVolumes.
abbrev pub host_mount :
    Names → Dict Bytes → ℕ → (mount : Bytes) → Option VolumeMount → Built HostMount
host_mount names paths i mount none = rejected (bad_mount mount)
host_mount names paths i mount (some v) =
    if v.named
    then built (record {
      index = i;
      path = or_default (named_volume_host_path names v.source) (lookup v.source paths);
      target = v.target;
    })
    else if has_prefix (bytes ".") v.source
    then rejected (relative_mount mount)
    else built (record { index = i; path = v.source; target = v.target })

unfoldable pub build_volumes_from :
    Names → (managed_vol_paths : Dict Bytes) → ℕ → (mounts : List Bytes) → Built (List HostMount)
unfolding parse_volume_mount lookup has_prefix
build_volumes_from names paths i [] = built []
build_volumes_from names paths i (mount ∷ mounts) =
    and_build (host_mount names paths i mount (parse_volume_mount mount))
      (λ m. and_build (build_volumes_from names paths (suc i) mounts) (λ ms. built (m ∷ ms)))

abbrev pub build_volumes :
    Names → (managed_vol_paths : Dict Bytes) → (mounts : List Bytes) → Built (List HostMount)
build_volumes names paths mounts = build_volumes_from names paths 0 mounts

abbrev pub pod_labels_of : (name : Bytes) → Dict Bytes
pod_labels_of name =
    (label_app_name, name)
    ∷ (label_app_managed_by, label_managed_by)
    ∷ (label_nvoi_service, name)
    ∷ []

abbrev pub workload_labels_of : (name deploy_hash : Bytes) → Dict Bytes
workload_labels_of name hash =
    if is_empty hash
    then pod_labels_of name
    else pod_labels_of name ++ ((label_nvoi_deploy_hash, hash) ∷ [])

abbrev unless_empty : Bytes → Option Bytes
unless_empty [] = none
unless_empty (c ∷ s) = some (c ∷ s)

abbrev list_unless_empty : Bytes → List Bytes
list_unless_empty [] = []
list_unless_empty (c ∷ s) = (c ∷ s) ∷ []

abbrev pub probe_of : (health_path : Bytes) → (port : ℤ) → Probe
probe_of health_path port =
    if is_empty health_path
    then record { handler = tcp_socket (int32 port); initial_delay = 5; period = 5; timeout = 3 }
    else record {
      handler = http_get health_path (int32 port);
      initial_delay = 10;
      period = 5;
      timeout = 3;
    }

unfoldable pub pod_of : ServiceSpec → List HostMount → PodSpec
unfolding secret_env apply_node_placement
pod_of spec mounts = record {
  name = spec.name;
  image = spec.image;
  env = spec.env ++ secret_env spec.svc_secret_name spec.svc_secrets;
  args = unless_empty spec.command;
  port = if is_positive spec.port then some (int32 spec.port) else none;
  readiness = if is_positive spec.port then some (probe_of spec.health_path spec.port) else none;
  mounts = mounts;
  pull_secrets = list_unless_empty spec.pull_secret_name;
  placement = apply_node_placement spec.name spec.servers;
  restarts_on_failure = false;
}

abbrev at_least_one : ℤ → ℤ
at_least_one n = if is_positive n then n else pos 1

unfoldable pub workload_of : Names → ServiceSpec → List HostMount → Workload
unfolding kube_namespace pod_of
workload_of names spec mounts = record {
  kind = if spec.managed then stateful_set else deployment;
  name = spec.name;
  namespace = kube_namespace names;
  labels = workload_labels_of spec.name spec.deploy_hash;
  replicas = if spec.managed then pos 1 else at_least_one (int32 spec.replicas);
  surge = if spec.managed then none else some (0, 1);
  pod_labels = pod_labels_of spec.name;
  pod = pod_of spec mounts;
}

unfoldable pub service_of : Names → ServiceSpec → Service
unfolding kube_namespace
service_of names spec = record {
  name = spec.name;
  namespace = kube_namespace names;
  labels = workload_labels_of spec.name spec.deploy_hash;
  selector = spec.name;
  ports = if is_positive spec.port then int32 spec.port ∷ [] else [];
  headless = if is_positive spec.port then false else true;
}

unfoldable pub build_service :
    ServiceSpec → Names → (managed_vol_paths : Dict Bytes) → Built (Workload × Service)
unfolding build_volumes_from workload_of service_of
build_service spec names paths =
    and_build (build_volumes names paths spec.volumes)
      (λ mounts. built (workload_of names spec mounts, service_of names spec))

unfoldable pub build_cron_job :
    ServiceSpec → (schedule : Bytes) → Names → (managed_vol_paths : Dict Bytes) → Built CronJob
unfolding build_volumes_from kube_namespace pod_of
build_cron_job spec schedule names paths =
    and_build (build_volumes names paths spec.volumes) (λ mounts. built (record {
      name = spec.name;
      namespace = kube_namespace names;
      labels = workload_labels_of spec.name spec.deploy_hash;
      schedule = schedule;
      pod_labels = pod_labels_of spec.name;
      pod = record (pod_of spec mounts) {
        port = none;
        readiness = none;
        restarts_on_failure = true;
      };
    }))
