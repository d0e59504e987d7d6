-- ===== src/Workload/Set.antt =====
-- ServiceSet of pkg/core/service.go and CronSet of pkg/core/cron.go, up to the calls that apply the
-- objects.
use nvoi.Base.{
  Bytes, Dict, Option, none, some, Bool, true, false, List, [], ◌∷◌, if◌then◌else◌, contains,
  insert, is_empty, cut,
}
use nvoi.Naming.{Names, VolumeMount, parse_volume_mount, volume_mount_path, kube_service_secrets}
use nvoi.Workload.Apply.{Request}
use nvoi.Workload.Objects.{
  Built, built, rejected, and_build, image_missing, bad_mount, volume_missing, bad_env_var, EnvVar,
  plain, ServiceSpec, Workload, Service, CronJob, build_service, build_cron_job,
}

-- One mount, behind the paths of the managed volumes and whether there is one.
abbrev pub add_mount :
    Names
    → (known : List Bytes) → (mount : Bytes) → Option VolumeMount
    → Dict Bytes × Bool
    → Built (Dict Bytes × Bool)
add_mount names known mount none acc = rejected (bad_mount mount)
add_mount names known mount (some v) acc =
    if v.named
    then (if contains v.source known
        then built (insert v.source (volume_mount_path names v.source) acc.0, true)
        else rejected (volume_missing v.source))
    else built acc

unfoldable pub managed_volumes :
    Names
    → (known : List Bytes) → (mounts : List Bytes) → Dict Bytes × Bool
    → Built (Dict Bytes × Bool)
unfolding parse_volume_mount contains insert
managed_volumes names known [] acc = built acc
managed_volumes names known (mount ∷ mounts) acc =
    and_build (add_mount names known mount (parse_volume_mount mount) acc)
      (managed_volumes names known mounts)

abbrev pub env_var_of : (entry : Bytes) → Option (Bytes × Bytes) → Built EnvVar
env_var_of entry none = rejected (bad_env_var entry)
env_var_of entry (some r) = built (plain r.0 r.1)

unfoldable pub parse_env_vars : List Bytes → Built (List EnvVar)
unfolding cut
parse_env_vars [] = built []
parse_env_vars (e ∷ es) =
    and_build (env_var_of e (cut b'=' e))
      (λ v. and_build (parse_env_vars es) (λ vs. built (v ∷ vs)))

abbrev pub spec_of : (deploy_hash : Bytes) → Request → List EnvVar → (managed : Bool) → ServiceSpec
spec_of hash req env managed = record {
  name = req.name;
  image = req.image;
  port = req.port;
  command = req.command;
  replicas = req.replicas;
  env = env;
  svc_secrets = req.svc_secrets;
  svc_secret_name = kube_service_secrets req.name;
  volumes = req.volumes;
  health_path = req.health_path;
  servers = req.servers;
  managed = managed;
  pull_secret_name = req.pull_secret;
  deploy_hash = hash;
}

unfoldable pub service_set_objects :
    Names → (deploy_hash : Bytes) → Request → Built (Workload × Service)
unfolding managed_volumes parse_env_vars build_service
service_set_objects names hash req =
    if is_empty req.image
    then rejected image_missing
    else and_build (managed_volumes names req.known_volumes req.volumes ([], false)) (λ acc.
      and_build (parse_env_vars req.env_vars)
        (λ env. build_service (spec_of hash req env acc.1) names acc.0))

unfoldable pub cron_set_object : Names → (deploy_hash : Bytes) → Request → Built CronJob
unfolding managed_volumes parse_env_vars build_cron_job
cron_set_object names hash req =
    and_build (managed_volumes names req.known_volumes req.volumes ([], false)) (λ acc.
      and_build (parse_env_vars req.env_vars)
        (λ env. build_cron_job (spec_of hash req env false) req.schedule names acc.0))
