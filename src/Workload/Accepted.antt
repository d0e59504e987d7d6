-- ===== src/Workload/Accepted.antt =====
-- ServiceSet and CronSet on what Services and Crons of an accepted configuration ask of them.
use nvoi.Base.{
  Bytes, Dict, some, Bool, Bool-cases, false, List, [], ◌∷◌, if◌then◌else◌, has_key, has_key-lookup,
  lookup, is_empty, ◌≡◌, ◌≢◌, refl, inl, inr, All,
}
use nvoi.Config.{AppConfig, ServiceDef, CronDef, VolumeDef}
use nvoi.Naming.{Names}
use nvoi.Naming.Dns.{dns1123}
use nvoi.Validate.{validate_config}
use nvoi.Validate.Accepted.{validate_config-Sections, accepted-service_mounts, accepted-cron_mounts}
use nvoi.Validate.Checks.{pass, for_each_entry-pass, lookup-All}
use nvoi.Validate.Infra.{Registries, validate_volumes, validate_volume, validate_name}
use nvoi.Validate.Text.{has_named_volume}
use nvoi.Validate.Workloads.{validate_mount}
use nvoi.Workload.Objects.{
  built, and_build, workload_of, service_of, build_service, build_cron_job, build_volumes_from,
  EnvVar, Workload, Service,
}
use nvoi.Workload.Set.{
  managed_volumes, parse_env_vars, service_set_objects, cron_set_object, spec_of,
}
use nvoi.Workload.Apply.{env, plain_env, known_volumes, service_request, cron_request}
use nvoi.Kube.Sweep.{deployment, stateful_set}
use nvoi.Workload.Mounts.{Reads, validate_mount-Reads}
use nvoi.Workload.Builds.{
  Gives, AreAbsolute, and_build-Gives, and_build-built, managed_volumes-Gives,
  build_volumes_from-Gives, build_volumes_from-AreAbsolute, plain_env-Gives,
}

empty_name : (cfg : AppConfig) (v : VolumeDef) → validate_volume cfg [] v ≢ pass
unfolding validate_volume validate_name dns1123
empty_name cfg v h = cc

no_empty_name : (cfg : AppConfig) → validate_volumes cfg ≡ pass → has_key [] cfg.volumes ≡ false
unfolding validate_volumes
no_empty_name cfg h = elim (Bool-cases (has_key [] cfg.volumes)) [
  | inl there ↦
      let (v, found) = has_key-lookup [] cfg.volumes there in
      absurd (
        empty_name cfg v (
          lookup-All (λ n w. validate_volume cfg n w ≡ pass) [] v cfg.volumes
            (for_each_entry-pass (validate_volume cfg) cfg.volumes h) found))
  | inr missing ↦ missing
]

mounts-Reads :
    (cfg : AppConfig) (name : Bytes) (mounts : List Bytes)
    → has_key [] cfg.volumes ≡ false
    → All (λ m. validate_mount cfg name m ≡ pass) mounts
    → All (Reads cfg.volumes) mounts
mounts-Reads cfg name [] no_empty h = tt
mounts-Reads cfg name (m ∷ mounts) no_empty (here, later) =
    (validate_mount-Reads cfg no_empty name m here, mounts-Reads cfg name mounts no_empty later)

module _ (regs : Registries) (cfg : AppConfig) (accepted : validate_config regs cfg ≡ pass)
    (names : Names) (hash : Bytes) (sources : Dict Bytes) where
  no_empty : has_key [] cfg.volumes ≡ false
  no_empty = no_empty_name cfg (validate_config-Sections regs cfg accepted).volumes

  -- In an accepted configuration, ServiceSet builds both objects from what Services asks of it for a
  -- service, where the image is not empty, each env entry resolved, and no mount is a relative bind
  -- mount. The workload is a StatefulSet exactly if a mount names a volume that is defined.
  pub service_set-built :
      (name : Bytes) (svc : ServiceDef) (image : Bytes) (env_vars refs : List Bytes)
      → lookup name cfg.services ≡ some svc
      → is_empty image ≡ false
      → plain_env sources svc.env ≡ env env_vars
      → AreAbsolute svc.volumes
      → Gives
          (service_set_objects names hash (service_request cfg name svc image env_vars refs))
          (λ o.
            o.0.kind
            ≡ (if has_named_volume cfg.volumes svc.volumes then stateful_set else deployment))
  unfolding service_set_objects known_volumes build_service workload_of
  service_set-built name svc image env_vars refs found some_image resolved absolute =
      let reads =
        mounts-Reads cfg name svc.volumes no_empty
          (accepted-service_mounts regs cfg accepted name svc found) in
      rw some_image (
        and_build-Gives _ _ (λ b. b.1 ≡ has_named_volume cfg.volumes svc.volumes) _
          (managed_volumes-Gives cfg.volumes names svc.volumes ([], false) reads)
          (λ acc managed.
            and_build-Gives _ _ (λ vs. Unit) _ (plain_env-Gives sources svc.env env_vars resolved)
              (λ vs u.
                and_build-Gives _ _ (λ ms. Unit) _
                  (build_volumes_from-Gives cfg.volumes names acc.0 0 svc.volumes reads absolute)
                  (λ ms w. (_, (refl, rw managed refl))))))

  -- In an accepted configuration, where ServiceSet builds the objects from what Services asks of it
  -- for a service, with an image that is not empty, no mount of the service is a relative bind mount.
  pub service_set-AreAbsolute :
      (name : Bytes) (svc : ServiceDef) (image : Bytes) (env_vars refs : List Bytes)
      (o : Workload × Service)
      → lookup name cfg.services ≡ some svc
      → is_empty image ≡ false
      → service_set_objects names hash (service_request cfg name svc image env_vars refs) ≡ built o
      → AreAbsolute svc.volumes
  unfolding service_set_objects known_volumes build_service
  service_set-AreAbsolute name svc image env_vars refs o found some_image e =
      let reads =
        mounts-Reads cfg name svc.volumes no_empty
          (accepted-service_mounts regs cfg accepted name svc found) in
      let req = service_request cfg name svc image env_vars refs in
      let objects = λ (acc : Dict Bytes × Bool) (vs : List EnvVar).
        build_service (spec_of hash req vs acc.1) names acc.0 in
      let (acc, e1, _) =
        and_build-built (managed_volumes names req.known_volumes req.volumes ([], false))
          (λ b. and_build (parse_env_vars req.env_vars) (objects b)) o (rw some_image at e) in
      let (vs, e2, _) = and_build-built (parse_env_vars req.env_vars) (objects acc) o e1 in
      let (ms, _, volumes) =
        and_build-built (build_volumes_from names acc.0 0 svc.volumes)
          (λ xs. built (
            workload_of names (spec_of hash req vs acc.1) xs,
            service_of names (spec_of hash req vs acc.1),
          ))
          o e2 in
      build_volumes_from-AreAbsolute cfg.volumes names acc.0 0 svc.volumes ms reads volumes

  -- In an accepted configuration, CronSet builds its object from what Crons asks of it for a cron,
  -- where each env entry resolved and no mount is a relative bind mount.
  pub cron_set-built :
      (name : Bytes) (cron : CronDef) (env_vars refs : List Bytes)
      → lookup name cfg.crons ≡ some cron
      → plain_env sources cron.env ≡ env env_vars
      → AreAbsolute cron.volumes
      → Gives
          (cron_set_object names hash (cron_request cfg name cron env_vars refs))
          (λ o. o.schedule ≡ cron.schedule)
  unfolding cron_set_object known_volumes build_cron_job
  cron_set-built name cron env_vars refs found resolved absolute =
      let reads =
        mounts-Reads cfg name cron.volumes no_empty
          (accepted-cron_mounts regs cfg accepted name cron found) in
      and_build-Gives _ _ (λ b. Unit) _
        (let (b, (e, p)) = managed_volumes-Gives cfg.volumes names cron.volumes ([], false) reads in
          (b, (e, tt)))
        (λ acc managed.
          and_build-Gives _ _ (λ vs. Unit) _ (plain_env-Gives sources cron.env env_vars resolved)
            (λ vs u.
              and_build-Gives _ _ (λ ms. Unit) _
                (build_volumes_from-Gives cfg.volumes names acc.0 0 cron.volumes reads absolute)
                (λ ms w. (_, (refl, refl)))))
