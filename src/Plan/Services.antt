-- ===== src/Plan/Services.antt =====
-- planServices and planCrons of internal/reconcile/plan.go.
use nvoi.Base.{
  Bytes, bytes, Option, none, some, List, [], ◌∷◌, ◌++◌, if◌then◌else◌, ◌==◌, is_empty, contains,
  lookup, keys,
}
use nvoi.Base.Sort.{sort, sorted_keys}
use nvoi.Naming.{kube_service_secrets}
use nvoi.Config.{AppConfig, ServiceDef, CronDef}
use nvoi.Kube.Sweep.{cron_job}
use nvoi.Image.{ImageResult, resolved, resolve_image}
use nvoi.Plan.Entry.{
  PlanEntry, entry, Resource, add, delete, update, text, no_detail, schedule_changed,
}
use nvoi.Plan.Keys.{desired_secret_keys, secret_key_diff}
use nvoi.Plan.Live.{
  Live, CronJob, Planned, entries, fails, image_failed, ◌then◌, read_or, combined_workload_names,
  live_image, image_diff, image_entries, or_unchanged,
}

abbrev pub owner_services : Bytes
owner_services = bytes "services"

abbrev pub owner_crons : Bytes
owner_crons = bytes "crons"

-- The hash that images are resolved with; a plan without a deployment has a placeholder.
abbrev pub plan_hash : Bytes → Bytes
plan_hash [] = bytes "00000000-000000"
plan_hash (c ∷ hash) = c ∷ hash

abbrev pub image_or_fail : (service : Bytes) → ImageResult → (Bytes → Planned) → Planned
image_or_fail service (resolved image) f = f image
image_or_fail service r f = fails (image_failed service r)

module _ (live : Live) (cfg : AppConfig) (hash : Bytes) where
  -- A service that is live, with its desired image.
  abbrev pub live_service : (name image : Bytes) → List PlanEntry
  live_service name image = or_unchanged Resource.workload name (text (bytes "service")) (
      image_entries (is_empty hash) Resource.workload name (live_image live name) image
        (image_diff (live_image live name) image))

  unfoldable pub plan_service : (existing : List Bytes) → (name : Bytes) → Planned
  unfolding resolve_image live_image image_diff
  plan_service existing name =
      if contains name existing
      then image_or_fail name (resolve_image cfg name (plan_hash hash))
          (λ image. entries (live_service name image))
      else entries (entry add Resource.workload name (text (bytes "service")) ∷ [])

  unfoldable pub service_entries : (existing names : List Bytes) → Planned
  service_entries existing [] = entries []
  service_entries existing (name ∷ names) =
      plan_service existing name then service_entries existing names

  unfoldable pub workload_deletes : (desired existing : List Bytes) → List PlanEntry
  workload_deletes desired [] = []
  workload_deletes desired (n ∷ existing) =
      if contains n desired
      then workload_deletes desired existing
      else entry delete Resource.workload n (text (bytes "service"))
        ∷ workload_deletes desired existing

  abbrev pub keys_or_none :
      (workload : Bytes) → (desired : List Bytes) → Option (List Bytes) → List PlanEntry
  keys_or_none workload desired none = []
  keys_or_none workload desired (some keys) = secret_key_diff workload desired keys

  abbrev service_secret_keys : Option ServiceDef → List Bytes
  service_secret_keys none = []
  service_secret_keys (some svc) = desired_secret_keys svc.secrets svc.storage svc.databases

  unfoldable pub service_key_entries : (existing names : List Bytes) → List PlanEntry
  service_key_entries existing [] = []
  service_key_entries existing (name ∷ names) =
      let rest = service_key_entries existing names in
      if contains name existing
      then keys_or_none name (service_secret_keys (lookup name cfg.services))
          (live.secret_keys (kube_service_secrets name))
        ++ rest
      else rest

  -- The entries of the workloads themselves.
  abbrev pub service_workloads : (existing : List Bytes) → Planned
  service_workloads existing =
      service_entries existing (sort (keys cfg.services))
      then entries (workload_deletes (keys cfg.services) (sorted_keys existing))

  unfoldable pub plan_services : Planned
  plan_services =
      read_or (bytes "services") (combined_workload_names live owner_services) (λ existing.
        service_workloads existing
        then entries (service_key_entries existing (sort (keys cfg.services))))

  -- A cron that is live: its schedule and its image can both have changed.
  abbrev pub schedule_entries : (name : Bytes) → CronDef → CronJob → List PlanEntry
  schedule_entries name cron cj =
      if cj.schedule == cron.schedule
      then []
      else entry update Resource.cron_job name (schedule_changed cj.schedule cron.schedule) ∷ []

  abbrev pub cron_image_entries : (name : Bytes) → CronDef → (images : List Bytes) → List PlanEntry
  cron_image_entries name cron [] = []
  cron_image_entries name cron (image ∷ images) =
      image_entries (is_empty hash) Resource.cron_job name image cron.image
        (image_diff image cron.image)

  abbrev pub live_cron : (name : Bytes) → CronDef → Option CronJob → List PlanEntry
  live_cron name cron none = []
  live_cron name cron (some cj) =
      schedule_entries name cron cj ++ cron_image_entries name cron cj.images

  abbrev pub plan_cron : (existing : List Bytes) → (name : Bytes) → Option CronDef → List PlanEntry
  plan_cron existing name none = []
  plan_cron existing name (some cron) =
      if contains name existing
      then or_unchanged Resource.cron_job name (text cron.schedule)
          (live_cron name cron (live.cron_jobs name))
      else entry add Resource.cron_job name (text cron.schedule) ∷ []

  unfoldable pub cron_entries : (existing names : List Bytes) → List PlanEntry
  unfolding image_diff
  cron_entries existing [] = []
  cron_entries existing (name ∷ names) =
      plan_cron existing name (lookup name cfg.crons) ++ cron_entries existing names

  -- In the order in which the API server lists them.
  unfoldable pub cron_deletes : (desired existing : List Bytes) → List PlanEntry
  cron_deletes desired [] = []
  cron_deletes desired (n ∷ existing) =
      if contains n desired
      then cron_deletes desired existing
      else entry delete Resource.cron_job n no_detail ∷ cron_deletes desired existing

  abbrev cron_secret_keys : Option CronDef → List Bytes
  cron_secret_keys none = []
  cron_secret_keys (some cron) = desired_secret_keys cron.secrets cron.storage []

  unfoldable pub cron_key_entries : (existing names : List Bytes) → List PlanEntry
  cron_key_entries existing [] = []
  cron_key_entries existing (name ∷ names) =
      let rest = cron_key_entries existing names in
      if contains name existing
      then keys_or_none name (cron_secret_keys (lookup name cfg.crons))
          (live.secret_keys (kube_service_secrets name))
        ++ rest
      else rest

  unfoldable pub plan_crons : Planned
  plan_crons = read_or (bytes "crons") (live.owned owner_crons cron_job) (λ existing. entries (
      cron_entries existing (sort (keys cfg.crons))
      ++ (cron_deletes (keys cfg.crons) existing
          ++ cron_key_entries existing (sort (keys cfg.crons)))))
