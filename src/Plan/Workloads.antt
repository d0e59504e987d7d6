-- ===== src/Plan/Workloads.antt =====
-- The planners of internal/reconcile/plan.go for the registries, the services and the crons have
-- entries of workloads alone.
use nvoi.Base.{Bytes, Option, none, some, Bool, true, false, List, [], ◌∷◌, arith, refl, Dict}
use nvoi.Config.{AppConfig, RegistryDef, CronDef}
use nvoi.Image.{ImageResult, resolved}
use nvoi.Plan.Entry.{PlanEntry, Resource, Detail}
use nvoi.Plan.Keys.{key_adds, key_deletes, secret_key_diff}
use nvoi.Plan.Storage.{plan_registries}
use nvoi.Plan.Live
use nvoi.Plan.Live.{
  Live, Planned, entries, fails, ◌then◌, ImageDiff, same, rebuilt, replaced, image_entries,
  or_unchanged, combined_workload_names, read_or,
}
use nvoi.Plan.Services.{
  plan_service, service_entries, workload_deletes, service_key_entries, plan_services, cron_entries,
  cron_deletes, cron_key_entries, plan_crons, plan_cron, live_cron, schedule_entries,
  cron_image_entries, keys_or_none, image_or_fail,
}
use nvoi.Plan.Compute.{registries_part}
use nvoi.Plan.Scope.{
  Workloads, WorkloadPlan, nil-Workloads, cons-Workloads, append-Workloads, if-Workloads,
  entries-WorkloadPlan, fails-WorkloadPlan, then-WorkloadPlan, if-WorkloadPlan,
  read_or-WorkloadPlan,
}

key_adds-Workloads :
    (w : Bytes) (existing desired : List Bytes) → Workloads (key_adds w existing desired)
unfolding key_adds
key_adds-Workloads w existing [] = nil-Workloads
key_adds-Workloads w existing (k ∷ desired) = record {
  only = ground (arith, (key_adds-Workloads w existing desired).only);
}

key_deletes-Workloads :
    (w : Bytes) (desired existing : List Bytes) → Workloads (key_deletes w desired existing)
unfolding key_deletes
key_deletes-Workloads w desired [] = nil-Workloads
key_deletes-Workloads w desired (k ∷ existing) = record {
  only = ground (arith, (key_deletes-Workloads w desired existing).only);
}

image_entries-Workloads :
    (plan_only : Bool) (name live image : Bytes) (d : ImageDiff)
    → Workloads (image_entries plan_only Resource.workload name live image d)
      × Workloads (image_entries plan_only Resource.cron_job name live image d)
image_entries-Workloads plan_only name live image same =
    (record { only = refl }, record { only = refl })
image_entries-Workloads true name live image rebuilt =
    (record { only = refl }, record { only = refl })
image_entries-Workloads false name live image rebuilt =
    (record { only = refl }, record { only = refl })
image_entries-Workloads plan_only name live image replaced =
    (record { only = refl }, record { only = refl })

or_unchanged-Workloads :
    (name : Bytes) (line : Detail) (es : List PlanEntry)
    → Workloads es
    → Workloads (or_unchanged Resource.workload name line es)
      × Workloads (or_unchanged Resource.cron_job name line es)
or_unchanged-Workloads name line [] h = (record { only = refl }, record { only = refl })
or_unchanged-Workloads name line (e ∷ es) h = (h, h)

plan_registries-Workloads :
    (registry : Dict RegistryDef) (existing : List Bytes)
    → Workloads (plan_registries registry existing)
unfolding plan_registries
plan_registries-Workloads registry existing = record { only = ground arith }

module _ (live : Live) (cfg : AppConfig) (hash : Bytes) where
  pub registries_part-WorkloadPlan : WorkloadPlan (registries_part live cfg)
  unfolding registries_part
  registries_part-WorkloadPlan =
      read_or-WorkloadPlan _ _ _
        λ existing. entries-WorkloadPlan (plan_registries-Workloads cfg.registry existing)

  keys_or_none-Workloads :
      (w : Bytes) (desired : List Bytes) (o : Option (List Bytes))
      → Workloads (keys_or_none live cfg hash w desired o)
  unfolding secret_key_diff
  keys_or_none-Workloads w desired none = nil-Workloads
  keys_or_none-Workloads w desired (some found) =
      append-Workloads (key_adds-Workloads w found desired) (key_deletes-Workloads w desired found)

  service_key_entries-Workloads :
      (existing names : List Bytes) → Workloads (service_key_entries live cfg hash existing names)
  unfolding service_key_entries
  service_key_entries-Workloads existing [] = nil-Workloads
  service_key_entries-Workloads existing (n ∷ names) =
      let rest = service_key_entries-Workloads existing names in
      if-Workloads _ (append-Workloads (keys_or_none-Workloads n _ _) rest) rest

  cron_key_entries-Workloads :
      (existing names : List Bytes) → Workloads (cron_key_entries live cfg hash existing names)
  unfolding cron_key_entries
  cron_key_entries-Workloads existing [] = nil-Workloads
  cron_key_entries-Workloads existing (n ∷ names) =
      let rest = cron_key_entries-Workloads existing names in
      if-Workloads _ (append-Workloads (keys_or_none-Workloads n _ _) rest) rest

  image_or_fail-WorkloadPlan :
      (n : Bytes) (r : ImageResult) (f : Bytes → Planned)
      → ((image : Bytes) → WorkloadPlan (f image))
      → WorkloadPlan (image_or_fail n r f)
  image_or_fail-WorkloadPlan n (resolved image) f h = h image
  image_or_fail-WorkloadPlan n r f h = fails-WorkloadPlan _

  plan_service-WorkloadPlan :
      (existing : List Bytes) (name : Bytes)
      → WorkloadPlan (plan_service live cfg hash existing name)
  unfolding plan_service
  plan_service-WorkloadPlan existing name =
      if-WorkloadPlan _
        (image_or_fail-WorkloadPlan name _ _ λ image.
          entries-WorkloadPlan
            ((or_unchanged-Workloads name _ _ (image_entries-Workloads _ _ _ _ _).0).0))
        (entries-WorkloadPlan (record { only = refl }))

  service_entries-WorkloadPlan :
      (existing names : List Bytes) → WorkloadPlan (service_entries live cfg hash existing names)
  unfolding service_entries
  service_entries-WorkloadPlan existing [] = entries-WorkloadPlan nil-Workloads
  service_entries-WorkloadPlan existing (n ∷ names) =
      then-WorkloadPlan _ _ (plan_service-WorkloadPlan existing n)
        (service_entries-WorkloadPlan existing names)

  workload_deletes-Workloads :
      (desired existing : List Bytes) → Workloads (workload_deletes live cfg hash desired existing)
  unfolding workload_deletes
  workload_deletes-Workloads desired [] = nil-Workloads
  workload_deletes-Workloads desired (n ∷ existing) =
      let rest = workload_deletes-Workloads desired existing in
      if-Workloads _ rest (cons-Workloads _ refl rest)

  pub plan_services-WorkloadPlan : WorkloadPlan (plan_services live cfg hash)
  unfolding plan_services
  plan_services-WorkloadPlan = read_or-WorkloadPlan _ _ _ λ existing.
      then-WorkloadPlan _ _
        (then-WorkloadPlan _ _ (service_entries-WorkloadPlan existing _)
          (entries-WorkloadPlan (workload_deletes-Workloads _ _)))
        (entries-WorkloadPlan (service_key_entries-Workloads existing _))

  cron_image_entries-Workloads :
      (name : Bytes) (cron : CronDef) (images : List Bytes)
      → Workloads (cron_image_entries live cfg hash name cron images)
  cron_image_entries-Workloads name cron [] = nil-Workloads
  cron_image_entries-Workloads name cron (image ∷ images) = (image_entries-Workloads _ _ _ _ _).1

  schedule_entries-Workloads :
      (name : Bytes) (cron : CronDef) (cj : Live.CronJob)
      → Workloads (schedule_entries live cfg hash name cron cj)
  schedule_entries-Workloads name cron cj = record { only = ground arith }

  live_cron-Workloads :
      (name : Bytes) (cron : CronDef) (o : Option Live.CronJob)
      → Workloads (live_cron live cfg hash name cron o)
  live_cron-Workloads name cron none = nil-Workloads
  live_cron-Workloads name cron (some cj) =
      append-Workloads (schedule_entries-Workloads name cron cj)
        (cron_image_entries-Workloads name cron cj.images)

  plan_cron-Workloads :
      (existing : List Bytes) (name : Bytes) (o : Option CronDef)
      → Workloads (plan_cron live cfg hash existing name o)
  plan_cron-Workloads existing name none = nil-Workloads
  plan_cron-Workloads existing name (some cron) =
      if-Workloads _ (or_unchanged-Workloads name _ _ (live_cron-Workloads name cron _)).1
        (cons-Workloads _ refl nil-Workloads)

  cron_entries-Workloads :
      (existing names : List Bytes) → Workloads (cron_entries live cfg hash existing names)
  unfolding cron_entries
  cron_entries-Workloads existing [] = nil-Workloads
  cron_entries-Workloads existing (n ∷ names) =
      append-Workloads (plan_cron-Workloads existing n _) (cron_entries-Workloads existing names)

  cron_deletes-Workloads :
      (desired existing : List Bytes) → Workloads (cron_deletes live cfg hash desired existing)
  unfolding cron_deletes
  cron_deletes-Workloads desired [] = nil-Workloads
  cron_deletes-Workloads desired (n ∷ existing) =
      let rest = cron_deletes-Workloads desired existing in
      if-Workloads _ rest (cons-Workloads _ refl rest)

  pub plan_crons-WorkloadPlan : WorkloadPlan (plan_crons live cfg hash)
  unfolding plan_crons
  plan_crons-WorkloadPlan = read_or-WorkloadPlan _ _ _ λ existing. entries-WorkloadPlan (
      append-Workloads (cron_entries-Workloads existing _) (
        append-Workloads (cron_deletes-Workloads _ existing)
          (cron_key_entries-Workloads existing _)))
