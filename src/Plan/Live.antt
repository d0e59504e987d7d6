-- ===== src/Plan/Live.antt =====
-- What the planners of internal/reconcile/plan.go read of the live resources, and how they end.
use nvoi.Base.{
  Bytes, bytes, Option, none, some, Bool, true, false, List, [], ◌∷◌, ◌++◌, if◌then◌else◌, ◌==◌,
  ◌||◌, is_empty,
}
use nvoi.Kube.Sweep.{Kind, deployment, stateful_set}
use nvoi.Image.{ImageResult, strip_deploy_hash}
use nvoi.Plan.Entry.{PlanEntry, entry, Resource, Detail, no_change, update, text, image_changed}

-- A live CronJob, with the images of its containers.
pub record CronJob : Type 0 where
  pub schedule : Bytes
  pub images : List Bytes

-- The answers of the providers and of the API server; `none` is an error. `owned` lists by owner
-- and kind in the app's namespace, `dns_name` and `storage_name` are the configured providers.
pub record Live : Type 0 where
  pub kube : Bool
  pub infra : Option (List PlanEntry)
  pub has_public_ingress : Bool
  pub storage_name : Bytes
  pub buckets : Option (List Bytes)
  pub dns_name : Bytes
  pub bindings : Option (List Bytes)
  pub owned : Bytes → Kind → Option (List Bytes)
  pub caddy_deployments : Option (List Bytes)
  pub caddy_routes : Option (List (List Bytes))
  pub deployment_images : Bytes → Option (List Bytes)
  pub stateful_set_images : Bytes → Option (List Bytes)
  pub cron_jobs : Bytes → Option CronJob
  pub secret_keys : Bytes → Option (List Bytes)

pub data Failure : Type 0 where
  no_kube crossed_slice : Failure
  read_failed : (step : Bytes) → Failure
  image_failed : (service : Bytes) → ImageResult → Failure

-- The entries, or the error of the planner.
pub data Planned : Type 0 where
  entries : List PlanEntry → Planned
  fails : Failure → Planned

abbrev pub with_entry : PlanEntry → Planned → Planned
with_entry e (entries es) = entries (e ∷ es)
with_entry e (fails f) = fails f

-- The entries of one planner behind another's; the first error ends the computation.
infixr 5 ◌then◌
abbrev pub ◌then◌ : Planned → Planned → Planned
entries es then entries fs = entries (es ++ fs)
entries es then fails f = fails f
fails f then p = fails f

abbrev pub read_or : {A : Type 0} → (step : Bytes) → Option A → (A → Planned) → Planned
read_or step none f = fails (read_failed step)
read_or step (some a) f = f a

-- combinedWorkloadNames
unfoldable pub combined_workload_names : Live → (owner : Bytes) → Option (List Bytes)
combined_workload_names live owner = elim (live.owned owner deployment) [
  | none ↦ none
  | some deps ↦ elim (live.owned owner stateful_set) [
    | none ↦ none
    | some sets ↦ some (deps ++ sets)
  ]
]

abbrev first_image : Option (List Bytes) → Bytes → Bytes
first_image none other = other
first_image (some []) other = other
first_image (some (image ∷ images)) other = image

-- getDeploymentOrSTSImage
unfoldable pub live_image : Live → (name : Bytes) → Bytes
live_image live name =
    first_image (live.deployment_images name) (first_image (live.stateful_set_images name) [])

-- How a live image and the desired one differ.
pub data ImageDiff : Type 0 where
  same rebuilt replaced : ImageDiff

unfoldable pub image_diff : (live desired : Bytes) → ImageDiff
image_diff live desired =
    if is_empty live || live == desired
    then same
    else if strip_deploy_hash live == strip_deploy_hash desired
    then rebuilt
    else replaced

abbrev pub image_tag_reason : Bytes
image_tag_reason = bytes "image-tag"

-- The entries for an image: none for a rebuild that only a plan computes.
abbrev pub image_entries :
    (plan_only : Bool) → Resource → (name live desired : Bytes) → ImageDiff → List PlanEntry
image_entries plan_only resource name live desired same = []
image_entries true resource name live desired rebuilt = []
image_entries false resource name live desired rebuilt =
    record (entry update resource name (text (bytes "image rebuilt"))) { reason = image_tag_reason }
    ∷ []
image_entries plan_only resource name live desired replaced =
    entry update resource name (image_changed live desired) ∷ []

-- The baseline entry where nothing changed.
abbrev pub or_unchanged : Resource → (name : Bytes) → Detail → List PlanEntry → List PlanEntry
or_unchanged resource name line [] = entry no_change resource name line ∷ []
or_unchanged resource name line (e ∷ es) = e ∷ es
