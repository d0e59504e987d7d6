-- ===== src/Plan/Redeploy.antt =====
-- A second deployment of an unchanged configuration, by internal/reconcile/plan.go.
use nvoi.Base.{
  Bytes, bytes, Bool, true, false, List, [], ◌∷◌, ◌++◌, if◌then◌else◌, ◌==◌, is_empty, contains,
  keys, All, ◌&&◌, ◌||◌, ◌≡◌, refl, sym, ap, ◌∙◌, arith, Bool-cases, inl, inr, ◌⊎◌, ==_refl,
}
use nvoi.Base.Sort.{sort, sorted_keys}
use nvoi.Config.{AppConfig}
use nvoi.Image.{ImageResult, resolved, resolve_image, strip_deploy_hash, fits, hash_pattern}
use nvoi.Image.Rebuild.{stripped, resolve_image-stripped}
use nvoi.Plan.Entry.{PlanEntry, Resource, Detail, text, promptable, changes}
use nvoi.Plan.Live.{
  Live, Planned, entries, fails, ◌then◌, live_image, ImageDiff, same, rebuilt, replaced, image_diff,
  image_entries, or_unchanged,
}
use nvoi.Plan.Services.{
  plan_hash, plan_service, service_entries, workload_deletes, service_workloads,
}

-- A plan that asks the operator nothing, and one that changes nothing.
abbrev pub prompts_nothing : Planned → Bool
prompts_nothing (entries es) = is_empty (promptable es)
prompts_nothing (fails f) = false

abbrev pub changes_nothing : Planned → Bool
changes_nothing (entries es) = is_empty (changes es)
changes_nothing (fails f) = false

is_empty-promptable_append :
    (es fs : List PlanEntry)
    → is_empty (promptable (es ++ fs)) ≡ (is_empty (promptable es) && is_empty (promptable fs))
unfolding promptable
is_empty-promptable_append [] fs = refl
is_empty-promptable_append (e ∷ es) fs = ground (arith, is_empty-promptable_append es fs)

is_empty-changes_append :
    (es fs : List PlanEntry)
    → is_empty (changes (es ++ fs)) ≡ (is_empty (changes es) && is_empty (changes fs))
unfolding changes
is_empty-changes_append [] fs = refl
is_empty-changes_append (e ∷ es) fs = ground (arith, is_empty-changes_append es fs)

prompts_nothing-then :
    (p q : Planned)
    → prompts_nothing p ≡ true
    → prompts_nothing q ≡ true
    → prompts_nothing (p then q) ≡ true
prompts_nothing-then (entries es) (entries fs) h k =
    ground (arith, is_empty-promptable_append es fs, h, k)
prompts_nothing-then (entries es) (fails f) h k = k
prompts_nothing-then (fails f) q h k = h

changes_nothing-then :
    (p q : Planned)
    → changes_nothing p ≡ true
    → changes_nothing q ≡ true
    → changes_nothing (p then q) ≡ true
changes_nothing-then (entries es) (entries fs) h k =
    ground (arith, is_empty-changes_append es fs, h, k)
changes_nothing-then (entries es) (fails f) h k = k
changes_nothing-then (fails f) q h k = h

-- Two images with the same stripped text differ in the hash at most.
image_diff-same_or_rebuilt :
    (live image : Bytes)
    → strip_deploy_hash live ≡ strip_deploy_hash image
    → (image_diff live image ≡ same) ⊎ (image_diff live image ≡ rebuilt)
unfolding image_diff
image_diff-same_or_rebuilt live image h = elim (Bool-cases (is_empty live || live == image)) [
  | inl s ↦ inl (rw s refl)
  | inr s ↦ inr (rw (s, h, ==_refl (strip_deploy_hash image)) refl)
]

resolved-inside :
    (image : Bytes) (r : ImageResult)
    → stripped (resolved image) ≡ stripped r
    → (b : Bytes) × (r ≡ resolved b) × (strip_deploy_hash image ≡ strip_deploy_hash b)
resolved-inside image (resolved b) h = (b, refl, cc)
resolved-inside image r h = absurd (ground (arith, h))

or_unchanged-prompts :
    (plan_only : Bool) (resource : Resource) (name live image : Bytes) (line : Detail)
    (d : ImageDiff)
    → (d ≡ same) ⊎ (d ≡ rebuilt)
    → prompts_nothing (
        entries
          (or_unchanged resource name line (image_entries plan_only resource name live image d)))
      ≡ true
unfolding promptable
or_unchanged-prompts true resource name live image line same h = refl
or_unchanged-prompts false resource name live image line same h = refl
or_unchanged-prompts true resource name live image line rebuilt h = refl
or_unchanged-prompts false resource name live image line rebuilt h = refl
or_unchanged-prompts plan_only resource name live image line replaced h = absurd (ground (arith, h))

or_unchanged-changes :
    (resource : Resource) (name live image : Bytes) (line : Detail) (d : ImageDiff)
    → (d ≡ same) ⊎ (d ≡ rebuilt)
    → changes_nothing
        (entries (or_unchanged resource name line (image_entries true resource name live image d)))
      ≡ true
unfolding changes
or_unchanged-changes resource name live image line same h = refl
or_unchanged-changes resource name live image line rebuilt h = refl
or_unchanged-changes resource name live image line replaced h = absurd (ground (arith, h))

workload_deletes-none :
    (live : Live) (cfg : AppConfig) (hash : Bytes) (desired existing : List Bytes)
    → All (λ n. contains n desired ≡ true) existing
    → workload_deletes live cfg hash desired existing ≡ []
unfolding workload_deletes
workload_deletes-none live cfg hash desired [] h = refl
workload_deletes-none live cfg hash desired (n ∷ existing) (p, h) =
    rw p (workload_deletes-none live cfg hash desired existing h)

module _ (live : Live) (cfg : AppConfig) (before : Bytes) (existing : List Bytes)
    (shaped_before : fits hash_pattern before ≡ true) where
  -- A service that is live with the image of the deployment before.
  abbrev pub IsDeployed : Bytes → Type 0
  IsDeployed name =
      (contains name existing ≡ true)
      × (resolve_image cfg name before ≡ resolved (live_image live name))

  module _ (hash : Bytes) (shaped : fits hash_pattern (plan_hash hash) ≡ true) where
    image_diff-deployed :
        (name : Bytes)
        → IsDeployed name
        → (image : Bytes) × (resolve_image cfg name (plan_hash hash) ≡ resolved image)
          × ((image_diff (live_image live name) image ≡ same)
              ⊎ (image_diff (live_image live name) image ≡ rebuilt))
    image_diff-deployed name (found, deployed) =
        let (image, e, h) =
          resolved-inside (live_image live name) (resolve_image cfg name (plan_hash hash)) (
            ap stripped (sym deployed)
            ∙ resolve_image-stripped cfg name before (plan_hash hash) shaped_before shaped) in
        (image, e, image_diff-same_or_rebuilt (live_image live name) image h)

    plan_service-prompts :
        (name : Bytes)
        → IsDeployed name
        → prompts_nothing (plan_service live cfg hash existing name) ≡ true
    unfolding plan_service
    plan_service-prompts name h =
        let (image, e, d) = image_diff-deployed name h in
        rw (h.0, e)
          (or_unchanged-prompts (is_empty hash) Resource.workload name (live_image live name) image
            (text (bytes "service")) (image_diff (live_image live name) image) d)

    service_entries-prompts :
        (names : List Bytes)
        → All IsDeployed names
        → prompts_nothing (service_entries live cfg hash existing names) ≡ true
    unfolding service_entries promptable
    service_entries-prompts [] h = refl
    service_entries-prompts (n ∷ names) (p, h) =
        prompts_nothing-then (plan_service live cfg hash existing n)
          (service_entries live cfg hash existing names) (plan_service-prompts n p)
          (service_entries-prompts names h)

    -- A second deployment of an unchanged configuration, with any other hash, asks the operator
    -- nothing about the services: where every configured service is live with the image of the
    -- deployment before and no other is live, planServices has no entry that prompts.
    pub redeploy-prompts :
        All IsDeployed (sort (keys cfg.services))
        → All (λ n. contains n (keys cfg.services) ≡ true) (sorted_keys existing)
        → prompts_nothing (service_workloads live cfg hash existing) ≡ true
    unfolding promptable
    redeploy-prompts deployed known =
        prompts_nothing-then (service_entries live cfg hash existing (sort (keys cfg.services)))
          (entries (workload_deletes live cfg hash (keys cfg.services) (sorted_keys existing)))
          (service_entries-prompts (sort (keys cfg.services)) deployed)
          (rw (workload_deletes-none live cfg hash _ _ known) refl)

  plan_service-changes :
      (name : Bytes)
      → IsDeployed name
      → changes_nothing (plan_service live cfg [] existing name) ≡ true
  unfolding plan_service fits
  plan_service-changes name h =
      let (image, e, d) = image_diff-deployed [] refl name h in
      rw (h.0, e)
        (or_unchanged-changes Resource.workload name (live_image live name) image
          (text (bytes "service")) (image_diff (live_image live name) image) d)

  service_entries-changes :
      (names : List Bytes)
      → All IsDeployed names
      → changes_nothing (service_entries live cfg [] existing names) ≡ true
  unfolding service_entries changes
  service_entries-changes [] h = refl
  service_entries-changes (n ∷ names) (p, h) =
      changes_nothing-then (plan_service live cfg [] existing n)
        (service_entries live cfg [] existing names) (plan_service-changes n p)
        (service_entries-changes names h)

  -- The plan command, which has no deploy hash, lists no change of the services, where every
  -- configured service is live with the image of the deployment before and no other is live.
  pub replan-changes :
      All IsDeployed (sort (keys cfg.services))
      → All (λ n. contains n (keys cfg.services) ≡ true) (sorted_keys existing)
      → changes_nothing (service_workloads live cfg [] existing) ≡ true
  unfolding changes
  replan-changes deployed known =
      changes_nothing-then (service_entries live cfg [] existing (sort (keys cfg.services)))
        (entries (workload_deletes live cfg [] (keys cfg.services) (sorted_keys existing)))
        (service_entries-changes (sort (keys cfg.services)) deployed)
        (rw (workload_deletes-none live cfg [] _ _ known) refl)
