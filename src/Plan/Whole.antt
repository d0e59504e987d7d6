-- ===== src/Plan/Whole.antt =====
-- What the whole plan of internal/reconcile/plan.go is made of.
use nvoi.Base.{
  bytes, Bytes, Bool, true, false, List, [], ◌∷◌, ◌&&◌, ◌||◌, any, arith, ◌≡◌, refl, sym, ap, ◌∙◌,
  if◌then◌else◌,
}
use nvoi.Naming.{Names}
use nvoi.Config.{AppConfig}
use nvoi.Plan.Entry.{PlanEntry, is_change, is_infra_resource, has_infra_changes}
use nvoi.Plan.Live.{Live, Planned, entries, fails, no_kube, ◌then◌, read_or}
use nvoi.Plan.Services.{plan_services, plan_crons}
use nvoi.Plan.Compute.{
  storage_part, databases_part, registries_part, dns_part, ingress_part, compute_plan, run_planners,
}
use nvoi.Plan.Scope.{is_planned, any_entry, is_workload, any_entry-then}
use nvoi.Plan.Workloads.{
  registries_part-WorkloadPlan, plan_services-WorkloadPlan, plan_crons-WorkloadPlan,
}

-- The infra provider's part.
abbrev pub infra_part : Live → Planned
infra_part live = read_or (bytes "infra") live.infra entries

if-planned :
    (b : Bool) (q : Planned)
    → is_planned (if b then q else fails no_kube) ≡ true
    → (if b then q else fails no_kube) ≡ q
if-planned true q h = refl
if-planned false q h = absurd (ground (arith, h))

module _ (names : Names) (live : Live) (cfg : AppConfig) (hash : Bytes) where
  run_planners-any :
      (p : PlanEntry → Bool)
      → ((e : PlanEntry) → is_workload e ≡ true → p e ≡ false)
      → is_planned (run_planners names live cfg hash) ≡ true
      → any_entry p (run_planners names live cfg hash) ≡ (
          any_entry p (infra_part live)
          || (any_entry p (storage_part names live cfg)
              || (any_entry p (databases_part live cfg)
                  || (any_entry p (dns_part live cfg) || any_entry p (ingress_part live cfg)))))
  unfolding run_planners
  run_planners-any p apart h =
      let tail8 = dns_part live cfg then ingress_part live cfg in
      let tail7 = plan_crons live cfg hash then tail8 in
      let tail6 = plan_services live cfg hash then tail7 in
      let tail5 = registries_part live cfg then tail6 in
      let tail4 = databases_part live cfg then tail5 in
      let tail3 = storage_part names live cfg then tail4 in
      let s2 = any_entry-then p (infra_part live) tail3 h in
      let s3 = any_entry-then p (storage_part names live cfg) tail4 s2.1 in
      let s4 = any_entry-then p (databases_part live cfg) tail5 s3.1 in
      let s5 = any_entry-then p (registries_part live cfg) tail6 s4.1 in
      let s6 = any_entry-then p (plan_services live cfg hash) tail7 s5.1 in
      let s7 = any_entry-then p (plan_crons live cfg hash) tail8 s6.1 in
      let s8 = any_entry-then p (dns_part live cfg) (ingress_part live cfg) s7.1 in
      rw
        (
          s2.2,
          s3.2,
          s4.2,
          s5.2,
          s6.2,
          s7.2,
          s8.2,
          (registries_part-WorkloadPlan live cfg hash).only p apart,
          (plan_services-WorkloadPlan live cfg hash).only p apart,
          (plan_crons-WorkloadPlan live cfg hash).only p apart,
        )
        refl

  pub compute_plan-any :
      (p : PlanEntry → Bool)
      → ((e : PlanEntry) → is_workload e ≡ true → p e ≡ false)
      → is_planned (compute_plan names live cfg hash) ≡ true
      → any_entry p (compute_plan names live cfg hash) ≡ (
          any_entry p (infra_part live)
          || (any_entry p (storage_part names live cfg)
              || (any_entry p (databases_part live cfg)
                  || (any_entry p (dns_part live cfg) || any_entry p (ingress_part live cfg)))))
  unfolding compute_plan
  compute_plan-any p apart h =
      let e = if-planned live.kube (run_planners names live cfg hash) h in
      ap (any_entry p) e ∙ run_planners-any p apart (ap is_planned (sym e) ∙ h)

abbrev pub is_loud_entry : PlanEntry → Bool
is_loud_entry e = is_change e.kind && is_infra_resource e.resource

has_infra_changes-any : (es : List PlanEntry) → has_infra_changes es ≡ any is_loud_entry es
unfolding has_infra_changes is_infra_resource
has_infra_changes-any [] = refl
has_infra_changes-any (e ∷ es) = ground (arith, has_infra_changes-any es)

is_loud_entry-apart : (e : PlanEntry) → is_workload e ≡ true → is_loud_entry e ≡ false
unfolding is_infra_resource
is_loud_entry-apart e h = ground (arith, h)

module _ (names : Names) (live : Live) (cfg : AppConfig) (hash : Bytes) (es : List PlanEntry)
    (computed : compute_plan names live cfg hash ≡ entries es) where
  -- If the plan is computed, a deployment of it takes the path that changes infrastructure exactly
  -- when the part of the infra provider, the buckets, the databases, the DNS records or the
  -- ingress has a change of an infra resource: the registries, services and crons never ask for it.
  pub compute_plan-loud : has_infra_changes es ≡ (
      any_entry is_loud_entry (infra_part live)
      || (any_entry is_loud_entry (storage_part names live cfg)
          || (any_entry is_loud_entry (databases_part live cfg)
              || (any_entry is_loud_entry (dns_part live cfg)
                  || any_entry is_loud_entry (ingress_part live cfg)))))
  compute_plan-loud =
      has_infra_changes-any es
      ∙ ap (any_entry is_loud_entry) (sym computed)
      ∙ compute_plan-any names live cfg hash is_loud_entry is_loud_entry-apart
          (ap is_planned computed)
