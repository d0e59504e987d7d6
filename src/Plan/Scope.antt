-- ===== src/Plan/Scope.antt =====
-- Which planner of internal/reconcile/plan.go an entry of the whole plan comes from.
use nvoi.Base.{
  Bytes, Option, none, some, Bool, true, false, List, [], ◌∷◌, ◌++◌, ◌||◌, any, all, if◌then◌else◌,
  arith, ◌≡◌, refl,
}
use nvoi.Plan.Entry.{PlanEntry, Resource}
use nvoi.Plan.Live
use nvoi.Plan.Live.{
  Live, Planned, entries, fails, ◌then◌, ImageDiff, same, rebuilt, replaced, image_entries,
  or_unchanged, combined_workload_names, read_or,
}

abbrev pub is_planned : Planned → Bool
is_planned (entries es) = true
is_planned (fails f) = false

abbrev pub any_entry : (PlanEntry → Bool) → Planned → Bool
any_entry p (entries es) = any p es
any_entry p (fails f) = false

-- The entries of the planners for the registries, the services and the crons.
abbrev pub is_workload : PlanEntry → Bool
is_workload e = elim e.resource [
  | Resource.registry_secret ↦ true
  | Resource.workload ↦ true
  | Resource.secret_key ↦ true
  | Resource.cron_job ↦ true
  | _ ↦ false
]

pub any-append :
    (p : PlanEntry → Bool) (es fs : List PlanEntry) → any p (es ++ fs) ≡ (any p es || any p fs)
any-append p [] fs = refl
any-append p (e ∷ es) fs = ground (arith, any-append p es fs)

pub any_entry-then :
    (p : PlanEntry → Bool) (a b : Planned)
    → is_planned (a then b) ≡ true
    → (is_planned a ≡ true)
      × (is_planned b ≡ true)
      × (any_entry p (a then b) ≡ (any_entry p a || any_entry p b))
any_entry-then p (entries es) (entries fs) h = (refl, refl, any-append p es fs)
any_entry-then p (entries es) (fails f) h = absurd (ground (arith, h))
any_entry-then p (fails f) b h = absurd (ground (arith, h))

-- Entries of workloads alone.
pub record Workloads (es : List PlanEntry) : Type 0 where
  pub only : all is_workload es ≡ true

pub record WorkloadPlan (p : Planned) : Type 0 where
  pub only :
      (q : PlanEntry → Bool)
      → ((e : PlanEntry) → is_workload e ≡ true → q e ≡ false)
      → any_entry q p ≡ false

all-append :
    (es fs : List PlanEntry)
    → all is_workload es ≡ true
    → all is_workload fs ≡ true
    → all is_workload (es ++ fs) ≡ true
all-append [] fs h k = k
all-append (e ∷ es) fs h k = ground (arith, h, all-append es fs (ground (arith, h)) k)

pub nil-Workloads : Workloads []
nil-Workloads = record { only = refl }

pub cons-Workloads :
    {es : List PlanEntry} (e : PlanEntry) → is_workload e ≡ true → Workloads es → Workloads (e ∷ es)
cons-Workloads e h k = record { only = ground (arith, h, k.only) }

pub append-Workloads : {es fs : List PlanEntry} → Workloads es → Workloads fs → Workloads (es ++ fs)
append-Workloads {es = es} {fs = fs} h k = record { only = all-append es fs h.only k.only }

pub if-Workloads :
    {es fs : List PlanEntry} (b : Bool)
    → Workloads es
    → Workloads fs
    → Workloads (if b then es else fs)
if-Workloads true h k = h
if-Workloads false h k = k

any-workloads :
    (q : PlanEntry → Bool)
    → ((e : PlanEntry) → is_workload e ≡ true → q e ≡ false)
    → (es : List PlanEntry) → all is_workload es ≡ true
    → any q es ≡ false
any-workloads q apart [] h = refl
any-workloads q apart (e ∷ es) h =
    ground (arith, h, apart e, any-workloads q apart es (ground (arith, h)))

pub entries-WorkloadPlan : {es : List PlanEntry} → Workloads es → WorkloadPlan (entries es)
entries-WorkloadPlan {es = es} h = record { only = λ q apart. any-workloads q apart es h.only }

pub fails-WorkloadPlan : (f : Live.Failure) → WorkloadPlan (fails f)
fails-WorkloadPlan f = record { only = λ q apart. refl }

pub then-WorkloadPlan : (a b : Planned) → WorkloadPlan a → WorkloadPlan b → WorkloadPlan (a then b)
then-WorkloadPlan (entries es) (entries fs) h k = record {
  only = λ q apart. ground (arith, any-append q es fs, h.only q apart, k.only q apart);
}
then-WorkloadPlan (entries es) (fails f) h k = k
then-WorkloadPlan (fails f) b h k = h

pub if-WorkloadPlan :
    {a b : Planned} (c : Bool) → WorkloadPlan a → WorkloadPlan b → WorkloadPlan (if c then a else b)
if-WorkloadPlan true h k = h
if-WorkloadPlan false h k = k

pub read_or-WorkloadPlan :
    {A : Type 0} (step : Bytes) (o : Option A) (f : A → Planned)
    → ((a : A) → WorkloadPlan (f a))
    → WorkloadPlan (read_or step o f)
read_or-WorkloadPlan step none f h = fails-WorkloadPlan _
read_or-WorkloadPlan step (some a) f h = h a
