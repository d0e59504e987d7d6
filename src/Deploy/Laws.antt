-- ===== src/Deploy/Laws.antt =====
-- What every run of Deploy of internal/reconcile/reconcile.go does.
use nvoi.Base.{
  is_some, Bool, true, false, List, [], ◌∷◌, ◌||◌, ◌&&◌, not, any, arith, ◌≡◌, refl, ltb, ℕ, ◌≤◌,
  subst, sym, Bool-cases, inl, inr,
}
use nvoi.Config.{AppConfig}
use nvoi.Deploy.Action.{
  Call, Event, did, failed, planned, answered, log, log_pending, close_kube, close_infra, Result,
  is_error, ok, error,
}
use nvoi.Deploy.Action
use nvoi.Deploy.Engine.{Engine}
use nvoi.Deploy.Steps.{Machine, deploy}
use nvoi.Deploy.Phases
use nvoi.Deploy.Phases.{Phase, Next, Trace, here, next}
use nvoi.Deploy.Follows.{is_failed, ends}
use nvoi.Deploy.Runs.{deploy-Follows}
use nvoi.Deploy.Order.{
  preceded, of_call, changes_provider, plans_infra, is_loud-Marks, Trace-preceded,
}
use nvoi.Deploy.Turns.{applies_plan, is_agreement, is_agreed-Marks, place, did_place, is_past-Marks}

-- The clients that are open are closed, the cluster's before the provider's, and none is closed
-- that is not open.
abbrev pub all_closed : (kube infra : Bool) → List Event → Bool
all_closed kube infra [] = not kube && not infra
all_closed kube infra (did Action.resolve_infra ∷ es) = not infra && all_closed kube true es
all_closed kube infra (did Action.bootstrap ∷ es) = (infra && not kube) && all_closed true infra es
all_closed kube infra (did Action.connect ∷ es) = (infra && not kube) && all_closed true infra es
all_closed kube infra (close_kube ∷ es) = kube && all_closed false infra es
all_closed kube infra (close_infra ∷ es) = (infra && not kube) && all_closed kube false es
all_closed kube infra (e ∷ es) = all_closed kube infra es

abbrev has_kube : Phase → Bool
has_kube (Phases.with_kube loud s) = true
has_kube Phases.kube_done = true
has_kube p = false

abbrev has_infra : Phase → Bool
has_infra (Phases.with_infra e) = true
has_infra (Phases.with_kube loud s) = true
has_infra Phases.kube_done = true
has_infra Phases.infra_done = true
has_infra p = false

Next-all_closed :
    {asks : Bool} {p q : Phase} {e : Event} (es : List Event)
    → Next asks p e q
    → all_closed (has_kube q) (has_infra q) es ≡ true
    → all_closed (has_kube p) (has_infra p) (e ∷ es) ≡ true
Next-all_closed es (Phases.fails n) h = h
Next-all_closed es (Phases.breaks n) h = h
Next-all_closed es _ h = ground (arith, h)

Trace-all_closed :
    {asks : Bool} {p : Phase} {es : List Event}
    → Trace asks p es Phases.closed
    → all_closed (has_kube p) (has_infra p) es ≡ true
Trace-all_closed here = refl
Trace-all_closed (next n path) = Next-all_closed _ n (Trace-all_closed path)

-- No call is made behind one that failed.
abbrev pub is_a_call : Event → Bool
is_a_call e = of_call (λ c. true) e

abbrev pub stops_at_failure : List Event → Bool
stops_at_failure [] = true
stops_at_failure (e ∷ es) = (not (is_failed e) || not (any is_a_call es)) && stops_at_failure es

-- Where no call is possible any more.
abbrev is_over : Phase → Bool
is_over Phases.kube_done = true
is_over Phases.infra_done = true
is_over Phases.closed = true
is_over p = false

is_over-stays :
    {asks : Bool} {p q : Phase} {e : Event}
    → Next asks p e q
    → is_over p ≡ true
    → (is_over q ≡ true) × (is_a_call e ≡ false)
is_over-stays Phases.releases h = (refl, refl)
is_over-stays _ h = ground (arith, h)

failed-is_over :
    {asks : Bool} {p q : Phase} {e : Event}
    → Next asks p e q
    → is_failed e ≡ true
    → is_over q ≡ true
failed-is_over Phases.rejects h = refl
failed-is_over _ h = ground (arith, h)

Trace-is_over :
    {asks : Bool} {p q : Phase} {es : List Event}
    → Trace asks p es q
    → is_over p ≡ true
    → any is_a_call es ≡ false
Trace-is_over here h = refl
Trace-is_over (next n path) h =
    let (over, no_call) = is_over-stays n h in ground (arith, no_call, Trace-is_over path over)

Trace-stops :
    {asks : Bool} {p q : Phase} {es : List Event} → Trace asks p es q → stops_at_failure es ≡ true
Trace-stops here = refl
Trace-stops (next {p} {q} {r} {e} {es} n path) = elim (Bool-cases (is_failed e)) [
  | inl f ↦ ground (arith, f, Trace-stops path, Trace-is_over path (failed-is_over n f))
  | inr f ↦ ground (arith, f, Trace-stops path)
]

module _ (engine : Engine) (cfg : AppConfig) (s : Machine engine) where
  -- The events of a deployment.
  abbrev pub events : List Event
  events = (deploy engine cfg s).1.1

  -- Whatever the providers, the cluster and the steps do, and however the deployment ends, its
  -- events are a path of the specification from its first phase to its last, with the operator
  -- asked exactly if there is a callback.
  pub deploy-Trace : Trace (is_some engine.on_plan) Phases.start events Phases.closed
  deploy-Trace = whole (deploy engine cfg s).0 ((deploy-Follows engine cfg).after s).0
    where
      whole :
          (r : Result Unit)
          → Trace
              (is_some engine.on_plan)
              Phases.start
              events
              (ends (λ _. Phases.closed) Phases.closed r)
          → Trace (is_some engine.on_plan) Phases.start events Phases.closed
      whole (ok a) h = h
      whole (error e) h = h

  -- A deployment bootstraps the servers, reconciles storage and databases, tears down orphans and
  -- routes domains only behind a computed plan with a change of the infrastructure.
  pub deploy-quiet : preceded plans_infra (of_call changes_provider) false events ≡ true
  deploy-quiet = Trace-preceded (is_loud-Marks _) deploy-Trace false (λ h. ground (arith, h))

  -- Where there is a callback, no call of the apply phase, from Bootstrap or Connect on, comes before
  -- the operator's agreement. The builders, the images and ComputePlan, which attaches to read what
  -- is live, come before it.
  pub deploy-asks :
      is_some engine.on_plan ≡ true
      → preceded is_agreement (of_call applies_plan) false events ≡ true
  deploy-asks asked =
      Trace-preceded is_agreed-Marks
        (subst (λ b. Trace b Phases.start events Phases.closed) asked deploy-Trace) false
        (λ h. ground (arith, h))

  -- Each of the steps from the node shell to the crons succeeds before any later one begins: the
  -- namespace, the registry credentials and the secrets are there before the services are.
  pub deploy-in_order :
      (k : ℕ)
      → 1 ≤ k
      → k ≤ 9
      → preceded (did_place k) (of_call (λ c. ltb k (place c))) false events ≡ true
  deploy-in_order k first last =
      Trace-preceded (is_past-Marks k first last _) deploy-Trace false (λ h. ground (arith, h))

  -- A deployment fails exactly if one of its calls failed, and makes no call behind the one that
  -- failed.
  pub deploy-stops :
      (is_error (deploy engine cfg s).0 ≡ any is_failed events) × (stops_at_failure events ≡ true)
  deploy-stops = (sym ((deploy-Follows engine cfg).after s).1, Trace-stops deploy-Trace)

  -- However it ends, a deployment closes each client that it opened once, the cluster's before the
  -- provider's, and leaves none open.
  pub deploy-closes : all_closed false false events ≡ true
  deploy-closes = Trace-all_closed deploy-Trace
