-- ===== src/Deploy/Order.antt =====
-- What the specification of a deployment says about the order of its events.
use nvoi.Base.{Bool, true, false, List, [], ◌∷◌, ◌||◌, ◌&&◌, not, arith, ◌≡◌, refl}
use nvoi.Plan.Entry.{has_infra_changes}
use nvoi.Deploy.Action.{
  Call, Event, did, failed, planned, answered, log, log_pending, close_kube, close_infra, Result,
  is_error,
}
use nvoi.Deploy.Action
use nvoi.Deploy.Phases
use nvoi.Deploy.Phases.{Early, Stage, Phase, Next, Trace, here, next}

-- The call of an event, whether it succeeded or not.
abbrev pub of_call : (Call → Bool) → Event → Bool
of_call p (did c) = p c
of_call p (failed c) = p c
of_call p (planned es) = false
of_call p (answered b) = false
of_call p (log l t) = false
of_call p (log_pending n) = false
of_call p close_kube = false
of_call p close_infra = false

-- Every event with the effect has one with the cause in front of it.
abbrev pub preceded : (cause effect : Event → Bool) → (seen : Bool) → List Event → Bool
preceded cause effect seen [] = true
preceded cause effect seen (e ∷ es) =
    (seen || not (effect e)) && preceded cause effect (seen || cause e) es

-- A flag on phases: it holds where an event has the effect, and is set by the cause alone.
pub record Marks (asks : Bool) (cause effect : Event → Bool) (flag : Phase → Bool) : Type 0 where
  pub needed :
      (p : Phase) (e : Event) (q : Phase) → Next asks p e q → effect e ≡ true → flag p ≡ true
  pub kept :
      (p : Phase) (e : Event) (q : Phase)
      → Next asks p e q
      → flag q ≡ true
      → (flag p || cause e) ≡ true

pub Trace-preceded :
    {asks : Bool} {cause effect : Event → Bool} {flag : Phase → Bool} {p q : Phase}
    {es : List Event}
    → Marks asks cause effect flag
    → Trace asks p es q
    → (seen : Bool) → (flag p ≡ true → seen ≡ true)
    → preceded cause effect seen es ≡ true
Trace-preceded m here seen s = refl
Trace-preceded {cause = cause} {effect = effect} {flag = flag} m (next {p} {q} {r} {e} {es} n path)
      seen s =
    let rest = Trace-preceded m path (seen || cause e) (λ g. ground (arith, m.kept p e q n g, s)) in
    ground (arith, m.needed p e q n, s, rest)

-- The calls that change what a provider has, the tunnel's apart.
abbrev pub changes_provider : Call → Bool
changes_provider Action.bootstrap = true
changes_provider Action.storage = true
changes_provider Action.databases = true
changes_provider Action.teardown_orphans = true
changes_provider Action.route_domains = true
changes_provider c = false

abbrev pub plans_infra : Event → Bool
plans_infra (planned es) = has_infra_changes es
plans_infra e = false

abbrev early_loud : Early → Bool
early_loud (Phases.proposed es) = has_infra_changes es
early_loud (Phases.asked es) = has_infra_changes es
early_loud (Phases.approved es) = has_infra_changes es
early_loud e = false

abbrev pub is_loud : Phase → Bool
is_loud (Phases.with_infra e) = early_loud e
is_loud (Phases.with_kube loud s) = loud
is_loud p = false

changes_provider-is_loud :
    {asks : Bool} {p q : Phase} {e : Event}
    → Next asks p e q
    → of_call changes_provider e ≡ true
    → is_loud p ≡ true
changes_provider-is_loud (Phases.fails n) h = changes_provider-is_loud n h
changes_provider-is_loud (Phases.breaks n) h = changes_provider-is_loud n h
changes_provider-is_loud (Phases.bootstraps l) h = l
changes_provider-is_loud _ h = ground arith

is_loud-back :
    {asks : Bool} {p q : Phase} {e : Event}
    → Next asks p e q
    → is_loud q ≡ true
    → (is_loud p || plans_infra e) ≡ true
is_loud-back (Phases.bootstraps l) h = ground (arith, l)
is_loud-back _ h = ground arith

pub is_loud-Marks : (asks : Bool) → Marks asks plans_infra (of_call changes_provider) is_loud
is_loud-Marks asks = record {
  needed = λ p e q n. changes_provider-is_loud n;
  kept = λ p e q n. is_loud-back n;
}
