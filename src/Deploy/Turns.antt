-- ===== src/Deploy/Turns.antt =====
-- The order of the steps on the cluster, and the operator's answer before them.
use nvoi.Base.{Bool, true, false, ◌||◌, arith, ◌≡◌, leb, ltb, nat_eq, ◌≤◌, ℕ}
use nvoi.Deploy.Action.{Call, Event, did, answered}
use nvoi.Deploy.Action
use nvoi.Deploy.Phases
use nvoi.Deploy.Phases.{Stage, Phase, Next}
use nvoi.Deploy.Order.{of_call, Marks}

-- The calls of the apply phase: Bootstrap or Connect, and whatever Deploy calls on the cluster that
-- they attach. ComputePlan is not one: it attaches for itself, to read what is live.
abbrev pub applies_plan : Call → Bool
applies_plan Action.validate = false
applies_plan Action.resolve_config = false
applies_plan Action.resolve_infra = false
applies_plan Action.build_capability = false
applies_plan Action.provision_builders = false
applies_plan Action.builder_targets = false
applies_plan Action.build_images = false
applies_plan Action.compute_plan = false
applies_plan Action.on_plan = false
applies_plan c = true

abbrev pub is_agreement : Event → Bool
is_agreement (answered b) = b
is_agreement e = false

abbrev pub is_agreed : Phase → Bool
is_agreed (Phases.with_infra (Phases.approved es)) = true
is_agreed (Phases.with_kube loud s) = true
is_agreed p = false

applies_plan-is_agreed :
    {asks : Bool} {p q : Phase} {e : Event}
    → Next asks p e q
    → of_call applies_plan e ≡ true
    → is_agreed p ≡ true
applies_plan-is_agreed (Phases.fails n) h = applies_plan-is_agreed n h
applies_plan-is_agreed (Phases.breaks n) h = applies_plan-is_agreed n h
applies_plan-is_agreed _ h = ground arith

is_agreed-back :
    {p q : Phase} {e : Event}
    → Next true p e q
    → is_agreed q ≡ true
    → (is_agreed p || is_agreement e) ≡ true
is_agreed-back (Phases.plans_silently s _) h = ground (arith, s)
is_agreed-back _ h = ground arith

pub is_agreed-Marks : Marks true is_agreement (of_call applies_plan) is_agreed
is_agreed-Marks = record {
  needed = λ p e q n. applies_plan-is_agreed n;
  kept = λ p e q n. is_agreed-back n;
}

-- The place of a call in the order of the steps on the cluster, and how far a stage is in it.
abbrev pub place : Call → ℕ
place Action.node_shell = 1
place Action.resolve_names = 2
place Action.ensure_namespace = 3
place Action.registries = 4
place Action.secrets = 5
place Action.storage = 6
place Action.read_storage_creds = 6
place Action.databases = 7
place Action.read_database_urls = 7
place Action.services = 8
place Action.crons = 9
place Action.teardown_orphans = 10
place Action.route_domains = 11
place Action.verify_dns = 12
place Action.ingress = 13
place Action.tunnel_ingress = 13
place c = 0

abbrev reached : Stage → ℕ
reached Phases.attached = 0
reached Phases.shelled = 1
reached Phases.named = 2
reached Phases.spaced = 3
reached Phases.pulled = 4
reached Phases.keyed = 5
reached Phases.storing = 6
reached Phases.sourced = 7
reached Phases.served = 8
reached Phases.scheduled = 9
reached Phases.swept = 10
reached Phases.routed = 11
reached Phases.verified = 12
reached Phases.exposed = 13

abbrev pub did_place : ℕ → Event → Bool
did_place k (did c) = nat_eq k (place c)
did_place k e = false

abbrev pub is_past : ℕ → Phase → Bool
is_past k (Phases.with_kube loud s) = leb k (reached s)
is_past k p = false

module _ (k : ℕ) (first : 1 ≤ k) (last : k ≤ 9) where
  place-is_past :
      {asks : Bool} {p q : Phase} {e : Event}
      → Next asks p e q
      → of_call (λ c. ltb k (place c)) e ≡ true
      → is_past k p ≡ true
  place-is_past (Phases.fails n) h = place-is_past n h
  place-is_past (Phases.breaks n) h = place-is_past n h
  place-is_past _ h = ground (arith, first, last)

  is_past-back :
      {asks : Bool} {p q : Phase} {e : Event}
      → Next asks p e q
      → is_past k q ≡ true
      → (is_past k p || did_place k e) ≡ true
  is_past-back Phases.shells h = ground (arith, first, last)
  is_past-back _ h = ground (arith, first, last)

  pub is_past-Marks :
      (asks : Bool) → Marks asks (did_place k) (of_call (λ c. ltb k (place c))) (is_past k)
  is_past-Marks asks = record {
    needed = λ p e q n. place-is_past n;
    kept = λ p e q n. is_past-back n;
  }
