-- ===== src/Deploy/Phases.antt =====
-- The specification of a deployment: the phases that it goes through, and the events that lead
-- from one to the next. What is open in a phase is closed before the end.
use nvoi.Base.{ℕ, Bytes, Bool, true, false, List, [], ◌∷◌, ◌++◌, is_empty, ◌≡◌}
use nvoi.Plan.Entry.{PlanEntry, changes, has_infra_changes}
use nvoi.Deploy.Action.{
  Call, Event, did, failed, planned, answered, log, log_pending, close_kube, close_infra, Level,
}
use nvoi.Deploy.Action.{
  validate, resolve_config, resolve_infra, build_capability, provision_builders, builder_targets,
  build_images, compute_plan, on_plan, bootstrap, connect, node_shell, resolve_names,
  ensure_namespace, registries, secrets, storage, databases, read_storage_creds, read_database_urls,
  services, crons, teardown_orphans, tunnel_ingress, route_domains, verify_dns, ingress,
}

-- With the infra provider resolved, before a cluster is attached.
pub data Early : Type 0 where
  resolved capable provisioned buildable built computed : Early
  proposed asked refused approved : List PlanEntry → Early

-- With the cluster attached.
pub data Stage : Type 0 where
  attached shelled named spaced pulled keyed storing sourced served scheduled swept : Stage
  routed verified exposed : Stage

pub data Phase : Type 0 where
  start valid resolvable : Phase
  with_infra : Early → Phase
  with_kube : (loud : Bool) → Stage → Phase
  kube_done infra_done closed : Phase

-- The answer is asked for where `asks` holds.
pub data Next (asks : Bool) : Phase → Event → Phase → Type 0 where
  validates : Next asks start (did validate) valid
  rejects : Next asks start (failed validate) closed
  resolves_config : Next asks valid (did resolve_config) resolvable
  misses_config : Next asks valid (failed resolve_config) closed
  resolves : Next asks resolvable (did resolve_infra) (with_infra resolved)
  misses : Next asks resolvable (failed resolve_infra) closed
  knows_build : Next asks (with_infra resolved) (did build_capability) (with_infra capable)
  provisions : Next asks (with_infra capable) (did provision_builders) (with_infra provisioned)
  targets : Next asks (with_infra provisioned) (did builder_targets) (with_infra buildable)
  builds_alone : Next asks (with_infra capable) (did build_images) (with_infra built)
  builds : Next asks (with_infra buildable) (did build_images) (with_infra built)
  computes : Next asks (with_infra built) (did compute_plan) (with_infra computed)
  plans :
      {es : List PlanEntry}
      → asks ≡ true
      → is_empty (changes es) ≡ false
      → Next asks (with_infra computed) (planned es) (with_infra (proposed es))
  plans_silently :
      {es : List PlanEntry}
      → asks ≡ false
      → is_empty (changes es) ≡ false
      → Next asks (with_infra computed) (planned es) (with_infra (approved es))
  plans_nothing :
      {es : List PlanEntry}
      → is_empty (changes es) ≡ true
      → Next asks (with_infra computed) (planned es) infra_done
  asks_plan :
      {es : List PlanEntry}
      → Next asks (with_infra (proposed es)) (did on_plan) (with_infra (asked es))
  agrees :
      {es : List PlanEntry}
      → Next asks (with_infra (asked es)) (answered true) (with_infra (approved es))
  declines : {es : List PlanEntry} → Next asks (with_infra (asked es)) (answered false) infra_done
  bootstraps :
      {es : List PlanEntry}
      → has_infra_changes es ≡ true
      → Next asks (with_infra (approved es)) (did bootstrap) (with_kube true attached)
  connects :
      {es : List PlanEntry}
      → has_infra_changes es ≡ false
      → Next asks (with_infra (approved es)) (did connect) (with_kube false attached)
  shells : {l : Bool} → Next asks (with_kube l attached) (did node_shell) (with_kube l shelled)
  names_it : {l : Bool} → Next asks (with_kube l shelled) (did resolve_names) (with_kube l named)
  spaces : {l : Bool} → Next asks (with_kube l named) (did ensure_namespace) (with_kube l spaced)
  pulls : {l : Bool} → Next asks (with_kube l spaced) (did registries) (with_kube l pulled)
  keys_it : {l : Bool} → Next asks (with_kube l pulled) (did secrets) (with_kube l keyed)
  stores : Next asks (with_kube true keyed) (did storage) (with_kube true storing)
  provides : Next asks (with_kube true storing) (did databases) (with_kube true sourced)
  reads : Next asks (with_kube false keyed) (did read_storage_creds) (with_kube false storing)
  reads_urls :
      Next asks (with_kube false storing) (did read_database_urls) (with_kube false sourced)
  serves : {l : Bool} → Next asks (with_kube l sourced) (did services) (with_kube l served)
  schedules : {l : Bool} → Next asks (with_kube l served) (did crons) (with_kube l scheduled)
  sweeps : Next asks (with_kube true scheduled) (did teardown_orphans) (with_kube true swept)
  tunnels : Next asks (with_kube true swept) (did tunnel_ingress) (with_kube true exposed)
  tunnels_quietly :
      Next asks (with_kube false scheduled) (did tunnel_ingress) (with_kube false exposed)
  routes : Next asks (with_kube true swept) (did route_domains) (with_kube true routed)
  verifies : Next asks (with_kube true routed) (did verify_dns) (with_kube true verified)
  exposes : Next asks (with_kube true verified) (did ingress) (with_kube true exposed)
  exposes_quietly : Next asks (with_kube false scheduled) (did ingress) (with_kube false exposed)
  finishes : {l : Bool} → Next asks (with_kube l exposed) close_kube infra_done
  finishes_inside : Next asks (with_kube true swept) close_kube infra_done
  finishes_quietly : Next asks (with_kube false scheduled) close_kube infra_done
  fails :
      {e : Early} {q : Phase} {c : Call}
      → Next asks (with_infra e) (did c) q
      → Next asks (with_infra e) (failed c) infra_done
  breaks :
      {l : Bool} {s : Stage} {q : Phase} {c : Call}
      → Next asks (with_kube l s) (did c) q
      → Next asks (with_kube l s) (failed c) kube_done
  releases : Next asks kube_done close_kube infra_done
  ends : Next asks infra_done close_infra closed
  prints : {p : Phase} {l : Level} {t : Bytes} → Next asks p (log l t) p
  counts : {p : Phase} {n : ℕ} → Next asks p (log_pending n) p

pub data Trace (asks : Bool) : Phase → List Event → Phase → Type 0 where
  here : {p : Phase} → Trace asks p [] p
  next :
      {p q r : Phase} {e : Event} {es : List Event}
      → Next asks p e q
      → Trace asks q es r
      → Trace asks p (e ∷ es) r

pub Trace-append :
    {asks : Bool} {p q r : Phase} {es fs : List Event}
    → Trace asks p es q
    → Trace asks q fs r
    → Trace asks p (es ++ fs) r
Trace-append here k = k
Trace-append (next n h) k = next n (Trace-append h k)
