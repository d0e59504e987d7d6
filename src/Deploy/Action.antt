-- ===== src/Deploy/Action.antt =====
-- A computation that may fail, over a state, which records what it does: the calls that
-- internal/reconcile/reconcile.go makes, how each ended, and what it prints.
use nvoi.Base.{ℕ, Bytes, Bool, true, false, List, [], ◌∷◌, ◌++◌}
use nvoi.Validate.Checks.{Reason}
use nvoi.Plan.Entry.{PlanEntry}

pub data Error : Type 0 where
  invalid : (name : Bytes) (reason : Reason) → Error
  message : Bytes → Error
  wrapped : (context : Bytes) → Error → Error

pub data Result (A : Type 0) : Type 0 where
  ok : A → Result A
  error : Error → Result A

abbrev pub wrap : {A : Type 0} → Bytes → Result A → Result A
wrap context (ok a) = ok a
wrap context (error e) = error (wrapped context e)

abbrev pub is_error : {A : Type 0} → Result A → Bool
is_error (ok a) = false
is_error (error e) = true

pub data Call : Type 0 where
  validate resolve_config resolve_infra build_capability provision_builders builder_targets : Call
  build_images compute_plan on_plan bootstrap connect node_shell resolve_names ensure_namespace :
      Call
  registries secrets storage databases read_storage_creds read_database_urls : Call
  services crons teardown_orphans tunnel_ingress route_domains verify_dns ingress : Call

pub data Level : Type 0 where
  success info warning : Level

pub data Event : Type 0 where
  did failed : Call → Event
  planned : List PlanEntry → Event
  answered : Bool → Event
  log : Level → Bytes → Event
  log_pending : ℕ → Event
  close_kube close_infra : Event

-- How a computation ends, with the state that it leaves and the events, the first at the front.
abbrev pub Run : Type 0 → Type 0 → Type 0
Run S A = Result A × (S × List Event)

abbrev pub Action : Type 0 → Type 0 → Type 0
Action S A = S → Run S A

module _ {S : Type 0} where
  abbrev pub pure : {A : Type 0} → A → Action S A
  pure a s = (ok a, (s, []))

  abbrev pub prepend : {A : Type 0} → List Event → Run S A → Run S A
  prepend es (r, (s, fs)) = (r, (s, es ++ fs))

  unfoldable pub then_run : {A B : Type 0} → Run S A → (A → Action S B) → Run S B
  then_run (ok a, (s, es)) f = prepend es (f a s)
  then_run (error e, (s, es)) f = (error e, (s, es))

  -- An early return on an error.
  infixl 5 ◌>>=◌ ◌>>◌
  abbrev pub ◌>>=◌ : {A B : Type 0} → Action S A → (A → Action S B) → Action S B
  ◌>>=◌ m f s = then_run (m s) f

  abbrev pub ◌>>◌ : {A B : Type 0} → Action S A → Action S B → Action S B
  m >> k = m >>= λ _. k

  abbrev pub emit : Event → Action S Unit
  emit e s = (ok tt, (s, e ∷ []))

  abbrev pub modify : (S → S) → Action S Unit
  modify f s = (ok tt, (f s, []))

  abbrev pub gets : {A : Type 0} → (S → A) → Action S A
  gets f s = (ok (f s), (s, []))

  abbrev pub record_call : {A : Type 0} → Call → Result A × S → Run S A
  record_call c (ok a, s) = (ok a, (s, did c ∷ []))
  record_call c (error e, s) = (error e, (s, failed c ∷ []))

  unfoldable pub call : {A : Type 0} → Call → (S → Result A × S) → Action S A
  call c op s = record_call c (op s)

  -- `defer`: the event comes behind everything else, however the computation ends.
  abbrev pub add_last : {A : Type 0} → Event → Run S A → Run S A
  add_last e (r, (s, es)) = (r, (s, es ++ e ∷ []))

  unfoldable pub deferred : {A : Type 0} → Event → Action S A → Action S A
  deferred e m s = add_last e (m s)

  -- `fmt.Errorf("context: %w", err)`
  abbrev pub in_context : {A : Type 0} → Bytes → Action S A → Action S A
  in_context context m s = (wrap context (m s).0, (m s).1)
