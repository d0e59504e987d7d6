-- ===== src/Workload/Staged.antt =====
-- The services of internal/reconcile/services.go are set behind what they depend on.
use nvoi.Base.{
  Bytes, Dict, Bool, true, false, List, [], ◌∷◌, contains, lookup, HasDistinctKeys, ◌≡◌, refl, sym,
  subst, not, is_empty, append-nil,
}
use nvoi.Config.{AppConfig, ServiceDef}
use nvoi.Image.{ImageResult, resolved, resolve_image}
use nvoi.Topsort.{topo_sort_services}
use nvoi.Topsort.Laws.{DependsOn, IsOrdered, topo_sort-IsOrdered}
use nvoi.Kube.Secrets.{Outcome, done}
use nvoi.Workload.Credentials.{Collected, collected, unresolved, workload_credentials}
use nvoi.Workload.Apply.{
  Cluster, Request, Step, set, waited, finished, failed, Failure, Env, env, bad_env, Applied,
  continue, attempt, on_image, on_secret, on_credentials, on_plain_env, apply_service,
  apply_services, apply_all_services, or_zero_service, service_request, set_failed, plain_env,
  rollout_failed, workload_kind,
}

module _ (services : Dict ServiceDef) where
  -- Every service that is set comes behind the rollouts of the services that it depends on; those
  -- of `ready` were waited for before.
  abbrev pub IsStaged : (ready : List Bytes) → List Step → Type 0
  IsStaged ready [] = Unit
  IsStaged ready (set req ∷ steps) =
      ((d : Bytes) → DependsOn services req.name d → contains d ready ≡ true) × IsStaged ready steps
  IsStaged ready (waited n ∷ steps) = IsStaged (n ∷ ready) steps

module _ (cluster : Cluster) (services : Dict ServiceDef) (name : Bytes) (ready : List Bytes)
    (free : (d : Bytes) → DependsOn services name d → contains d ready ≡ true) where
  -- What one round does, and what may follow it.
  record Round (a : Applied cluster) : Type 0 where
    follow :
        (f : cluster.State → Applied cluster)
        → ((t : cluster.State) → IsStaged services (name ∷ ready) (f t).1.1)
        → IsStaged services ready (continue cluster a f).1.1

  waited-Round :
      (req : Request) (x : Failure) (q : Bool × cluster.State)
      → req.name ≡ name
      → Round (
        (attempt cluster (waited req.name) x q).0,
        (
          (attempt cluster (waited req.name) x q).1.0,
          set req ∷ (attempt cluster (waited req.name) x q).1.1,
        ),
      )
  waited-Round req x (true, t) e = record {
    follow = λ f h. (
      λ d k. free d (subst (λ n. DependsOn services n d) e k),
      subst (λ n. IsStaged services (n ∷ ready) (f t).1.1) (sym e) (h t),
    );
  }
  waited-Round req x (false, t) e = record {
    follow = λ f h. (λ d k. free d (subst (λ n. DependsOn services n d) e k), tt);
  }

  stop-Round : (x : Failure) (s : cluster.State) → Round (failed x, (s, []))
  stop-Round x s = record { follow = λ f h. tt }

  set-Round :
      (req : Request) (x : Failure) (p : Bool × cluster.State) (y : Failure)
      (w : cluster.State → Bool × cluster.State)
      → req.name ≡ name
      → Round (
          continue cluster
            (attempt cluster (set req) x p)
            (λ t. attempt cluster (waited req.name) y (w t)))
  set-Round req x (true, s) y w e = waited-Round req y (w s) e
  set-Round req x (false, s) y w e = stop-Round x s

  module _ (cfg : AppConfig) (sources : Dict Bytes) (hash : Bytes) where
    on_image-Round :
        (svc : ServiceDef) (env_vars refs : List Bytes) (r : ImageResult) (s : cluster.State)
        → Round (on_image cluster cfg sources hash name svc env_vars refs r s)
    on_image-Round svc env_vars refs (resolved image) s =
        let req = service_request cfg name svc image env_vars refs in
        set-Round req (set_failed name) (cluster.service_set req s) (rollout_failed name)
          (cluster.wait_rollout name (workload_kind svc.volumes) (not (is_empty svc.health))) refl
    on_image-Round svc env_vars refs r s = stop-Round _ s

    on_secret-Round :
        (o : Outcome × cluster.State) (f : cluster.State → Applied cluster)
        → ((t : cluster.State) → Round (f t))
        → Round (on_secret cluster cfg sources hash name o f)
    on_secret-Round (done, s) f h = h s
    on_secret-Round (outcome, s) f h = stop-Round _ s

    on_credentials-Round :
        (c : Collected) (s : cluster.State) (f : List Bytes → cluster.State → Applied cluster)
        → ((refs : List Bytes) (t : cluster.State) → Round (f refs t))
        → Round (on_credentials cluster cfg sources hash name c s f)
    on_credentials-Round (unresolved x) s f h = stop-Round _ s
    on_credentials-Round (collected c) s f h = on_secret-Round _ (f c.refs) (h c.refs)

    on_plain_env-Round :
        (e : Env) (s : cluster.State) (f : List Bytes → Applied cluster)
        → ((es : List Bytes) → Round (f es))
        → Round (on_plain_env cluster cfg sources hash name e s f)
    on_plain_env-Round (env es) s f h = h es
    on_plain_env-Round (bad_env x) s f h = stop-Round _ s

    apply_service-Round :
        (svc : ServiceDef) (s : cluster.State)
        → Round (apply_service cluster cfg sources hash name svc s)
    unfolding apply_service
    apply_service-Round svc s = on_plain_env-Round (plain_env sources svc.env) s _ λ env_vars.
        on_credentials-Round (workload_credentials sources svc.secrets svc.storage svc.databases) s
          _ λ refs t. on_image-Round svc env_vars refs (resolve_image cfg name hash) t

-- A last part without steps.
last-steps :
    (cluster : Cluster) (a : Applied cluster) (after : cluster.State → cluster.State)
    → (continue cluster a (λ t. (finished, (after t, [])))).1.1 ≡ a.1.1
last-steps cluster (finished, (s, steps)) after = append-nil steps
last-steps cluster (failed x, (s, steps)) after = refl

module _ (cluster : Cluster) (cfg : AppConfig) (sources : Dict Bytes) (hash : Bytes) where
  apply_services-IsStaged :
      (ready names : List Bytes) (s : cluster.State)
      → IsOrdered cfg.services ready names
      → IsStaged cfg.services ready (apply_services cluster cfg sources hash names s).1.1
  unfolding apply_services
  apply_services-IsStaged ready [] s h = tt
  apply_services-IsStaged ready (n ∷ names) s (free, h) =
      (apply_service-Round cluster cfg.services n ready free cfg sources hash
          (or_zero_service (lookup n cfg.services)) s).follow
        (apply_services cluster cfg sources hash names)
        (λ t. apply_services-IsStaged (n ∷ ready) names t h)

  -- Where the keys of the service map are distinct, Services sets a service only behind the rollouts
  -- of all services that it depends on, whatever the cluster answers.
  pub apply_all_services-IsStaged :
      HasDistinctKeys cfg.services
      → (s : cluster.State)
      → IsStaged cfg.services [] (apply_all_services cluster cfg sources hash s).1.1
  unfolding apply_all_services
  apply_all_services-IsStaged distinct s =
      subst (IsStaged cfg.services [])
        (sym (
          last-steps cluster
            (apply_services cluster cfg sources hash (topo_sort_services cfg.services) s) _))
        (apply_services-IsStaged [] (topo_sort_services cfg.services) s
          (topo_sort-IsOrdered cfg.services distinct))
