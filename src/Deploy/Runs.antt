-- ===== src/Deploy/Runs.antt =====
-- Every run of Deploy is a path of the specification.
use nvoi.Base.{
  is_some, Bytes, bytes, Dict, Option, none, some, Bool, true, false, List, [], ◌∷◌, ◌&&◌, ◌||◌,
  not, is_empty, ◌≡◌, refl, if◌then◌else◌,
}
use nvoi.Config.{AppConfig}
use nvoi.Plan.Entry.{PlanEntry, changes, has_infra_changes}
use nvoi.Deploy.Action.{
  did, failed, build_images, log, log_pending, close_kube, close_infra, emit, planned, answered,
  call, tunnel_ingress, ◌>>=◌, info, success, Result,
}
use nvoi.Deploy.Engine.{Engine, Session, PendingMigration}
use nvoi.Deploy.Steps.{
  Machine, migration_lines, emit_all, emit_pending_migrations, when, provision, gather,
  enter_publicly, sweep_orphans, expose, converge, attach, apply, ask, decide, propose,
  build_and_propose, deploy,
}
use nvoi.Deploy.Phases
use nvoi.Deploy.Phases.{Phase, Stage, Next, Trace, here, next}
use nvoi.Deploy.Follows.{
  Follows, Follows-bind, Follows-pure, Follows-modify, Follows-gets, Follows-emit, Follows-call,
  Follows-deferred, Follows-in_context,
}

-- The last stage with the cluster attached.
abbrev last_stage : (public loud : Bool) → Stage
last_stage true loud = Phases.exposed
last_stage false true = Phases.swept
last_stage false false = Phases.scheduled

abbrev after_provision : (requires_builders : Bool) → Phase
after_provision true = Phases.with_infra Phases.buildable
after_provision false = Phases.with_infra Phases.capable

-- The phase after the plan was computed, and the one after an answer.
abbrev put_phase : (asked : Bool) (es : List PlanEntry) → Phase
put_phase true es = Phases.with_infra (Phases.proposed es)
put_phase false es = Phases.with_infra (Phases.approved es)

abbrev answer_phase : List PlanEntry → Bool → Phase
answer_phase es true = Phases.with_infra (Phases.approved es)
answer_phase es false = Phases.infra_done

agrees_or_declines :
    (asks : Bool) (es : List PlanEntry) (b : Bool)
    → Next asks (Phases.with_infra (Phases.asked es)) (answered b) (answer_phase es b)
agrees_or_declines asks es true = Phases.agrees
agrees_or_declines asks es false = Phases.declines

module _ (engine : Engine) where
  migration_lines-Follows :
      (asks : Bool) (p e : Phase) (ps : List PendingMigration)
      → Follows asks p (λ _. p) e (emit_all engine (migration_lines ps))
  unfolding migration_lines
  migration_lines-Follows asks p e [] = Follows-pure tt
  migration_lines-Follows asks p e (m ∷ ps) =
      Follows-bind (λ _. p) (Follows-emit (log _ _) Phases.prints refl)
        λ _.
          Follows-bind (λ _. p) (Follows-emit (log _ _) Phases.prints refl)
            λ _. migration_lines-Follows asks p e ps

  emit_pending_migrations-Follows :
      (asks : Bool) (p e : Phase) (ps : List PendingMigration)
      → Follows asks p (λ _. p) e (emit_pending_migrations engine ps)
  unfolding emit_pending_migrations
  emit_pending_migrations-Follows asks p e [] = Follows-pure tt
  emit_pending_migrations-Follows asks p e (m ∷ ps) =
      Follows-bind (λ _. p) (Follows-emit (log_pending _) Phases.counts refl)
        λ _. migration_lines-Follows asks p e (m ∷ ps)

  module _ (asks : Bool) (cfg : AppConfig) (infra : engine.Infra) (before : Session) where
    provision-Follows :
        (b : Bool)
        → Follows asks
            (Phases.with_infra Phases.capable)
            (λ _. after_provision b)
            Phases.infra_done
            (provision engine cfg infra before b)
    unfolding provision
    provision-Follows false = Follows-pure _
    provision-Follows true =
        Follows-bind (λ _. Phases.with_infra Phases.provisioned)
          (Follows-in_context _
            (Follows-call _ _ Phases.provisions (Phases.fails Phases.provisions)))
          λ _. Follows-in_context _ (Follows-call _ _ Phases.targets (Phases.fails Phases.targets))

    gather-Follows :
        (loud : Bool) (values : Dict Bytes)
        → Follows asks
            (Phases.with_kube loud Phases.keyed)
            (λ _. Phases.with_kube loud Phases.sourced)
            Phases.kube_done
            (gather engine cfg infra before loud values)
    unfolding gather
    gather-Follows true values =
        Follows-bind (λ _. Phases.with_kube true Phases.storing)
          (Follows-call _ _ Phases.stores (Phases.breaks Phases.stores))
          λ _.
            Follows-bind (λ _. Phases.with_kube true Phases.sourced)
              (Follows-call _ _ Phases.provides (Phases.breaks Phases.provides)) λ _. Follows-pure _
    gather-Follows false values =
        Follows-bind (λ _. Phases.with_kube false Phases.storing)
          (Follows-in_context _ (Follows-call _ _ Phases.reads (Phases.breaks Phases.reads)))
          λ _.
            Follows-bind (λ _. Phases.with_kube false Phases.sourced)
              (Follows-in_context _
                (Follows-call _ _ Phases.reads_urls (Phases.breaks Phases.reads_urls)))
              λ _. Follows-pure _

    abbrev is_exposed : Bool
    is_exposed =
        not (is_empty cfg.providers.tunnel)
        || (engine.has_public_ingress infra && not (is_empty cfg.domains))

    -- The two ways in, for each answer to their conditions.
    expose_if-Follows :
        (tunnel public loud : Bool)
        → Follows asks
            (Phases.with_kube loud (last_stage false loud))
            (λ _. Phases.with_kube loud (last_stage (tunnel || public) loud))
            Phases.kube_done
            (if tunnel
              then call tunnel_ingress (λ (s : Machine engine). (
                (engine.tunnel_ingress cfg s.0 s.1).0,
                (s.0, (engine.tunnel_ingress cfg s.0 s.1).1),
              ))
              else when engine public (enter_publicly engine cfg infra before loud))
    unfolding enter_publicly
    expose_if-Follows true public true =
        Follows-call _ _ Phases.tunnels (Phases.breaks Phases.tunnels)
    expose_if-Follows true public false =
        Follows-call _ _ Phases.tunnels_quietly (Phases.breaks Phases.tunnels_quietly)
    expose_if-Follows false false loud = Follows-pure tt
    expose_if-Follows false true true =
        Follows-bind (λ _. Phases.with_kube true Phases.verified)
          (Follows-bind (λ _. Phases.with_kube true Phases.routed)
            (Follows-call _ _ Phases.routes (Phases.breaks Phases.routes))
            λ _. Follows-call _ _ Phases.verifies (Phases.breaks Phases.verifies))
          λ _. Follows-call _ _ Phases.exposes (Phases.breaks Phases.exposes)
    expose_if-Follows false true false =
        Follows-bind (λ _. Phases.with_kube false Phases.scheduled) (Follows-pure tt)
          λ _. Follows-call _ _ Phases.exposes_quietly (Phases.breaks Phases.exposes_quietly)

    expose-Follows :
        (loud : Bool)
        → Follows asks
            (Phases.with_kube loud (last_stage false loud))
            (λ _. Phases.with_kube loud (last_stage is_exposed loud))
            Phases.kube_done
            (expose engine cfg infra before loud)
    unfolding expose
    expose-Follows loud = expose_if-Follows _ _ loud

    sweep-Follows :
        (loud : Bool)
        → Follows asks
            (Phases.with_kube loud Phases.scheduled)
            (λ _. Phases.with_kube loud (last_stage false loud))
            Phases.kube_done
            (when engine loud (sweep_orphans engine cfg infra before))
    unfolding sweep_orphans
    sweep-Follows false = Follows-pure tt
    sweep-Follows true = Follows-call _ _ Phases.sweeps (Phases.breaks Phases.sweeps)

    converge-Follows :
        (loud : Bool)
        → Follows asks
            (Phases.with_kube loud Phases.attached)
            (λ _. Phases.with_kube loud (last_stage is_exposed loud))
            Phases.kube_done
            (converge engine cfg infra before loud)
    unfolding converge
    converge-Follows loud =
        Follows-bind (λ _. Phases.with_kube loud Phases.shelled)
          (Follows-in_context _ (Follows-call _ _ Phases.shells (Phases.breaks Phases.shells)))
          λ _.
            Follows-bind (λ _. Phases.with_kube loud Phases.shelled) (Follows-modify _)
              λ _.
                Follows-bind (λ _. Phases.with_kube loud Phases.named)
                  (Follows-call _ _ Phases.names_it (Phases.breaks Phases.names_it))
                  λ _.
                    Follows-bind (λ _. Phases.with_kube loud Phases.spaced)
                      (Follows-in_context _
                        (Follows-call _ _ Phases.spaces (Phases.breaks Phases.spaces)))
                      λ _.
                        Follows-bind (λ _. Phases.with_kube loud Phases.pulled)
                          (Follows-in_context _
                            (Follows-call _ _ Phases.pulls (Phases.breaks Phases.pulls)))
                          λ _.
                            Follows-bind (λ _. Phases.with_kube loud Phases.keyed)
                              (Follows-call _ _ Phases.keys_it (Phases.breaks Phases.keys_it))
                              λ values.
                                Follows-bind (λ _. Phases.with_kube loud Phases.sourced)
                                  (gather-Follows loud values)
                                  λ _.
                                    Follows-bind (λ _. Phases.with_kube loud Phases.served)
                                      (Follows-call _ _ Phases.serves (Phases.breaks Phases.serves))
                                      λ _.
                                        Follows-bind (λ _. Phases.with_kube loud Phases.scheduled)
                                          (Follows-call _ _ Phases.schedules
                                            (Phases.breaks Phases.schedules))
                                          λ _.
                                            Follows-bind
                                              (λ _. Phases.with_kube loud (last_stage false loud))
                                              (sweep-Follows loud)
                                              λ _.
                                                Follows-bind
                                                  (λ _.
                                                    Phases.with_kube loud
                                                      (last_stage is_exposed loud))
                                                  (expose-Follows loud)
                                                  λ _. emit_pending_migrations-Follows asks _ _ _

    attach_if-Follows :
        (es : List PlanEntry) (loud : Bool)
        → has_infra_changes es ≡ loud
        → Follows asks
            (Phases.with_infra (Phases.approved es))
            (λ _. Phases.with_kube loud Phases.attached)
            Phases.infra_done
            (attach engine cfg infra before loud)
    unfolding attach
    attach_if-Follows es true h =
        Follows-in_context _
          (Follows-call _ _ (Phases.bootstraps h) (Phases.fails (Phases.bootstraps h)))
    attach_if-Follows es false h =
        Follows-bind (λ _. Phases.with_infra (Phases.approved es))
          (Follows-emit (log _ _) Phases.prints refl)
          λ _.
            Follows-in_context _
              (Follows-call _ _ (Phases.connects h) (Phases.fails (Phases.connects h)))

    last-closes :
        (public loud : Bool)
        → Next asks (Phases.with_kube loud (last_stage public loud)) close_kube Phases.infra_done
    last-closes true loud = Phases.finishes
    last-closes false true = Phases.finishes_inside
    last-closes false false = Phases.finishes_quietly

    apply-Follows :
        (es : List PlanEntry)
        → Follows asks
            (Phases.with_infra (Phases.approved es))
            (λ _. Phases.infra_done)
            Phases.infra_done
            (apply engine cfg infra before es)
    unfolding apply
    apply-Follows es =
        Follows-bind (λ _. Phases.with_kube (has_infra_changes es) Phases.attached)
          (attach_if-Follows es (has_infra_changes es) refl)
          λ _.
            Follows-deferred Phases.infra_done close_kube _
              (Follows-bind (λ _. Phases.with_kube (has_infra_changes es) Phases.attached)
                (Follows-modify _) λ _. converge-Follows (has_infra_changes es))
              (λ _. last-closes is_exposed (has_infra_changes es)) Phases.releases refl

    proceed-Follows :
        (es : List PlanEntry) (b : Bool)
        → Follows asks
            (answer_phase es b)
            (λ _. Phases.infra_done)
            Phases.infra_done
            (if b then apply engine cfg infra before es else emit (log info (bytes "aborted")))
    proceed-Follows es true = apply-Follows es
    proceed-Follows es false = Follows-emit (log _ _) Phases.prints refl

  ask-Follows :
      (o : Option (List PlanEntry → engine.World → Result Bool × engine.World))
      (es : List PlanEntry)
      → Follows
          (is_some o)
          (put_phase (is_some o) es)
          (answer_phase es)
          Phases.infra_done
          (ask engine o es)
  unfolding ask
  ask-Follows none es = Follows-pure true
  ask-Follows (some prompt) es =
      Follows-bind (λ _. Phases.with_infra (Phases.asked es))
        (Follows-call _ _ Phases.asks_plan (Phases.fails Phases.asks_plan))
        λ proceed.
          Follows-bind (λ _. answer_phase es proceed)
            (Follows-emit _ (agrees_or_declines _ es proceed) refl) λ _. Follows-pure proceed

  module _ (cfg : AppConfig) (infra : engine.Infra) (before : Session) where
    -- The phase after the plan is known.
    abbrev plan_phase : (asks : Bool) → List PlanEntry → (is_unchanged : Bool) → Phase
    plan_phase asks es true = Phases.infra_done
    plan_phase asks es false = put_phase asks es

    plans_it :
        (asks : Bool) (es : List PlanEntry) (b : Bool)
        → is_empty (changes es) ≡ b
        → Next asks (Phases.with_infra Phases.computed) (planned es) (plan_phase asks es b)
    plans_it asks es true h = Phases.plans_nothing h
    plans_it true es false h = Phases.plans refl h
    plans_it false es false h = Phases.plans_silently refl h

    decide_if-Follows :
        (es : List PlanEntry) (b : Bool)
        → Follows
            (is_some engine.on_plan)
            (plan_phase (is_some engine.on_plan) es b)
            (λ _. Phases.infra_done)
            Phases.infra_done
            (if b
              then emit (log success (bytes "No changes."))
              else ask engine engine.on_plan es >>= λ proceed.
                  if proceed
                  then apply engine cfg infra before es
                  else emit (log info (bytes "aborted")))
    decide_if-Follows es true = Follows-emit (log _ _) Phases.prints refl
    decide_if-Follows es false =
        Follows-bind (answer_phase es) (ask-Follows engine.on_plan es)
          λ proceed. proceed-Follows (is_some engine.on_plan) cfg infra before es proceed

    propose-Follows :
        Follows
          (is_some engine.on_plan)
          (Phases.with_infra Phases.built)
          (λ _. Phases.infra_done)
          Phases.infra_done
          (propose engine cfg infra before)
    unfolding propose decide
    propose-Follows =
        Follows-bind (λ _. Phases.with_infra Phases.computed)
          (Follows-in_context _ (Follows-call _ _ Phases.computes (Phases.fails Phases.computes)))
          λ es.
            Follows-bind (λ _. plan_phase (is_some engine.on_plan) es (is_empty (changes es)))
              (Follows-emit _ (plans_it _ es (is_empty (changes es)) refl) refl)
              λ _. decide_if-Follows es (is_empty (changes es))

    builds_after :
        (asks b : Bool)
        → Next asks (after_provision b) (did build_images) (Phases.with_infra Phases.built)
    builds_after asks true = Phases.builds
    builds_after asks false = Phases.builds_alone

    builds_not :
        (asks b : Bool) → Next asks (after_provision b) (failed build_images) Phases.infra_done
    builds_not asks true = Phases.fails Phases.builds
    builds_not asks false = Phases.fails Phases.builds_alone

    build_and_propose-Follows :
        Follows
          (is_some engine.on_plan)
          (Phases.with_infra Phases.resolved)
          (λ _. Phases.infra_done)
          Phases.infra_done
          (build_and_propose engine cfg infra before)
    unfolding build_and_propose
    build_and_propose-Follows =
        Follows-bind (λ _. Phases.with_infra Phases.capable)
          (Follows-in_context _
            (Follows-call _ _ Phases.knows_build (Phases.fails Phases.knows_build)))
          λ b.
            Follows-bind (λ _. after_provision b)
              (provision-Follows (is_some engine.on_plan) cfg infra before b)
              λ _.
                Follows-bind (λ _. Phases.with_infra Phases.built)
                  (Follows-call _ _ (builds_after _ b) (builds_not _ b)) λ _. propose-Follows

  pub deploy-Follows :
      (cfg : AppConfig)
      → Follows
          (is_some engine.on_plan)
          Phases.start
          (λ _. Phases.closed)
          Phases.closed
          (deploy engine cfg)
  unfolding deploy
  deploy-Follows cfg =
      Follows-bind (λ _. Phases.valid) (Follows-call _ _ Phases.validates Phases.rejects)
        λ _.
          Follows-bind (λ _. Phases.resolvable)
            (Follows-call _ _ Phases.resolves_config Phases.misses_config)
            λ resolved.
              Follows-bind (λ _. Phases.resolvable) (Follows-modify _)
                λ _.
                  Follows-bind (λ _. Phases.resolvable) (Follows-gets _)
                    λ before.
                      Follows-bind (λ _. Phases.with_infra Phases.resolved)
                        (Follows-in_context _ (Follows-call _ _ Phases.resolves Phases.misses))
                        λ infra.
                          Follows-deferred Phases.closed close_infra _
                            (build_and_propose-Follows resolved infra before) (λ _. Phases.ends)
                            Phases.ends refl
