-- ===== src/Deploy/Steps.antt =====
-- Deploy of internal/reconcile/reconcile.go, in the parts between its early returns; the method
-- Resolve of internal/config/config.go; and mergeSources of internal/reconcile/services.go.
use nvoi.Base.{
  Bytes, bytes, Dict, Option, none, some, Bool, true, false, List, [], ◌∷◌, ◌++◌, if◌then◌else◌,
  ◌==◌, ◌&&◌, ◌||◌, not, copy_over, is_empty, length,
}
use nvoi.Naming.{
  Names, role_master, kube_namespace, volume_mount_path, master_firewall, worker_firewall,
}
use nvoi.Naming.Dns.{dns1123}
use nvoi.Config.{AppConfig, ServerDef, VolumeDef}
use nvoi.Validate.{validate_config}
use nvoi.Validate.Checks.{Check, pass, fail}
use nvoi.Plan.Entry.{PlanEntry, changes, has_infra_changes}
use nvoi.Deploy.Action.{
  Result, ok, error, invalid, message, Call, Event, Action, Run, pure, emit, gets, modify, call,
  deferred, ◌>>=◌, ◌>>◌, planned, answered, log, log_pending, close_kube, close_infra, success,
  info, warning,
}
use nvoi.Deploy.Action.{
  validate, resolve_infra, build_capability, provision_builders, builder_targets, build_images,
  compute_plan, on_plan, bootstrap, connect, node_shell, resolve_names, ensure_namespace,
  registries, secrets, storage, databases, read_storage_creds, read_database_urls, services, crons,
  teardown_orphans, tunnel_ingress, route_domains, verify_dns, ingress, in_context,
}
use nvoi.Deploy.Action
use nvoi.Deploy.Engine.{Engine, Session, PendingMigration}

-- The first server with the role master, in the order that the map is visited in.
unfoldable pub master_server_type : Dict ServerDef → Bytes
master_server_type [] = []
master_server_type ((name, s) ∷ servers) =
    if s.role == role_master then s.type else master_server_type servers

-- The values of the later maps win.
unfoldable pub merge_sources :
    (secret_values storage_creds database_creds : Dict Bytes) → Dict Bytes
unfolding copy_over
merge_sources secret_values storage_creds database_creds =
    copy_over (copy_over (copy_over [] secret_values) storage_creds) database_creds

unfoldable pub new_names : (app env : Bytes) → Result Names
new_names app env =
    if is_empty app || is_empty env
    then error (message (bytes "app and env are required"))
    else if dns1123 app && dns1123 env
    then ok (record { app = app; env = env })
    else error (message (bytes "invalid name"))

unfoldable pub resolve_mounts : Names → Dict VolumeDef → Dict VolumeDef
resolve_mounts names [] = []
resolve_mounts names ((name, v) ∷ volumes) =
    (name, record v { mount_path = volume_mount_path names name }) ∷ resolve_mounts names volumes

unfoldable pub resolve_config : AppConfig → Result AppConfig
unfolding new_names resolve_mounts master_firewall worker_firewall
resolve_config cfg = elim (new_names cfg.app cfg.env) [
  | error e ↦ error e
  | ok names ↦ ok (record cfg {
    volumes = resolve_mounts names cfg.volumes;
    master_firewall = master_firewall names;
    worker_firewall = worker_firewall names;
  })
]

abbrev pub check_result : Check → Result Unit
check_result pass = ok tt
check_result (fail name reason) = error (invalid name reason)

abbrev pub build_provider : Bytes → Bytes
build_provider [] = bytes "local"
build_provider (c ∷ s) = c ∷ s

-- The loop of emitPendingMigrations.
unfoldable pub migration_lines : List PendingMigration → List Event
migration_lines [] = []
migration_lines (p ∷ ps) =
    log warning
      (bytes "    databases." ++ p.database ++ bytes "     " ++ p.from ++ bytes " → " ++ p.to)
    ∷ log warning (bytes "    Run: nvoi database migrate " ++ p.database)
    ∷ migration_lines ps

module _ (engine : Engine) where
  abbrev pub Machine : Type 0
  Machine = Session × engine.World

  -- A call of the world alone, and one that reads the context.
  abbrev step : {A : Type 0} → Call → (engine.World → Result A × engine.World) → Action Machine A
  step c op = call c (λ s. ((op s.1).0, (s.0, (op s.1).1)))

  abbrev step_in :
      {A : Type 0} → Call → (Session → engine.World → Result A × engine.World) → Action Machine A
  step_in c op = call c (λ s. ((op s.0 s.1).0, (s.0, (op s.0 s.1).1)))

  abbrev step_pure : {A : Type 0} → Call → Result A → Action Machine A
  step_pure c r = call c (λ s. (r, s))

  abbrev set_session : (Session → Session) → Action Machine Unit
  set_session f = modify (λ s. (f s.0, s.1))

  -- `if cond { … }`
  abbrev pub when : Bool → Action Machine Unit → Action Machine Unit
  when true m = m
  when false m = pure tt

  abbrev pub emit_all : List Event → Action Machine Unit
  emit_all [] = pure tt
  emit_all (e ∷ es) = emit e >> emit_all es

  unfoldable pub emit_pending_migrations : List PendingMigration → Action Machine Unit
  unfolding migration_lines
  emit_pending_migrations [] = pure tt
  emit_pending_migrations (p ∷ ps) =
      emit_all (log_pending (length (p ∷ ps)) ∷ migration_lines (p ∷ ps))

  -- The operator's answer, `true` where nobody is asked.
  unfoldable pub ask :
      Option (List PlanEntry → engine.World → Result Bool × engine.World)
      → List PlanEntry
      → Action Machine Bool
  ask none entries = pure true
  ask (some prompt) entries = do
    proceed ← step on_plan (prompt entries)
    emit (answered proceed)
    pure proceed

  -- The context that the infra provider sees is the one from before the cluster was attached.
  module _ (cfg : AppConfig) (infra : engine.Infra) (before : Session) where
    abbrev infra_step :
        {A : Type 0}
        → Call
        → (engine.Infra → AppConfig → Session → engine.World → Result A × engine.World)
        → Action Machine A
    infra_step c op = step c (op infra cfg before)

    -- The builders that the build provider needs.
    unfoldable pub provision : (requires_builders : Bool) → Action Machine engine.Builders
    provision true = do
      in_context (bytes "provision builders")
          (infra_step provision_builders engine.provision_builders)
      in_context (bytes "builder targets") (infra_step builder_targets engine.builder_targets)
    provision false = pure engine.no_builders

    -- Storage and databases: reconciled on the loud path, read back on the quiet one.
    unfoldable pub gather :
        (loud : Bool)
        → (secret_values : Dict Bytes) → Action Machine (Dict Bytes × List PendingMigration)
    gather true secret_values = do
      storage_creds ← step_in storage (engine.storage cfg)
      (database_creds, pending) ← step_in databases (engine.databases cfg secret_values)
      pure (merge_sources secret_values storage_creds database_creds, pending)
    gather false secret_values = do
      storage_creds ←
          in_context (bytes "read existing storage creds")
            (step_in read_storage_creds (engine.read_storage_creds cfg))
      database_creds ←
          in_context (bytes "read existing database URLs")
            (step_in read_database_urls (engine.read_database_urls cfg))
      pure (merge_sources secret_values storage_creds database_creds, [])

    unfoldable pub enter_publicly : (loud : Bool) → Action Machine Unit
    enter_publicly loud = do
      when loud (do
        infra_step route_domains engine.route_domains
        step_in verify_dns (λ s w. (ok tt, engine.verify_dns cfg s w)))
      step_in ingress (engine.ingress cfg)

    unfoldable pub sweep_orphans : Action Machine Unit
    sweep_orphans = infra_step teardown_orphans engine.teardown_orphans

    unfoldable pub expose : (loud : Bool) → Action Machine Unit
    expose loud =
        if not (is_empty cfg.providers.tunnel)
        then step_in tunnel_ingress (engine.tunnel_ingress cfg)
        else when (engine.has_public_ingress infra && not (is_empty cfg.domains))
            (enter_publicly loud)

    -- From the attached cluster to the end.
    unfoldable pub converge : (loud : Bool) → Action Machine Unit
    converge loud = do
      has_shell ← in_context (bytes "infra.NodeShell") (infra_step node_shell engine.node_shell)
      set_session (λ s. record s { node_shell = has_shell || s.node_shell })
      names ← call resolve_names (λ s. (new_names s.0.app s.0.env, s))
      in_context (bytes "ensure namespace")
          (step ensure_namespace (engine.ensure_namespace (kube_namespace names)))
      in_context (bytes "registries") (step_in registries (engine.registries cfg))
      secret_values ← step_in secrets (engine.secrets cfg)
      (sources, pending) ← gather loud secret_values
      step_in services (engine.services cfg sources)
      step_in crons (engine.crons cfg sources)
      when loud sweep_orphans
      expose loud
      emit_pending_migrations pending

    unfoldable pub attach : (loud : Bool) → Action Machine Unit
    attach loud =
        if loud
        then in_context (bytes "infra.Bootstrap") (infra_step bootstrap engine.bootstrap)
        else emit (log success (bytes "infra unchanged"))
          >> in_context (bytes "infra.Connect") (infra_step connect engine.connect)

    unfoldable pub apply : List PlanEntry → Action Machine Unit
    apply entries = do
      attach (has_infra_changes entries)
      deferred close_kube (do
        set_session (λ s. record s { master_kube = true })
        converge (has_infra_changes entries))

    unfoldable pub decide : List PlanEntry → Action Machine Unit
    decide entries =
        if is_empty (changes entries)
        then emit (log success (bytes "No changes."))
        else ask engine.on_plan entries >>= λ proceed.
            if proceed then apply entries else emit (log info (bytes "aborted"))

    unfoldable pub propose : Action Machine Unit
    propose = do
      entries ← in_context (bytes "plan") (step_in compute_plan (engine.compute_plan cfg))
      emit (planned entries)
      decide entries

    unfoldable pub build_and_propose : Action Machine Unit
    build_and_propose = do
      requires_builders ← in_context (bytes "resolve build capability") (
          step_pure build_capability (engine.build_capability (build_provider cfg.providers.build)))
      builders ← provision requires_builders
      step_in build_images (
          engine.build_images cfg
            (bytes "linux/" ++ engine.arch_for_type infra (master_server_type cfg.servers))
            builders)
      propose

  abbrev pick_provider : AppConfig → Session → Session
  pick_provider cfg s =
      if is_empty s.provider then record s { provider = cfg.providers.infra } else s

  unfoldable pub deploy : AppConfig → Action Machine Unit
  deploy declared = do
    step_pure validate (check_result (validate_config engine.validators declared))
    cfg ← step_pure Action.resolve_config (resolve_config declared)
    modify (λ s. (record (pick_provider cfg s.0) { deploy_hash = engine.now s.1 }, s.1))
    before ← gets (λ s. s.0)
    infra ←
        in_context (bytes "resolve infra provider")
          (step resolve_infra (engine.resolve_infra before))
    deferred close_infra (build_and_propose cfg infra before)
