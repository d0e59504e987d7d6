-- ===== src/Validate/Mounted.antt =====
-- Where ResolveServers of internal/reconcile/helpers.go places services by their mounts, and what the
-- checks of internal/reconcile/validate.go on placement see of it.
use nvoi.Base.{Bytes, Dict, none, some, true, List, [], ◌∷◌}
use nvoi.Base.{◌≡◌, ◌↔◌, refl, arith, ==_iff, contains, lookup}
use nvoi.Base.{Option-cases, inl, inr}
use nvoi.Config.{AppConfig, ServiceDef, VolumeDef, DatabaseDef}
use nvoi.Servers.{resolve_servers, mounted_server}
use nvoi.Validate.{validate_config}
use nvoi.Validate.Checks.{pass}
use nvoi.Validate.Checks.{lookup-All}
use nvoi.Validate.Text.{database_engine_is_self_hosted, named_volume}
use nvoi.Validate.Infra.{Registries}
use nvoi.Validate.Workloads.{validate_volume_server}
use nvoi.Validate.Placement.{AvoidsServer, accepted-IsDedicated}

-- The first mount that names a defined volume names one that stands on `server`.
pub data FirstMountOn (volumes : Dict VolumeDef) (server : Bytes) : List Bytes → Type 0 where
  mounted :
      {mount : Bytes} {mounts : List Bytes} {vol : VolumeDef}
      → named_volume volumes mount ≡ some vol
      → vol.server ≡ server
      → FirstMountOn volumes server (mount ∷ mounts)
  later :
      {mount : Bytes} {mounts : List Bytes}
      → named_volume volumes mount ≡ none
      → FirstMountOn volumes server mounts
      → FirstMountOn volumes server (mount ∷ mounts)

module _ (volumes : Dict VolumeDef) (server : Bytes) where
  mounted_server-FirstMountOn :
      (mounts : List Bytes)
      → contains server (mounted_server volumes mounts) ≡ true
      → FirstMountOn volumes server mounts
  unfolding mounted_server contains
  mounted_server-FirstMountOn [] h = cc
  mounted_server-FirstMountOn (m ∷ mounts) h = elim (Option-cases (named_volume volumes m)) [
    | inl unnamed ↦
        later unnamed (mounted_server-FirstMountOn mounts (rw (unnamed, mounted_server) at h))
    | inr (vol, found) ↦ mounted found (
        let g = rw (found, mounted_server) at h in (==_iff vol.server server).0 (ground (arith, g)))
  ]

  FirstMountOn-mounted_server :
      {mounts : List Bytes}
      → FirstMountOn volumes server mounts
      → contains server (mounted_server volumes mounts) ≡ true
  unfolding mounted_server contains
  FirstMountOn-mounted_server (mounted {mount} {mounts} {vol} found stands) =
      rw (found, mounted_server, contains) (ground (arith, (==_iff vol.server server).1 stands))
  FirstMountOn-mounted_server (later unnamed h) =
      rw (unnamed, mounted_server) (FirstMountOn-mounted_server h)

-- A service that a check lets pass because it does not name the server.
resolve_servers-by_mount :
    (cfg : AppConfig) (server own : Bytes) (servers mounts : List Bytes)
    → AvoidsServer server own servers
    → contains server (resolve_servers cfg servers own mounts) ≡ true
    → (own ≡ []) × (servers ≡ []) × FirstMountOn cfg.volumes server mounts
unfolding resolve_servers contains
resolve_servers-by_mount cfg server own (s ∷ servers) mounts (_, apart) h =
    absurd (ground (arith, apart, h))
resolve_servers-by_mount cfg server (c ∷ own) [] mounts (apart, _) h =
    absurd (apart ((==_iff (c ∷ own) server).0 (ground (arith, h))))
resolve_servers-by_mount cfg server [] [] mounts _ h =
    (refl, refl, mounted_server-FirstMountOn cfg.volumes server mounts h)

by_mount-resolve_servers :
    (cfg : AppConfig) (server own : Bytes) (servers mounts : List Bytes)
    → own ≡ []
    → servers ≡ []
    → FirstMountOn cfg.volumes server mounts
    → contains server (resolve_servers cfg servers own mounts) ≡ true
unfolding resolve_servers
by_mount-resolve_servers cfg server own servers mounts no_own no_servers h =
    rw (no_own, no_servers) (FirstMountOn-mounted_server cfg.volumes server h)

module _ (regs : Registries) (cfg : AppConfig) (ok : validate_config regs cfg ≡ pass) where
  -- In an accepted configuration, a service runs on the server of a self-hosted database exactly if it
  -- has neither `server` nor `servers` and the first of its mounts that names a defined volume names
  -- one that stands on that server.
  pub accepted-runs_by_mount :
      (name : Bytes) (db : DatabaseDef) (svc_name : Bytes) (svc : ServiceDef)
      → lookup name cfg.databases ≡ some db
      → database_engine_is_self_hosted db.engine ≡ true
      → lookup svc_name cfg.services ≡ some svc
      → (contains db.server (resolve_servers cfg svc.servers svc.server svc.volumes) ≡ true)
        ↔ ((svc.server ≡ []) × (svc.servers ≡ []) × FirstMountOn cfg.volumes db.server svc.volumes)
  accepted-runs_by_mount name db svc_name svc found hosted defined = (
    resolve_servers-by_mount cfg db.server svc.server svc.servers svc.volumes (
        lookup-All (λ n s. AvoidsServer db.server s.server s.servers) svc_name svc cfg.services
          (accepted-IsDedicated regs cfg ok name db found hosted).services defined),
    λ (own, several, mount).
        by_mount-resolve_servers cfg db.server svc.server svc.servers svc.volumes own several mount,
  )

volume_server-pass :
    (cfg : AppConfig) (name : Bytes) (mounts : List Bytes)
    → validate_volume_server cfg name [] mounts ≡ pass
unfolding validate_volume_server
volume_server-pass cfg name [] = refl
volume_server-pass cfg name (m ∷ mounts) = ground (arith, volume_server-pass cfg name mounts)

-- The check that a workload runs on the server of its volume passes whenever `server` is unset,
-- while a workload with one entry in `servers` runs on that entry, wherever its volume stands.
volume_server-ignores_servers :
    (cfg : AppConfig) (name s : Bytes) (mounts : List Bytes)
    → (validate_volume_server cfg name [] mounts ≡ pass)
      × (resolve_servers cfg (s ∷ []) [] mounts ≡ s ∷ [])
unfolding resolve_servers
volume_server-ignores_servers cfg name s mounts = (volume_server-pass cfg name mounts, refl)
