-- ===== src/Workload/Upsert.antt =====
-- upsertServiceSecrets of internal/reconcile/services.go.
use nvoi.Base.{Bytes, Dict, Option, none, some, List, [], ◌∷◌, if◌then◌else◌, has_key, is_empty}
use nvoi.Naming.{kube_service_secrets}
use nvoi.Kube.Secrets.{
  SecretApi, Outcome, done, ensure_secret, delete_secret, delete_secret_key, list_secret_keys,
}
use nvoi.Plan.Services.{owner_services}

module _ (api : SecretApi) where
  -- The keys that are not wanted any more; an error of a deletion is passed over.
  unfoldable pub drop_keys :
      api.State → (secret_name : Bytes) → (kvs : Dict Bytes) → (existing : List Bytes) → api.State
  unfolding has_key
  drop_keys s secret_name kvs [] = s
  drop_keys s secret_name kvs (key ∷ existing) =
      drop_keys (if has_key key kvs then s else (delete_secret_key api s secret_name key).1)
        secret_name kvs existing

  abbrev pub drop_listed :
      api.State → (secret_name : Bytes) → (kvs : Dict Bytes) → Option (List Bytes) → api.State
  drop_listed s secret_name kvs none = s
  drop_listed s secret_name kvs (some existing) = drop_keys s secret_name kvs existing

  abbrev pub drop_after :
      (secret_name : Bytes) → (kvs : Dict Bytes) → Outcome × api.State → Outcome × api.State
  drop_after secret_name kvs (done, s) =
      (done, drop_listed s secret_name kvs (list_secret_keys api s secret_name))
  drop_after secret_name kvs (bad, s) = (bad, s)

  -- The secret of a service, and of a cron, is owned by the services.
  unfoldable pub upsert_service_secrets :
      api.State → (svc_name : Bytes) → (kvs : Dict Bytes) → Outcome × api.State
  unfolding drop_keys
  upsert_service_secrets s svc_name kvs =
      if is_empty kvs
      then delete_secret api s (kube_service_secrets svc_name)
      else drop_after (kube_service_secrets svc_name) kvs
          (ensure_secret api s owner_services (kube_service_secrets svc_name) kvs)
