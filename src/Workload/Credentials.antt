-- ===== src/Workload/Credentials.antt =====
-- resolveSecretEntries, expandStorageCreds and expandDatabaseCreds of
-- internal/reconcile/services.go: the keys and values of a workload's secret.
use nvoi.Base.{
  Bytes, bytes, Dict, Option, none, some, List, [], ◌∷◌, ◌++◌, if◌then◌else◌, insert, lookup,
  has_byte, is_empty,
}
use nvoi.Naming.{database_env_name}
use nvoi.Vars.{Resolved, ok, err, RefError}
use nvoi.Secrets.{resolve_entry}
use nvoi.Validate.Text.{parse_database_ref}
use nvoi.Plan.Keys.{storage_secret_keys}

-- The values of the secret, and the keys that the pods refer to.
pub record Credentials : Type 0 where
  pub kvs : Dict Bytes
  pub refs : List Bytes

abbrev pub no_credentials : Credentials
no_credentials = record { kvs = []; refs = [] }

abbrev pub with_value : (key value : Bytes) → Credentials → Credentials
with_value key value c = record { kvs = insert key value c.kvs; refs = c.refs ++ key ∷ [] }

pub data Collected : Type 0 where
  collected : Credentials → Collected
  unresolved : RefError → Collected

-- `FOO` stands for `FOO=$FOO`.
unfoldable pub normalized : Bytes → Bytes
unfolding has_byte
normalized entry =
    if has_byte b'=' entry then entry else entry ++ (bytes "=" ++ (bytes "$" ++ entry))

-- `if err != nil { return }`
abbrev pub on_value : Resolved → (Bytes → Collected) → Collected
on_value (ok value) f = f value
on_value (err e) f = unresolved e

module _ (sources : Dict Bytes) where
  unfoldable pub resolve_secret_entries : Credentials → (secrets : List Bytes) → Collected
  unfolding insert normalized resolve_entry
  resolve_secret_entries c [] = collected c
  resolve_secret_entries c (entry ∷ secrets) =
      on_value (resolve_entry sources (normalized entry)).1 (λ value.
        resolve_secret_entries (with_value (resolve_entry sources (normalized entry)).0 value c)
          secrets)

  -- A key is taken over if there is a value.
  abbrev pub take_value : (key : Bytes) → Option Bytes → Credentials → Credentials
  take_value key none c = c
  take_value key (some value) c = with_value key value c

  unfoldable pub take_keys : List Bytes → Credentials → Credentials
  unfolding insert lookup
  take_keys [] c = c
  take_keys (key ∷ keys) c = take_keys keys (take_value key (lookup key sources) c)

  unfoldable pub expand_storage_creds : (storages : List Bytes) → Credentials → Credentials
  unfolding storage_secret_keys
  expand_storage_creds [] c = c
  expand_storage_creds (storage ∷ storages) c =
      expand_storage_creds storages (take_keys (storage_secret_keys storage) c)

  abbrev pub database_key : (ref : Bytes) → Bytes
  database_key ref =
      if is_empty (parse_database_ref ref).0
      then database_env_name (parse_database_ref ref).1
      else (parse_database_ref ref).0

  unfoldable pub expand_database_creds : (databases : List Bytes) → Credentials → Credentials
  unfolding insert lookup parse_database_ref database_env_name
  expand_database_creds [] c = c
  expand_database_creds (ref ∷ databases) c = expand_database_creds databases (
      take_value (database_key ref) (lookup (database_env_name (parse_database_ref ref).1) sources)
        c)

  abbrev pub expand : (storages databases : List Bytes) → Collected → Collected
  expand storages databases (unresolved e) = unresolved e
  expand storages databases (collected c) =
      collected (expand_database_creds databases (expand_storage_creds storages c))

  -- What the loops over the services and the crons collect for one workload.
  unfoldable pub workload_credentials : (secrets storages databases : List Bytes) → Collected
  workload_credentials secrets storages databases =
      expand storages databases (resolve_secret_entries no_credentials secrets)
