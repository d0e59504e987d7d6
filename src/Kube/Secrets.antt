-- ===== src/Kube/Secrets.antt =====
-- pkg/kube/secrets.go: secrets over an API server that is a parameter.
use nvoi.Base.{
  Bytes, Dict, Option, none, some, Bool, true, false, List, [], ◌∷◌, if◌then◌else◌, is_empty,
  insert, copy_over, remove_key, has_key, lookup, keys,
}
use nvoi.Naming.{label_app_managed_by, label_managed_by, label_nvoi_owner}
use nvoi.Kube.Sweep.{Reply, ignore_not_found}

pub record Secret : Type 0 where
  pub labels : Dict Bytes
  pub values : Dict Bytes

-- What the API server answers to a read.
pub data Read : Type 0 where
  missing broken : Read
  found : Secret → Read

-- The secrets of a namespace by their names: `create` and `update` say whether they succeeded.
pub record SecretApi : Type 1 where
  pub State : Type 0
  pub get : State → Bytes → Read
  pub create : State → Bytes → Secret → Bool × State
  pub update : State → Bytes → Secret → Bool × State
  pub delete : State → Bytes → Reply × State

pub data Outcome : Type 0 where
  done owner_required get_failed create_failed update_failed delete_failed : Outcome

unfoldable pub owner_labels : (owner : Bytes) → Dict Bytes → Dict Bytes
unfolding insert
owner_labels owner labels =
    insert label_nvoi_owner owner (insert label_app_managed_by label_managed_by labels)

module _ (api : SecretApi) where
  abbrev pub if_done : Outcome → Bool × api.State → Outcome × api.State
  if_done bad (true, s) = (done, s)
  if_done bad (false, s) = (bad, s)

  -- On what the read answered.
  abbrev pub ensure_on : api.State → (owner name : Bytes) → Dict Bytes → Read → Outcome × api.State
  ensure_on s owner name kvs missing =
      if_done create_failed
        (api.create s name (record { labels = owner_labels owner []; values = copy_over [] kvs }))
  ensure_on s owner name kvs broken = (get_failed, s)
  ensure_on s owner name kvs (found secret) = if_done update_failed (
      api.update s name (record {
        labels = owner_labels owner secret.labels;
        values = copy_over secret.values kvs;
      }))

  unfoldable pub ensure_secret : api.State → (owner name : Bytes) → Dict Bytes → Outcome × api.State
  unfolding owner_labels copy_over
  ensure_secret s owner name kvs =
      if is_empty owner then (owner_required, s) else ensure_on s owner name kvs (api.get s name)

  unfoldable pub upsert_secret_key :
      api.State → (owner name key value : Bytes) → Outcome × api.State
  unfolding ensure_secret
  upsert_secret_key s owner name key value = ensure_secret s owner name ((key, value) ∷ [])

  abbrev pub delete_key_on : api.State → (name key : Bytes) → Read → Outcome × api.State
  delete_key_on s name key missing = (done, s)
  delete_key_on s name key broken = (get_failed, s)
  delete_key_on s name key (found secret) =
      if has_key key secret.values
      then if_done update_failed
          (api.update s name (record secret { values = remove_key key secret.values }))
      else (done, s)

  unfoldable pub delete_secret_key : api.State → (name key : Bytes) → Outcome × api.State
  unfolding has_key remove_key
  delete_secret_key s name key = delete_key_on s name key (api.get s name)

  unfoldable pub delete_secret : api.State → (name : Bytes) → Outcome × api.State
  delete_secret s name =
      if ignore_not_found (api.delete s name).0
      then (done, (api.delete s name).1)
      else (delete_failed, (api.delete s name).1)

  abbrev keys_on : Read → Option (List Bytes)
  keys_on missing = some []
  keys_on broken = none
  keys_on (found secret) = some (keys secret.values)

  unfoldable pub list_secret_keys : api.State → (name : Bytes) → Option (List Bytes)
  list_secret_keys s name = keys_on (api.get s name)

  abbrev value_on : (key : Bytes) → Read → Option Bytes
  value_on key missing = none
  value_on key broken = none
  value_on key (found secret) = elim (lookup key secret.values) [
    | none ↦ none
    | some [] ↦ none
    | some (c ∷ value) ↦ some (c ∷ value)
  ]

  unfoldable pub get_secret_value : api.State → (name key : Bytes) → Option Bytes
  unfolding lookup
  get_secret_value s name key = value_on key (api.get s name)
