-- ===== src/Kube/Sweep.antt =====
-- pkg/kube/sweep.go: SweepOwned and ListOwned. The API server is a parameter: its state, what it
-- lists for a label selector, and how it answers a deletion.
use nvoi.Base.{
  Bytes, bytes, Option, none, some, Bool, true, false, List, [], ◌∷◌, ◌++◌, if◌then◌else◌, not,
  contains, is_empty,
}
use nvoi.Naming.{label_nvoi_owner}

pub data Kind : Type 0 where
  deployment stateful_set service secret config_map cron_job pvc : Kind
  other_kind : Bytes → Kind

abbrev pub is_supported : Kind → Bool
is_supported deployment = true
is_supported stateful_set = true
is_supported service = true
is_supported secret = true
is_supported config_map = true
is_supported cron_job = true
is_supported pvc = true
is_supported (other_kind k) = false

-- How a deletion ends.
pub data Reply : Type 0 where
  deleted not_found failed : Reply

-- `IgnoreNotFound(err) == nil`
abbrev pub ignore_not_found : Reply → Bool
ignore_not_found deleted = true
ignore_not_found not_found = true
ignore_not_found failed = false

pub data SweepResult : Type 0 where
  swept owner_required unsupported_kind list_failed : SweepResult
  delete_failed : Bytes → SweepResult

abbrev pub owner_selector : Bytes → Bytes
owner_selector owner = label_nvoi_owner ++ bytes "=" ++ owner

-- `list s kind selector` are the names that the API server in state `s` lists, `none` an error.
pub record Api : Type 1 where
  pub State : Type 0
  pub list : State → Kind → Bytes → Option (List Bytes)
  pub delete : State → Kind → Bytes → Reply × State

module _ (api : Api) where
  -- The loop over the listed items; it stops at the first deletion that fails.
  unfoldable pub sweep_items :
      api.State → Kind → (keep : List Bytes) → List Bytes → SweepResult × api.State
  sweep_items s kind keep [] = (swept, s)
  sweep_items s kind keep (n ∷ items) =
      if contains n keep
      then sweep_items s kind keep items
      else if ignore_not_found (api.delete s kind n).0
      then sweep_items (api.delete s kind n).1 kind keep items
      else (delete_failed n, (api.delete s kind n).1)

  unfoldable pub sweep_owned :
      api.State → (owner : Bytes) → Kind → (desired : List Bytes) → SweepResult × api.State
  sweep_owned s owner kind desired =
      if is_empty owner
      then (owner_required, s)
      else if not (is_supported kind)
      then (unsupported_kind, s)
      else elim (api.list s kind (owner_selector owner)) [
        | none ↦ (list_failed, s)
        | some items ↦ sweep_items s kind desired items
      ]

  unfoldable pub list_owned : api.State → (owner : Bytes) → Kind → Option (List Bytes)
  list_owned s owner kind =
      if is_empty owner
      then none
      else if not (is_supported kind)
      then none
      else api.list s kind (owner_selector owner)
