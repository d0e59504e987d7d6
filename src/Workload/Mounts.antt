-- ===== src/Workload/Mounts.antt =====
-- A mount that ValidateConfig accepts, as ServiceSet and buildVolumes read it.
use nvoi.Base.{
  Bytes, bytes, Dict, some, Bool-cases, true, false, List, [], ◌∷◌, ◌||◌, not, has_key, has_prefix,
  cut, Option-cases, nat_eq, ◌≡◌, refl, inl, inr, arith,
}
use nvoi.Config.{AppConfig, VolumeDef}
use nvoi.Naming.{VolumeMount, target_of, parse_volume_mount}
use nvoi.Validate.Checks.{pass}
use nvoi.Validate.Text.{has_named_volume}
use nvoi.Validate.Workloads.{validate_mount}

-- The mount is read; a named one is a defined volume and not relative.
pub record Reads (volumes : Dict VolumeDef) (mount : Bytes) : Type 0 where
  pub v : VolumeMount
  pub parsed : parse_volume_mount mount ≡ some v
  pub defined : v.named ≡ true → has_key v.source volumes ≡ true
  pub named_absolute : v.named ≡ true → has_prefix (bytes ".") mount ≡ false
  pub same_prefix : has_prefix (bytes ".") v.source ≡ has_prefix (bytes ".") mount
  pub counted :
      (mounts : List Bytes)
      → has_named_volume volumes (mount ∷ mounts) ≡ (v.named || has_named_volume volumes mounts)

module _ (cfg : AppConfig) (no_empty : has_key [] cfg.volumes ≡ false) where
  pub validate_mount-Reads :
      (name mount : Bytes) → validate_mount cfg name mount ≡ pass → Reads cfg.volumes mount
  unfolding validate_mount parse_volume_mount has_named_volume cut has_prefix
  validate_mount-Reads name [] h = cc
  validate_mount-Reads name (c ∷ s) h = elim (Bool-cases (nat_eq c b':')) [
    | inl colon ↦ ground (arith, no_empty)
    | inr other ↦ elim (Option-cases (cut b':' s)) [
      | inl none_behind ↦ ground arith
      | inr (r, behind) ↦ record {
        v = record {
          source = c ∷ r.0;
          target = target_of r.1;
          named = not (nat_eq c b'/' || nat_eq c b'.');
        };
        parsed = ground (arith, behind, other);
        defined = λ e. ground (arith, behind, other);
        named_absolute = λ e. ground arith;
        same_prefix = refl;
        counted = λ mounts. ground (arith, behind, other);
      }
    ]
  ]
