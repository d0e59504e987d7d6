-- ===== src/Workload/Builds.antt =====
-- When the loops of ServiceSet, CronSet and buildVolumes give a value.
use nvoi.Base.{
  Bytes, bytes, Dict, some, Bool, Bool-cases, true, false, List, [], ◌∷◌, ◌++◌, ℕ, suc, ◌||◌,
  has_key, lookup, insert, contains-keys, keys, has_prefix, cut, nat_eq, ◌≡◌, refl, sym, ap, subst,
  ◌∙◌, inl, inr, arith, All,
}
use nvoi.Config.{VolumeDef}
use nvoi.Naming.{Names, VolumeMount, parse_volume_mount, volume_mount_path, named_volume_host_path}
use nvoi.Validate.Text.{has_named_volume}
use nvoi.Workload.Objects.{
  Built, built, rejected, and_build, HostMount, host_mount, or_default, relative_mount,
  build_volumes_from, plain,
}
use nvoi.Workload.Set.{add_mount, managed_volumes, parse_env_vars}
use nvoi.Vars.{Resolved, ok, err}
use nvoi.Secrets.{resolve_entry}
use nvoi.Workload.Apply.{Env, env, bad_env, on_env, plain_env}
use nvoi.Workload.Mounts.{Reads}

-- No mount is a relative bind mount.
abbrev pub AreAbsolute : (mounts : List Bytes) → Type 0
AreAbsolute mounts = All (λ m. has_prefix (bytes ".") m ≡ false) mounts

-- There is a value that satisfies a predicate.
abbrev pub Gives : {A : Type 0} → Built A → (A → Type 0) → Type 0
Gives x P = (a : _) × ((x ≡ built a) × P a)

-- One step behind another.
pub and_build-Gives :
    {A B : Type 0} (x : Built A) (f : A → Built B) (P : A → Type 0) (Q : B → Type 0)
    → Gives x P
    → ((a : A) → P a → Gives (f a) Q)
    → Gives (and_build x f) Q
and_build-Gives x f P Q (a, (e, p)) h =
    let (b, (found, q)) = h a p in (b, (ap (λ y. and_build y f) e ∙ found, q))

module _ (volumes : Dict VolumeDef) (names : Names) where
  add_mount-Gives :
      (mount : Bytes) (v : VolumeMount) (acc : Dict Bytes × Bool)
      → (v.named ≡ true → has_key v.source volumes ≡ true)
      → Gives (add_mount names (keys volumes) mount (some v) acc) (λ b. b.1 ≡ (acc.1 || v.named))
  add_mount-Gives mount v acc defined = elim (Bool-cases v.named) [
    | inl named ↦ (
      (insert v.source (volume_mount_path names v.source) acc.0, true),
      (rw named (rw (contains-keys v.source volumes) (rw (defined named) refl)), ground arith),
    )
    | inr unnamed ↦ (acc, (rw unnamed refl, ground arith))
  ]

  pub managed_volumes-Gives :
      (mounts : List Bytes) (acc : Dict Bytes × Bool)
      → All (Reads volumes) mounts
      → Gives
          (managed_volumes names (keys volumes) mounts acc)
          (λ b. b.1 ≡ (acc.1 || has_named_volume volumes mounts))
  unfolding managed_volumes has_named_volume
  managed_volumes-Gives [] acc h = (acc, (refl, ground arith))
  managed_volumes-Gives (m ∷ mounts) acc (here, later) =
      and_build-Gives _ _ (λ b. b.1 ≡ (acc.1 || here.v.named)) _
        (rw here.parsed (add_mount-Gives m here.v acc here.defined))
        (λ b e.
          let (c, (found, q)) = managed_volumes-Gives mounts b later in
          (c, (found, ground (arith, q, e, here.counted mounts))))

  host_mount-Gives :
      (paths : Dict Bytes) (i : ℕ) (mount : Bytes) (v : VolumeMount)
      → has_prefix (bytes ".") v.source ≡ false
      → Gives (host_mount names paths i mount (some v)) (λ m. Unit)
  host_mount-Gives paths i mount v absolute = elim (Bool-cases v.named) [
    | inl named ↦ (
      record {
        index = i;
        path = or_default (named_volume_host_path names v.source) (lookup v.source paths);
        target = v.target;
      },
      (rw named refl, tt),
    )
    | inr unnamed ↦ (
      record { index = i; path = v.source; target = v.target },
      (rw unnamed (rw absolute refl), tt),
    )
  ]

  pub build_volumes_from-Gives :
      (paths : Dict Bytes) (i : ℕ) (mounts : List Bytes)
      → All (Reads volumes) mounts
      → AreAbsolute mounts
      → Gives (build_volumes_from names paths i mounts) (λ ms. Unit)
  unfolding build_volumes_from
  build_volumes_from-Gives paths i [] h a = ([], (refl, tt))
  build_volumes_from-Gives paths i (m ∷ mounts) (here, later) (absolute, others) =
      and_build-Gives _ _ (λ x. Unit) _
        (rw here.parsed (host_mount-Gives paths i m here.v (here.same_prefix ∙ absolute)))
        (λ x u.
          and_build-Gives _ _ (λ xs. Unit) _
            (build_volumes_from-Gives paths (suc i) mounts later others)
            (λ xs w. (x ∷ xs, (refl, tt))))

-- A chain that gives a value, read backwards.
pub and_build-built :
    {A B : Type 0} (x : Built A) (f : A → Built B) (b : B)
    → and_build x f ≡ built b
    → (a : A) × (f a ≡ built b) × (x ≡ built a)
and_build-built (built a) f b h = (a, h, refl)
and_build-built (rejected r) f b h = cc

host_mount-absolute :
    (names : Names) (paths : Dict Bytes) (i : ℕ) (mount : Bytes) (v : VolumeMount) (x : HostMount)
    → host_mount names paths i mount (some v) ≡ built x
    → v.named ≡ false
    → has_prefix (bytes ".") v.source ≡ false
host_mount-absolute names paths i mount v x h unnamed =
    elim (Bool-cases (has_prefix (bytes ".") v.source)) [
      | inl relative ↦
          let stopped : host_mount names paths i mount (some v) ≡ rejected (relative_mount mount) =
            rw unnamed (rw relative refl) in
          cc
      | inr absolute ↦ absolute
    ]

pub build_volumes_from-AreAbsolute :
    (volumes : Dict VolumeDef) (names : Names) (paths : Dict Bytes) (i : ℕ) (mounts : List Bytes)
    (ms : List HostMount)
    → All (Reads volumes) mounts
    → build_volumes_from names paths i mounts ≡ built ms
    → AreAbsolute mounts
unfolding build_volumes_from
build_volumes_from-AreAbsolute volumes names paths i [] ms h e = tt
build_volumes_from-AreAbsolute volumes names paths i (m ∷ mounts) ms (here, later) e =
    let (x, e1, first) =
      and_build-built (host_mount names paths i m (parse_volume_mount m))
        (λ y. and_build (build_volumes_from names paths (suc i) mounts) (λ ys. built (y ∷ ys))) ms
        e in
    let (xs, _, rest) =
      and_build-built (build_volumes_from names paths (suc i) mounts) (λ ys. built (x ∷ ys)) ms
        e1 in
    let first : host_mount names paths i m (some here.v) ≡ built x = rw here.parsed at first in
    (
      elim (Bool-cases here.v.named) [
        | inl named ↦ here.named_absolute named
        | inr unnamed ↦
            sym here.same_prefix ∙ host_mount-absolute names paths i m here.v x first unnamed
      ],
      build_volumes_from-AreAbsolute volumes names paths (suc i) mounts xs later rest,
    )

cut-joined : (k v : Bytes) → (r : _) × (cut b'=' (k ++ (bytes "=" ++ v)) ≡ some r)
unfolding cut
cut-joined [] v = (([], v), refl)
cut-joined (c ∷ k) v =
    let (r, found) = cut-joined k v in
    elim (Bool-cases (nat_eq c b'=')) [
      | inl here ↦ (([], k ++ (bytes "=" ++ v)), ground (arith, here))
      | inr later ↦ ((c ∷ r.0, r.1), ground (arith, later, found))
    ]

-- What is joined with `=` is split again.
with_env-Gives :
    (key value : Bytes) (es : List Bytes)
    → Gives (parse_env_vars es) (λ vs. Unit)
    → Gives (parse_env_vars ((key ++ (bytes "=" ++ value)) ∷ es)) (λ vs. Unit)
unfolding parse_env_vars
with_env-Gives key value es h =
    let (r, found) = cut-joined key value in
    rw found (
      and_build-Gives (built (plain r.0 r.1)) _ (λ v. Unit) _ (plain r.0 r.1, (refl, tt))
        (λ v u. and_build-Gives _ _ (λ vs. Unit) _ h (λ vs w. (v ∷ vs, (refl, tt)))))

on_env-Gives :
    (p : Bytes × Resolved) (rest : Env) (es : List Bytes)
    → ((ds : List Bytes) → rest ≡ env ds → Gives (parse_env_vars ds) (λ vs. Unit))
    → on_env p rest ≡ env es
    → Gives (parse_env_vars es) (λ vs. Unit)
on_env-Gives (key, ok value) (env ds) es h e =
    subst (λ x. Gives (parse_env_vars x) (λ vs. Unit)) (cc)
      (with_env-Gives key value ds (h ds refl))
on_env-Gives (key, ok value) (bad_env x) es h e = cc
on_env-Gives (key, err x) rest es h e = cc

pub plain_env-Gives :
    (sources : Dict Bytes) (entries es : List Bytes)
    → plain_env sources entries ≡ env es
    → Gives (parse_env_vars es) (λ vs. Unit)
unfolding plain_env parse_env_vars
plain_env-Gives sources [] es e =
    let same : [] ≡ es = cc in
    subst (λ x. Gives (parse_env_vars x) (λ vs. Unit)) same ([], (refl, tt))
plain_env-Gives sources (entry ∷ entries) es e =
    on_env-Gives (resolve_entry sources entry) (plain_env sources entries) es
      (plain_env-Gives sources entries) e
