-- ===== src/Image/Rebuild.antt =====
-- What a new deploy hash changes in an image reference.
use nvoi.Base.{
  ℕ, ◌<◌, suc, Bytes, bytes, Dict, Option, none, some, Bool, true, false, List, [], ◌∷◌, ◌++◌,
  if◌then◌else◌, lookup, is_empty, length, length-append, Bool-cases, inl, inr, arith, ◌≡◌, ◌⊎◌,
  refl, sym, ap, append_assoc, ◌∙◌,
}
use nvoi.Config.{AppConfig, ServiceDef, RegistryDef, build_context}
use nvoi.Image.{
  ImageResult, resolved, is_digest, image_tag, with_host, with_tag, and_then, resolve_service_image,
  resolve_entry, resolve_image, tagged, undefined_service, no_image, no_registry, ambiguous,
  empty_hash, unknown_registry, fits, hash_pattern, suffix_pattern, strip_deploy_hash,
}
use mathlib.Core.List.{append_cancel_left}

length-fits : (ps : List (ℕ → Bool)) (s : Bytes) → fits ps s ≡ true → length s ≡ length ps
unfolding fits
length-fits [] [] h = refl
length-fits [] (c ∷ s) h = absurd (ground (arith, h))
length-fits (p ∷ ps) [] h = absurd (ground (arith, h))
length-fits (p ∷ ps) (c ∷ s) h = ap suc (length-fits ps s (ground (arith, h)))

longer_does_not_fit : (ps : List (ℕ → Bool)) (s : Bytes) → length ps < length s → fits ps s ≡ false
longer_does_not_fit ps s h = elim (Bool-cases (fits ps s)) [
  | inl fit ↦ absurd (omega (arith, length-fits ps s fit, h))
  | inr unfit ↦ unfit
]

-- A suffix of the form that the pattern describes is taken off, whatever stands before it.
strip_deploy_hash-append :
    (image suffix : Bytes)
    → fits suffix_pattern suffix ≡ true
    → strip_deploy_hash (image ++ suffix) ≡ image
unfolding strip_deploy_hash
strip_deploy_hash-append [] [] h = refl
strip_deploy_hash-append [] (c ∷ suffix) h = rw h refl
strip_deploy_hash-append (c ∷ image) suffix h =
    rw
      (longer_does_not_fit suffix_pattern (c ∷ (image ++ suffix))
        (omega (arith, length-append image suffix, length-fits suffix_pattern suffix h)))
      (ap (λ s. c ∷ s) (strip_deploy_hash-append image suffix h))

-- The image that a result names, without its deploy hash.
abbrev pub stripped : ImageResult → ImageResult
stripped r = and_then r (λ image. resolved (strip_deploy_hash image))

strip_deploy_hash-hash :
    (image separator hash : Bytes)
    → fits suffix_pattern (separator ++ hash) ≡ true
    → strip_deploy_hash (image ++ separator ++ hash) ≡ image
strip_deploy_hash-hash image separator hash h =
    ap strip_deploy_hash (append_assoc image separator hash)
    ∙ strip_deploy_hash-append image (separator ++ hash) h

strip_deploy_hash-tagged :
    (tag image hash : Bytes)
    → fits hash_pattern hash ≡ true
    → strip_deploy_hash (tagged tag image hash) ≡ image
unfolding fits
strip_deploy_hash-tagged [] image hash h = strip_deploy_hash-hash image (bytes ":") hash h
strip_deploy_hash-tagged (c ∷ tag) image hash h = strip_deploy_hash-hash image (bytes "-") hash h

stripped-with_tag :
    (image hash : Bytes)
    → fits hash_pattern hash ≡ true
    → stripped (with_tag image hash)
      ≡ (if is_digest image then resolved (strip_deploy_hash image) else resolved image)
unfolding with_tag fits
stripped-with_tag image [] h = absurd (ground (arith, h))
stripped-with_tag image (c ∷ hash) h = elim (Bool-cases (is_digest image)) [
  | inl digest ↦ rw digest refl
  | inr other ↦ rw other (ap resolved (strip_deploy_hash-tagged _ image (c ∷ hash) h))
]

module _ (h1 h2 : Bytes) (p : fits hash_pattern h1 ≡ true) (q : fits hash_pattern h2 ≡ true) where
  stripped-and_then :
      (r : ImageResult)
      → stripped (and_then r (λ i. with_tag i h1)) ≡ stripped (and_then r (λ i. with_tag i h2))
  stripped-and_then (resolved image) =
      stripped-with_tag image h1 p ∙ sym (stripped-with_tag image h2 q)
  stripped-and_then undefined_service = refl
  stripped-and_then no_image = refl
  stripped-and_then no_registry = refl
  stripped-and_then ambiguous = refl
  stripped-and_then empty_hash = refl
  stripped-and_then (unknown_registry host) = refl

  stripped-resolve_service_image :
      (registry : Dict RegistryDef) (svc : ServiceDef)
      → stripped (resolve_service_image registry svc h1)
        ≡ stripped (resolve_service_image registry svc h2)
  unfolding resolve_service_image
  stripped-resolve_service_image registry svc =
      elim (Bool-cases (is_empty (build_context svc.build))) [
        | inl pulled ↦ rw pulled refl
        | inr built ↦ elim (Bool-cases (is_empty svc.image)) [
          | inl missing ↦ rw (built, missing) refl
          | inr given ↦ rw (built, given) (stripped-and_then (with_host registry svc.image))
        ]
      ]

  stripped-resolve_entry :
      (registry : Dict RegistryDef) (svc : Option ServiceDef)
      → stripped (resolve_entry registry svc h1) ≡ stripped (resolve_entry registry svc h2)
  stripped-resolve_entry registry none = refl
  stripped-resolve_entry registry (some svc) = stripped-resolve_service_image registry svc

-- Any two deploy hashes of the form YYYYMMDD-HHMMSS (eight digits, a hyphen, six digits) give
-- references that are equal once stripDeployHash is applied, and the same error where there is
-- one, for every configuration and service.
pub resolve_image-stripped :
    (cfg : AppConfig) (svc_name h1 h2 : Bytes)
    → fits hash_pattern h1 ≡ true
    → fits hash_pattern h2 ≡ true
    → stripped (resolve_image cfg svc_name h1) ≡ stripped (resolve_image cfg svc_name h2)
unfolding resolve_image
resolve_image-stripped cfg svc_name h1 h2 p q =
    stripped-resolve_entry h1 h2 p q cfg.registry (lookup svc_name cfg.services)

tagged-injective : (tag image h1 h2 : Bytes) → tagged tag image h1 ≡ tagged tag image h2 → h1 ≡ h2
tagged-injective [] image h1 h2 e = append_cancel_left (image ++ bytes ":") h1 h2 e
tagged-injective (c ∷ tag) image h1 h2 e = append_cancel_left (image ++ bytes "-") h1 h2 e

with_tag_unique :
    (image h1 h2 result : Bytes)
    → with_tag image h1 ≡ resolved result
    → with_tag image h2 ≡ resolved result
    → (h1 ≡ h2) ⊎ (is_digest result ≡ true)
unfolding with_tag
with_tag_unique image [] h2 result e1 e2 = absurd (ground (arith, e1))
with_tag_unique image (c ∷ h1) [] result e1 e2 = absurd (ground (arith, e2))
with_tag_unique image (c ∷ h1) (d ∷ h2) result e1 e2 = elim (Bool-cases (is_digest image)) [
  | inl digest ↦ inr (ground (arith, e1, digest))
  | inr plain ↦
      inl
        (tagged-injective (image_tag image) image (c ∷ h1) (d ∷ h2) (ground (arith, e1, e2, plain)))
]

and_then_unique :
    (r : ImageResult) (h1 h2 image : Bytes)
    → and_then r (λ i. with_tag i h1) ≡ resolved image
    → and_then r (λ i. with_tag i h2) ≡ resolved image
    → (h1 ≡ h2) ⊎ (is_digest image ≡ true)
and_then_unique (resolved i) h1 h2 image e1 e2 = with_tag_unique i h1 h2 image e1 e2
and_then_unique undefined_service h1 h2 image e1 e2 = absurd (ground (arith, e1))
and_then_unique no_image h1 h2 image e1 e2 = absurd (ground (arith, e1))
and_then_unique no_registry h1 h2 image e1 e2 = absurd (ground (arith, e1))
and_then_unique ambiguous h1 h2 image e1 e2 = absurd (ground (arith, e1))
and_then_unique empty_hash h1 h2 image e1 e2 = absurd (ground (arith, e1))
and_then_unique (unknown_registry host) h1 h2 image e1 e2 = absurd (ground (arith, e1))

-- A built service that two different deploy hashes resolve to one and the same reference is
-- pinned by digest: otherwise every deploy gets its own reference.
resolve_service_image_unique :
    (registry : Dict RegistryDef) (svc : ServiceDef) (h1 h2 image : Bytes)
    → is_empty (build_context svc.build) ≡ false
    → resolve_service_image registry svc h1 ≡ resolved image
    → resolve_service_image registry svc h2 ≡ resolved image
    → (h1 ≡ h2) ⊎ (is_digest image ≡ true)
unfolding resolve_service_image
resolve_service_image_unique registry svc h1 h2 image built e1 e2 =
    and_then_unique (with_host registry svc.image) h1 h2 image (ground (arith, e1, built))
      (ground (arith, e2, built))
